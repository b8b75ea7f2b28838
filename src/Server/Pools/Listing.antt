-- ===== src/Server/Pools/Listing.antt =====
-- What `ListPools` answers.
use shortrack.Base.{ℕ, ◌≡◌, refl, ◌==◌, Option, none, some, List, [], ◌∷◌, map, find, arith}
use shortrack.Base.Map.{Map, AllEntries, lookup-AllEntries, lookup, values}
use shortrack.State.{ServerConfig, StatePool, SigmaState}
use shortrack.Host.{Host}
use shortrack.Pb.{PoolInfo}
use shortrack.Server.Call.{Store, reply}
use shortrack.Server.Invariant.{IsWellFormed}
use shortrack.Server.Pools.{list_pools, pool_info}

abbrev pub info_of : ServerConfig → Option StatePool → Option PoolInfo
info_of cfg none = none
info_of cfg (some p) = some (pool_info cfg p)

find-values :
    (cfg : ServerConfig) (n : ℕ) (m : Map StatePool)
    → AllEntries (λ k p. p.id ≡ k) m
    → find (λ (i : PoolInfo). i.pool_id == n) (map (pool_info cfg) (values m))
      ≡ info_of cfg (lookup n m)
unfolding lookup
find-values cfg n [] h = refl
find-values cfg n ((k, p) ∷ m) h = ground (arith, find-values cfg n m h.1)

-- The pools that a well-formed state visits are those that `lookup` finds.
pub visited :
    (st : SigmaState)
    → IsWellFormed st
    → AllEntries (λ k p. (p.id ≡ k) × (lookup k st.pools ≡ some p)) st.pools
visited st wf = lookup-AllEntries _ st.pools wf.distinct (λ k p e. ((wf.pools k p e).keyed, e))

module _ (H : Host) (cfg : ServerConfig) where
  -- In a well-formed state `ListPools` answers a list, without error and without a change, in which
  -- the search for any number finds exactly the pool that the state holds under it, or nothing.
  pub list_pools-lookup :
      (s : Store H.World) (n : ℕ)
      → IsWellFormed s.state
      → (infos : List PoolInfo) × (list_pools H cfg s ≡ (reply infos none, s))
        × (find (λ i. i.pool_id == n) infos ≡ info_of cfg (lookup n s.state.pools))
  unfolding list_pools
  list_pools-lookup s n wf = (
    map (pool_info cfg) (values s.state.pools),
    refl,
    find-values cfg n s.state.pools
        (lookup-AllEntries _ s.state.pools wf.distinct (λ k p e. (wf.pools k p e).keyed)),
  )
