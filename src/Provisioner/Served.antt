-- ===== src/Provisioner/Served.antt =====
-- `Provision` against the modelled server.
use shortrack.Base.{
  ℕ, ◌≡◌, ◌≢◌, refl, sym, subst, ◌∙◌, ◌==◌, true, false, Bool-cases, inl, inr, none, some, List, [],
  ◌∷◌, map, arith,
}
use shortrack.Base.Map.{Map, AllEntries, lookup, lookup-insert, values}
use shortrack.Go.Text.{Text, text_eq, text_eq_iff}
use shortrack.State.{ServerConfig, StatePool}
use shortrack.Host.{Host, value}
use shortrack.Host.Io.{Outcome, ok, err, errorf, pure, ◌>>=◌}
use shortrack.Host.Io.Cases.{Outcome-cases, Returned-cases}
use shortrack.Pb.{PoolInfo, CreatePoolRequest}
use shortrack.Server.Call.{Store, Reply, reply, panicked}
use shortrack.Server.Invariant.{IsWellFormed}
use shortrack.Server.Pools.{list_pools, create_pool, pool_info}
use shortrack.Server.Pools.Create.{create_pool-made, new_pool}
use shortrack.Server.Pools.Listing.{visited}
use shortrack.Server.Client.{server_client, RpcError, received}
use shortrack.Pb.Client.{SigmaClient}
use shortrack.Provisioner.{Annotations, annotation, annotation_pool_id, StorageClassParameters}
use shortrack.Provisioner.Pool.{pool_named, listed_pool, or_else, annotated}
use shortrack.Provisioner.Provision.{created_pool, choose_pool}

pool_named-values :
    (cfg : ServerConfig) (pools : Map StatePool) (name : Text) (m : Map StatePool)
    → AllEntries (λ k p. (p.id ≡ k) × (lookup k pools ≡ some p)) m
    → let n = pool_named name (map (pool_info cfg) (values m)) in
      n ≢ 0 → (p : StatePool) × (lookup n pools ≡ some p) × (p.name ≡ name)
unfolding pool_named
pool_named-values cfg pools name [] h nz = absurd (nz refl)
pool_named-values cfg pools name ((k, p) ∷ m) h nz = elim (Bool-cases (text_eq p.name name)) [
  | inl same ↦ (p, ground (arith, h.0), (text_eq_iff p.name name).0 same)
  | inr other ↦
      let (q, found, named) = pool_named-values cfg pools name m h.1 (ground (arith, nz)) in
      (q, ground (arith, found), named)
]

pub received-value :
    {E R : Type 0} (x : Reply E R) (res : R) → received x ≡ value res → x ≡ reply res none
received-value (reply a none) res h = ground arith
received-value (reply a (some st)) res h = ground arith
received-value panicked res h = ground arith

module _ (H : Host) (cfg : ServerConfig) where
  abbrev client : SigmaClient (Store H.World) (RpcError H.Err)
  client = server_client H cfg

  abbrev infos : Store H.World → List PoolInfo
  infos s = map (pool_info cfg) (values s.state.pools)

  listed_pool-served :
      (name : Text) (s : Store H.World)
      → text_eq name [] ≡ false
      → listed_pool client name s ≡ (ok (pool_named name (infos s)), s)
  unfolding listed_pool list_pools
  listed_pool-served name s e = ground arith

  listed_pool-unnamed :
      (name : Text) (s : Store H.World)
      → text_eq name [] ≡ true
      → listed_pool client name s
        ≡ (err (errorf "poolName must be configured in the StorageClass" []), s)
  unfolding listed_pool
  listed_pool-unnamed name s e = ground arith

  created_pool-held :
      (name : Text) (n : ℕ) (s : Store H.World)
      → (created_pool client name s).0 ≡ ok n
      → (p : StatePool) × (lookup n (created_pool client name s).1.state.pools ≡ some p)
        × (p.name ≡ name)
  unfolding created_pool
  created_pool-held name n s h =
      let req : CreatePoolRequest = record { pool_id = none; pool_name = some name } in
      elim (Returned-cases (client.create_pool req s).0) [
        | inr (e, bad) ↦ absurd (ground arith)
        | inl (info, made) ↦
            let answer : (create_pool H cfg req s).0 ≡ reply info none =
              received-value (create_pool H cfg req s).0 info made in
            let (id, pos, small, same, _, changed) = create_pool-made H cfg req s info answer in
            (
              new_pool req id,
              ground (arith, lookup-insert id id (new_pool req id) s.state.pools),
              refl,
            )
      ]

  -- Where neither the claim nor the class has a number.
  choose_pool-unannotated :
      (scp : StorageClassParameters) (claim class : Annotations) (s : Store H.World)
      → annotation annotation_pool_id claim ≡ []
      → annotation annotation_pool_id class ≡ []
      → choose_pool client scp claim class s
        ≡ (listed_pool client scp.pool_name >>= λ m.
              or_else m (created_pool client scp.pool_name) >>= λ id. pure (id, []))
            s
  unfolding choose_pool annotated text_eq
  choose_pool-unannotated scp claim class s e f = rw (e, f) refl

  abbrev Holds :
      StorageClassParameters → ℕ → Outcome (RpcError H.Err) (ℕ × Text) × Store H.World → Type 0
  Holds scp n r = (p : StatePool) × (lookup n r.1.state.pools ≡ some p) × (p.name ≡ scp.pool_name)

  answered_number :
      {r : Outcome (RpcError H.Err) (ℕ × Text) × Store H.World} {m n : ℕ} {seen : Text}
      {s : Store H.World}
      → r ≡ (ok (m, []), s)
      → r.0 ≡ ok (n, seen)
      → m ≡ n
  answered_number e h = ground arith

  -- In a well-formed state, where neither the claim nor the class has a pool's number: if
  -- `Provision` finds a number, by the list of pools or by `CreatePool`, then the server holds
  -- under it a pool of the name that the class's parameters give.
  pub choose_pool-named :
      (scp : StorageClassParameters) (claim class : Annotations) (s : Store H.World) (n : ℕ)
      (seen : Text)
      → IsWellFormed s.state
      → annotation annotation_pool_id claim ≡ []
      → annotation annotation_pool_id class ≡ []
      → (choose_pool client scp claim class s).0 ≡ ok (n, seen)
      → (p : StatePool) × (lookup n (choose_pool client scp claim class s).1.state.pools ≡ some p)
        × (p.name ≡ scp.pool_name)
  choose_pool-named scp claim class s n seen wf e f h =
      let eq = choose_pool-unannotated scp claim class s e f in
      let name = scp.pool_name in
      elim (Bool-cases (text_eq name [])) [
        | inl empty ↦ absurd (ground (arith, eq, listed_pool-unnamed name s empty))
        | inr named ↦
            let listed = listed_pool-served name s named in
            elim (Bool-cases (pool_named name (infos s) == 0)) [
              | inr found ↦
                  let at : choose_pool client scp claim class s
                      ≡ (ok (pool_named name (infos s), []), s) =
                    eq ∙ ground (arith, listed) in
                  subst (Holds scp n) (sym at) (
                    subst (λ k. Holds scp k (ok (k, []), s)) (answered_number at h)
                      (pool_named-values cfg s.state.pools name s.state.pools (visited s.state wf)
                        (ground arith)))
              | inl missing ↦ elim (Outcome-cases (created_pool client name s).0) [
                | inr (inl (e', failed_create)) ↦ absurd (ground (arith, eq, listed))
                | inr (inr crashed) ↦ absurd (ground (arith, eq, listed))
                | inl (id, made) ↦
                    let at : choose_pool client scp claim class s
                        ≡ (ok (id, []), (created_pool client name s).1) =
                      eq ∙ ground (arith, listed) in
                    subst (Holds scp n) (sym at) (
                      subst (λ k. Holds scp k (ok (k, []), (created_pool client name s).1))
                        (answered_number at h) (created_pool-held name id s made))
              ]
            ]
      ]
