-- ===== src/Server/Spec/Refines.antt =====
-- The detailed handlers do what the specification permits, and no more.
use std.Path.{fun_ext}
use shortrack.Base.{
  ℕ, ◌≤◌, ◌<◌, ◌^◌, ◌⊎◌, ◌≡◌, refl, sym, ap, subst, ◌∙◌, Bool, true, false, Option, none, some,
  List, [], ◌∷◌, if◌then◌else◌, ◌==◌, inl, inr, find, Option-cases, arith,
}
use shortrack.Base.Map.{Map, lookup, insert, erase, values, lookup-insert, lookup-erase, find-none}
use shortrack.State.{ServerConfig, StateVolume, StatePool, SigmaState}
use shortrack.Host.{Host}
use shortrack.Pb.{CreatePoolRequest, CreateVolumeRequest, DeleteVolumeRequest}
use shortrack.Server.Call.{Store}
use shortrack.Server.Invariant.{IsWellFormed}
use shortrack.Server.Pools.{uint16}
use shortrack.Server.Pools
use shortrack.Server.Pools.Create.{IsRequested, new_pool, with_pool, create_pool-state, free-lookup}
use shortrack.Server.Pools.Delete.{delete_pool-state}
use shortrack.Server.Volumes.{change_volumes}
use shortrack.Server.Volumes.Held.{lookup-change_volumes}
use shortrack.Server.CreateVolume.{create_volume, volume_conflicts}
use shortrack.Server.CreateVolume.Effect.{new_volume, blank_volume, raised, create_volume-state}
use shortrack.Server.DeleteVolume.{without_volume}
use shortrack.Server.DeleteVolume.Effect.{shrunk, delete_volume-state}
use shortrack.Server.Service.{Request, serve, serve_all}
use shortrack.Server.Service.Invariance.{
  serve-IsWellFormed, list_pools-same, get_pool-same, list_volumes-same, get_volume-same,
}
use shortrack.Server.Spec.{
  option_map, volume_view, pool_view, view, update, with_volume, Permits, PermitsAll,
}

option_map-if :
    {A B : Type 0} (f : A → B) (b : Bool) (x y : Option A)
    → option_map f (if b then x else y) ≡ (if b then option_map f x else option_map f y)
option_map-if f true x y = refl
option_map-if f false x y = refl

-- A map that reads as an update is viewed as an update.
option_map-update :
    {A B : Type 0} (f : A → B) (k : ℕ) (x : Option A) (m n : ℕ → Option A)
    → ((j : ℕ) → n j ≡ update k x m j)
    → (λ j. option_map f (n j)) ≡ update k (option_map f x) (λ j. option_map f (m j))
option_map-update f k x m n h =
    fun_ext λ j. ap (option_map f) (h j) ∙ option_map-if f (k == j) x (m j)

view-with_pool :
    (p : StatePool) (st : SigmaState)
    → view (with_pool p st) ≡ update p.id (some (pool_view p)) (view st)
view-with_pool p st =
    option_map-update pool_view p.id (some p) (λ j. lookup j st.pools) _
      (λ j. lookup-insert p.id j p st.pools)

view-erase :
    (n : ℕ) (st : SigmaState)
    → view (record st { pools = erase n st.pools }) ≡ update n none (view st)
view-erase n st =
    option_map-update pool_view n none (λ j. lookup j st.pools) _ (λ j. lookup-erase n j st.pools)

view-change_volumes :
    (i : ℕ) (f : Map StateVolume → Map StateVolume) (st : SigmaState) (p : StatePool)
    → lookup i st.pools ≡ some p
    → view (change_volumes i f st)
      ≡ update i (some (pool_view (record p { volumes = f p.volumes }))) (view st)
view-change_volumes i f st p found =
    option_map-update pool_view i (some (record p { volumes = f p.volumes }))
      (λ j. lookup j st.pools) _ (λ j. lookup-change_volumes i j f st p found)

pool_view-insert :
    (n : ℕ) (v : StateVolume) (p : StatePool)
    → pool_view (record p { volumes = insert n v p.volumes })
      ≡ with_volume n (some (volume_view v)) (pool_view p)
pool_view-insert n v p =
    ap (λ f. record (pool_view p) { volumes = f })
      (option_map-update volume_view n (some v) (λ j. lookup j p.volumes) _
        (λ j. lookup-insert n j v p.volumes))

pool_view-erase :
    (n : ℕ) (p : StatePool)
    → pool_view (record p { volumes = erase n p.volumes }) ≡ with_volume n none (pool_view p)
pool_view-erase n p =
    ap (λ f. record (pool_view p) { volumes = f })
      (option_map-update volume_view n none (λ j. lookup j p.volumes) _
        (λ j. lookup-erase n j p.volumes))

-- A number that passed the test for a conflict is unused in the pool.
free-volume :
    (req : CreateVolumeRequest) (id i : ℕ) (st : SigmaState) (p : StatePool)
    → IsWellFormed st
    → lookup i st.pools ≡ some p
    → find (volume_conflicts (blank_volume req id)) (values p.volumes) ≡ none
    → lookup id p.volumes ≡ none
free-volume req id i st p wf held free = elim (Option-cases (lookup id p.volumes)) [
  | inl missing ↦ missing
  | inr (v, found) ↦
      ground (
        arith,
        ((wf.pools i p held).volumes id v found).keyed,
        find-none _ p.volumes id v free found,
      )
]

-- What the guarded parts of three calls do, as steps of the specification.
pub with_pool-Permits :
    (req : CreatePoolRequest) (id : ℕ) (st st' : SigmaState)
    → 1 ≤ id
    → id < 2 ^ 16
    → IsRequested req.pool_id id
    → lookup id st.pools ≡ none
    → st' ≡ with_pool (new_pool req id) st
    → Permits (view st) (Request.create_pool req) (view st')
unfolding lookup
with_pool-Permits req id st st' pos small asked unused changed =
    subst (Permits _ _) (sym (ap view changed ∙ view-with_pool (new_pool req id) st))
      (Permits.add_pool req id pos small asked (ap (option_map pool_view) unused))

pub erase-Permits :
    (n : ℕ) (st st' : SigmaState)
    → (st' ≡ st) ⊎ (st' ≡ record st { pools = erase (uint16 n) st.pools })
    → Permits (view st) (Request.delete_pool n) (view st')
erase-Permits n st st' (inl same) = rw same (Permits.unchanged _)
erase-Permits n st st' (inr changed) =
    subst (Permits _ _) (sym (ap view changed ∙ view-erase (uint16 n) st)) (Permits.remove_pool n)

pub shrunk-Permits :
    (req : DeleteVolumeRequest) (st st' : SigmaState)
    → IsWellFormed st
    → (st' ≡ st) ⊎ (st' ≡ shrunk req st)
    → Permits (view st) (Request.delete_volume_request req) (view st')
shrunk-Permits req st st' wf (inl same) = rw same (Permits.unchanged _)
shrunk-Permits req st st' wf (inr changed) =
    let i = uint16 req.pool_id in
    elim (Option-cases (lookup i st.pools)) [
      | inl missing ↦ rw (changed, missing, without_volume) (Permits.unchanged _)
      | inr (p, held) ↦
          let n = uint16 req.volume_id in
          let named : shrunk req st ≡ change_volumes i (erase n) st =
            rw (held, (wf.pools i p held).keyed) refl in
          subst (Permits _ _)
            (sym (
              ap view (changed ∙ named)
              ∙ view-change_volumes i (erase n) st p held
              ∙ ap (λ q. update i (some q) (view st)) (pool_view-erase n p)))
            (Permits.remove_volume req (pool_view p) (ap (option_map pool_view) held))
    ]

module _ (H : Host) (cfg : ServerConfig) where
  create_pool-Permits :
      (req : CreatePoolRequest) (s : Store H.World)
      → IsWellFormed s.state
      → Permits
          (view s.state)
          (Request.create_pool req)
          (view (Pools.create_pool H cfg req s).1.state)
  create_pool-Permits req s wf = elim (create_pool-state H cfg req s) [
    | inl same ↦ rw same (Permits.unchanged _)
    | inr (id, pos, small, asked, free, changed) ↦
        with_pool-Permits req id s.state _ pos small asked
          (free-lookup H cfg req id s.state wf free) changed
  ]

  create_volume-Permits :
      (req : CreateVolumeRequest) (s : Store H.World)
      → IsWellFormed s.state
      → Permits
          (view s.state)
          (Request.create_volume_request req)
          (view (create_volume H cfg req s).1.state)
  create_volume-Permits req s wf = elim (create_volume-state H cfg req s) [
    | inl same ↦ rw same (Permits.unchanged _)
    | inr (id, pos, small, asked, inl up) ↦ rw up (Permits.unchanged _)
    | inr (id, pos, small, asked, inr (p, held, free, more)) ↦
        let i = uint16 req.pool_id in
        let v : StateVolume = new_volume req id in
        subst (Permits _ _)
          (sym (
            ap view more
            ∙ view-change_volumes i (insert id v) (raised id s.state) p held
            ∙ ap (λ q. update i (some q) (view s.state)) (pool_view-insert id v p)))
          (Permits.add_volume req id (pool_view p) pos small asked (ap (option_map pool_view) held)
            (ap (option_map volume_view) (free-volume req id i s.state p wf held free)))
  ]

  pub serve-Permits :
      (r : Request) (s : Store H.World)
      → IsWellFormed s.state
      → Permits (view s.state) r (view (serve H cfg r s).state)
  unfolding serve
  serve-Permits Request.list_pools s wf = rw (list_pools-same H cfg s) (Permits.unchanged _)
  serve-Permits (Request.get_pool req) s wf = rw (get_pool-same H cfg req s) (Permits.unchanged _)
  serve-Permits (Request.create_pool req) s wf = create_pool-Permits req s wf
  serve-Permits (Request.delete_pool n) s wf =
      erase-Permits n s.state _ (delete_pool-state H cfg n s)
  serve-Permits (Request.list_volumes n) s wf =
      rw (list_volumes-same H cfg n s) (Permits.unchanged _)
  serve-Permits (Request.get_volume req) s wf =
      rw (get_volume-same H cfg req s) (Permits.unchanged _)
  serve-Permits (Request.create_volume_request req) s wf = create_volume-Permits req s wf
  serve-Permits (Request.delete_volume_request req) s wf =
      shrunk-Permits req s.state _ wf (delete_volume-state H cfg req s)

  -- From a well-formed state, what any sequence of calls does to the pools and volumes that a
  -- client can see is a sequence of steps that the specification permits for these calls.
  pub serve_all-PermitsAll :
      (rs : List Request) (s : Store H.World)
      → IsWellFormed s.state
      → PermitsAll (view s.state) rs (view (serve_all H cfg rs s).state)
  unfolding serve_all
  serve_all-PermitsAll [] s wf = PermitsAll.done _
  serve_all-PermitsAll (r ∷ rs) s wf =
      PermitsAll.then r rs (serve-Permits r s wf)
        (serve_all-PermitsAll rs _ (serve-IsWellFormed H cfg r s wf))
