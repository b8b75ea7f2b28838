-- ===== src/Server/Service/Invariance.antt =====
-- Every call keeps the state well-formed, whatever the host does.
use shortrack.Base.{ℕ, ◌≡◌, refl, ◌≤◌, ◌<◌, ◌^◌, inl, inr, List, [], ◌∷◌, Option-cases, arith}
use shortrack.Base.Map.{lookup, insert-AreDistinct, erase-AreDistinct}
use shortrack.State.{ServerConfig, SigmaState}
use shortrack.Host.{Host}
use shortrack.Pb.{
  CreatePoolRequest, CreateVolumeRequest, DeleteVolumeRequest, GetPoolRequest, GetVolumeRequest,
}
use shortrack.Server.Call.{Store}
use shortrack.Server.Invariant.{
  IsWellFormed, IsPool, AreVolumes-insert, AreVolumes-erase, insert-IsWellFormed,
  erase-IsWellFormed, raise-IsWellFormed, change_volumes-IsWellFormed,
}
use shortrack.Server.Pools
use shortrack.Server.Pools.Create.{new_pool, create_pool-state}
use shortrack.Server.Pools.Delete.{delete_pool-state}
use shortrack.Server.Volumes
use shortrack.Server.Volumes.{change_volumes}
use shortrack.Server.CreateVolume.{create_volume}
use shortrack.Server.CreateVolume.Effect.{raised, grown, new_volume, create_volume-state}
use shortrack.Server.DeleteVolume.{delete_volume, without_volume}
use shortrack.Server.DeleteVolume.Effect.{shrunk, delete_volume-state}
use shortrack.Server.Service.{Request, serve, serve_all}

pub new_pool-IsPool :
    (bound id : ℕ) (req : CreatePoolRequest)
    → 1 ≤ id
    → id < 2 ^ 16
    → IsPool bound id (new_pool req id)
unfolding lookup
new_pool-IsPool bound id req pos small = record {
  keyed = refl;
  positive = pos;
  small = small;
  distinct = tt;
  volumes = λ k v e. cc;
}

grown-IsWellFormed :
    (req : CreateVolumeRequest) (id : ℕ) (st : SigmaState)
    → 1 ≤ id
    → id < 2 ^ 16
    → IsWellFormed st
    → IsWellFormed (grown req id st)
grown-IsWellFormed req id st pos small h =
    change_volumes-IsWellFormed _ _ (raised id st) (raise-IsWellFormed id st small h)
      (insert-AreDistinct id (new_volume req id))
      λ m all. AreVolumes-insert _ id (new_volume req id) m all (record {
        keyed = refl;
        positive = pos;
        small = small;
        counted = omega arith;
        unlinked = refl;
      })

pub shrunk-IsWellFormed :
    (req : DeleteVolumeRequest) (st : SigmaState) → IsWellFormed st → IsWellFormed (shrunk req st)
shrunk-IsWellFormed req st h = elim (Option-cases (lookup (Pools.uint16 req.pool_id) st.pools)) [
  | inl missing ↦ rw (missing, without_volume) h
  | inr (p, found) ↦
      rw (found, without_volume)
        (change_volumes-IsWellFormed p.id _ st h (erase-AreDistinct _)
          (λ m all. AreVolumes-erase _ _ m all))
]

module _ (H : Host) (cfg : ServerConfig) where
  create_pool-IsWellFormed :
      (req : CreatePoolRequest) (s : Store H.World)
      → IsWellFormed s.state
      → IsWellFormed (Pools.create_pool H cfg req s).1.state
  create_pool-IsWellFormed req s h = elim (create_pool-state H cfg req s) [
    | inl same ↦ rw same h
    | inr (id, pos, small, _, _, changed) ↦
        rw changed
          (insert-IsWellFormed id (new_pool req id) s.state h (new_pool-IsPool _ id req pos small))
  ]

  delete_pool-IsWellFormed :
      (n : ℕ) (s : Store H.World)
      → IsWellFormed s.state
      → IsWellFormed (Pools.delete_pool H cfg n s).1.state
  delete_pool-IsWellFormed n s h = elim (delete_pool-state H cfg n s) [
    | inl same ↦ rw same h
    | inr changed ↦ rw changed (erase-IsWellFormed _ s.state h)
  ]

  create_volume-IsWellFormed :
      (req : CreateVolumeRequest) (s : Store H.World)
      → IsWellFormed s.state
      → IsWellFormed (create_volume H cfg req s).1.state
  create_volume-IsWellFormed req s h = elim (create_volume-state H cfg req s) [
    | inl same ↦ rw same h
    | inr (id, pos, small, _, inl up) ↦ rw up (raise-IsWellFormed id s.state small h)
    | inr (id, pos, small, _, inr (_, _, _, more)) ↦
        rw more (grown-IsWellFormed req id s.state pos small h)
  ]

  delete_volume-IsWellFormed :
      (req : DeleteVolumeRequest) (s : Store H.World)
      → IsWellFormed s.state
      → IsWellFormed (delete_volume H cfg req s).1.state
  delete_volume-IsWellFormed req s h = elim (delete_volume-state H cfg req s) [
    | inl same ↦ rw same h
    | inr changed ↦ rw changed (shrunk-IsWellFormed req s.state h)
  ]

  pub list_pools-same : (s : Store H.World) → (Pools.list_pools H cfg s).1 ≡ s
  unfolding Pools.list_pools
  list_pools-same s = refl

  pub get_pool-same :
      (req : GetPoolRequest) (s : Store H.World) → (Pools.get_pool H cfg req s).1 ≡ s
  unfolding Pools.get_pool
  get_pool-same req s = ground arith

  pub list_volumes-same : (n : ℕ) (s : Store H.World) → (Volumes.list_volumes H cfg n s).1 ≡ s
  unfolding Volumes.list_volumes
  list_volumes-same n s = ground arith

  pub get_volume-same :
      (req : GetVolumeRequest) (s : Store H.World) → (Volumes.get_volume H cfg req s).1 ≡ s
  unfolding Volumes.get_volume
  get_volume-same req s = ground arith

  pub serve-IsWellFormed :
      (r : Request) (s : Store H.World)
      → IsWellFormed s.state
      → IsWellFormed (serve H cfg r s).state
  unfolding serve
  serve-IsWellFormed Request.list_pools s h = rw (list_pools-same s) h
  serve-IsWellFormed (Request.get_pool req) s h = rw (get_pool-same req s) h
  serve-IsWellFormed (Request.create_pool req) s h = create_pool-IsWellFormed req s h
  serve-IsWellFormed (Request.delete_pool n) s h = delete_pool-IsWellFormed n s h
  serve-IsWellFormed (Request.list_volumes n) s h = rw (list_volumes-same n s) h
  serve-IsWellFormed (Request.get_volume req) s h = rw (get_volume-same req s) h
  serve-IsWellFormed (Request.create_volume_request req) s h = create_volume-IsWellFormed req s h
  serve-IsWellFormed (Request.delete_volume_request req) s h = delete_volume-IsWellFormed req s h

  -- After any sequence of requests, with any results of the host's calls, a state that was
  -- well-formed is well-formed.
  pub serve_all-IsWellFormed :
      (rs : List Request) (s : Store H.World)
      → IsWellFormed s.state
      → IsWellFormed (serve_all H cfg rs s).state
  unfolding serve_all
  serve_all-IsWellFormed [] s h = h
  serve_all-IsWellFormed (r ∷ rs) s h = serve_all-IsWellFormed rs _ (serve-IsWellFormed r s h)
