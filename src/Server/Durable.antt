-- ===== src/Server/Durable.antt =====
-- A call that answers without error has saved the state that it leaves.
use shortrack.Base.{◌≡◌, inl, inr, sym, ap, ◌∙◌, ℕ, none, arith, find, ◌==◌, Option-cases}
use shortrack.Base.Map.{lookup}
use shortrack.State.{ServerConfig, Target, StateVolume, Backstore}
use shortrack.Host.{Host}
use shortrack.Host.Io.{ok}
use shortrack.Lio.Targets.{list_targets, upsert_target, delete_target}
use shortrack.Pb.{
  PoolInfo, CreatePoolRequest, VolumeInfo, CreateVolumeRequest, DeleteVolumeRequest, degraded,
  invalid_status,
}
use shortrack.Host.Io.Cases.{Outcome-cases}
use shortrack.Server.Call.{Store, handle, stop, reply}
use shortrack.Server.Call.Laws.{Step-cases, handle-next, handle-stop, handle-state}
use shortrack.Server.Persist.{save_state}
use shortrack.Server.Pools.{
  make_pool, create_pool, choose_pool_id, delete_pool, pool_target, target_or_zero, uint16,
}
use shortrack.Server.Pools.Create.{new_pool, choose_pool_id-stop}
use shortrack.Server.Volumes.{volume_info, volume_response}
use shortrack.Server.CreateVolume.{make_volume, create_volume, choose_volume_id, provide_volume}
use shortrack.Server.CreateVolume.Effect.{
  new_volume, raised, create_sized, create_volume-reply_sized, choose_volume_id-stop,
}
use shortrack.Server.DeleteVolume.{
  drop_volume, delete_volume, remove_volume, chosen_backstore, located,
}
use shortrack.Server.DeleteVolume.Effect.{delete_volume-dropped}

-- The store is what a `SaveState` without error has left.
abbrev pub IsSaved : (H : Host) → ServerConfig → Store H.World → Type 0
IsSaved H cfg s =
    (w : H.World) × ((save_state H cfg s.state w).0 ≡ ok tt)
    × ((save_state H cfg s.state w).1 ≡ s.world)

module _ (H : Host) (cfg : ServerConfig) where
  make_pool-IsSaved :
      (req : CreatePoolRequest) (id : ℕ) (s : Store H.World) (info : PoolInfo)
      → (handle (make_pool H cfg req id) s).0 ≡ reply info none
      → IsSaved H cfg (make_pool H cfg req id s).1
  unfolding make_pool
  make_pool-IsSaved req id s info h =
      ((upsert_target H (pool_target cfg (new_pool req id)) s.world).1, ground arith, ground arith)

  pub create_pool-IsSaved :
      (req : CreatePoolRequest) (s : Store H.World) (info : PoolInfo)
      → (create_pool H cfg req s).0 ≡ reply info none
      → IsSaved H cfg (create_pool H cfg req s).1
  unfolding create_pool
  create_pool-IsSaved req s info h =
      let choose = choose_pool_id H cfg req.pool_id in
      let make = make_pool H cfg req in
      elim (Step-cases (choose s).0) [
        | inr (x, e) ↦ absurd (
            choose_pool_id-stop H cfg req.pool_id s info
              (e ∙ ap stop (sym (ap (λ r. r.0) (handle-stop choose make s x e)) ∙ h)))
        | inl (id, e) ↦
            let eq = handle-next choose make s id e in
            rw (eq, handle-state (make id) (choose s).1)
              (make_pool-IsSaved req id (choose s).1 info (sym (ap (λ r. r.0) eq) ∙ h))
      ]

  pub delete_pool-IsSaved :
      (n : ℕ) (s : Store H.World) (info : PoolInfo)
      → (delete_pool H cfg n s).0 ≡ reply info none
      → IsSaved H cfg (delete_pool H cfg n s).1
  unfolding delete_pool
  delete_pool-IsSaved n s info h = elim (Outcome-cases (list_targets H cfg.base_iqn s.world).0) [
    | inr (inl (e, failed)) ↦ absurd (ground arith)
    | inr (inr crashed) ↦ absurd (ground arith)
    | inl (targets, listed) ↦ (
      (delete_target H (target_or_zero (find (λ t. t.id == uint16 n) targets))
          (list_targets H cfg.base_iqn s.world).1).1,
      ground arith,
      ground arith,
    )
  ]

  make_volume-IsSaved :
      (req : CreateVolumeRequest) (id : ℕ) (s : Store H.World) (info : VolumeInfo)
      → (handle (make_volume H cfg req id) s).0 ≡ reply info none
      → IsSaved H cfg (make_volume H cfg req id s).1
  unfolding make_volume
  make_volume-IsSaved req id s info h =
      elim (Option-cases (lookup (uint16 req.pool_id) s.state.pools)) [
        | inl missing ↦ absurd (ground arith)
        | inr (p, found) ↦
            let v : StateVolume = new_volume req id in
            let res : VolumeInfo = record (volume_info cfg req.pool_id p v) { status = degraded } in
            (
              (provide_volume H cfg p v res (record s { state = raised id s.state })).1.world,
              ground arith,
              ground arith,
            )
      ]

  pub create_volume-IsSaved :
      (req : CreateVolumeRequest) (s : Store H.World) (info : VolumeInfo)
      → (create_volume H cfg req s).0 ≡ reply info none
      → IsSaved H cfg (create_volume H cfg req s).1
  unfolding create_sized
  create_volume-IsSaved req s info h =
      let res = volume_response req.pool_id invalid_status in
      let choose = choose_volume_id H cfg req.volume_id res in
      let make = make_volume H cfg req in
      let sized = create_volume-reply_sized H cfg req s info h in
      elim (Step-cases (choose s).0) [
        | inr (x, e) ↦ absurd (
            choose_volume_id-stop H cfg req.volume_id res s info
              (e ∙ ap stop (sym (ap (λ r. r.0) (sized ∙ handle-stop choose make s x e)) ∙ h)))
        | inl (id, e) ↦
            let eq = sized ∙ handle-next choose make s id e in
            rw (eq, handle-state (make id) (choose s).1)
              (make_volume-IsSaved req id (choose s).1 info (sym (ap (λ r. r.0) eq) ∙ h))
      ]

  drop_volume-IsSaved :
      (req : DeleteVolumeRequest) (t : Target) (b : Backstore) (res info : VolumeInfo)
      (s : Store H.World)
      → (handle (drop_volume H cfg req t b res) s).0 ≡ reply info none
      → IsSaved H cfg (drop_volume H cfg req t b res s).1
  unfolding drop_volume
  drop_volume-IsSaved req t b res info s h =
      let id = uint16 req.volume_id in
      let pool = lookup (uint16 req.pool_id) s.state.pools in
      (
        (remove_volume H cfg t id (chosen_backstore cfg b id pool) (located cfg res pool)
            s).1.world,
        ground arith,
        ground arith,
      )

  pub delete_volume-IsSaved :
      (req : DeleteVolumeRequest) (s : Store H.World) (info : VolumeInfo)
      → (delete_volume H cfg req s).0 ≡ reply info none
      → IsSaved H cfg (delete_volume H cfg req s).1
  delete_volume-IsSaved req s info h =
      let (t, b, res, s', eq, _) = delete_volume-dropped H cfg req s info h in
      rw (eq, handle-state (drop_volume H cfg req t b res) s')
        (drop_volume-IsSaved req t b res info s' (sym (ap (λ r. r.0) eq) ∙ h))
