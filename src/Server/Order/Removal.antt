-- ===== src/Server/Order/Removal.antt =====
-- `DeleteVolume` does not see the order of the state's maps.
use shortrack.Base.{
  ℕ, ◌≡◌, refl, sym, ap, ◌∙◌, ◌==◌, inl, inr, ◌⊎◌, Option, none, some, List, [], ◌∷◌, find,
  contains_func, if◌then◌else◌, arith,
}
use shortrack.Base.Int.{pos}
use shortrack.Base.Map.{Map, lookup, erase}
use shortrack.Go.Text.{text_eq}
use shortrack.State.{ServerConfig, StateVolume, StatePool, SigmaState, Target, Backstore}
use shortrack.Host.{Host}
use shortrack.Lio.Backstores.{backstore_fileio, list_backstores}
use shortrack.Lio.Luns.{list_luns}
use shortrack.Lio.Targets.{list_targets}
use shortrack.Pb.{VolumeInfo, DeleteVolumeRequest, active, degraded}
use shortrack.Server.Call.{
  Step, next, stop, num, step_fails, reply_fails, attempt, or_answer, branch, invalid_argument,
  failed_precondition, ◌>>=◌,
}
use shortrack.Server.Persist.{save_state}
use shortrack.Server.Pools.{uint16}
use shortrack.Server.Volumes.{volume_response}
use shortrack.Server.DeleteVolume.{
  find_last, listed_backstore, chosen_backstore, known_backstore, located, without_volume,
  remove_volume, drop_volume, drop_listed, drop_targeted, delete_volume,
}
use shortrack.Server.Order.Steps.{
  AreAlike, handle-alike, attempt-alike, or_answer-alike, branch-alike,
}
use shortrack.Server.Order.{
  on, EndsAlike, SameState, IsSorted, entries, save_state-SameState, change_volumes-SameState,
  erase-SameVolumes,
}

chosen_backstore-order :
    (cfg : ServerConfig) (b : Backstore) (p : StatePool) (m : Map StateVolume)
    (o : Option StateVolume)
    → known_backstore cfg b (record p { volumes = m }) o ≡ known_backstore cfg b p o
chosen_backstore-order cfg b p m none = refl
chosen_backstore-order cfg b p m (some v) = refl

module _ (H : Host) (cfg : ServerConfig) (sorted : IsSorted H) where
  remove_volume-on :
      (g : Target) (id : ℕ) (b : Backstore) (res : VolumeInfo) (s t : SigmaState) (w : H.World)
      → let r = remove_volume H cfg g id b res (on s w) in
        (r ≡ (r.0, on s r.1.world))
        × (remove_volume H cfg g id b res (on t w) ≡ (r.0, on t r.1.world))
  unfolding remove_volume
  remove_volume-on g id b res s t w = ground arith

  -- From two states in which the removals are alike.
  drop_volume-both :
      (req : DeleteVolumeRequest) (g : Target) (b : Backstore) (res : VolumeInfo) (s t : SigmaState)
      (w v : H.World) (x y : Option StatePool) (r : Step H.Err VolumeInfo (Unit {0}))
      → lookup (uint16 req.pool_id) s.pools ≡ x
      → lookup (uint16 req.pool_id) t.pools ≡ y
      → let id = uint16 req.volume_id in
        remove_volume H cfg g id (chosen_backstore cfg b id x) (located cfg res x) (on s w)
          ≡ (r, on s v)
        → remove_volume H cfg g id (chosen_backstore cfg b id y) (located cfg res y) (on t w)
          ≡ (r, on t v)
        → save_state H cfg (without_volume id s x) v ≡ save_state H cfg (without_volume id t y) v
        → let a = drop_volume H cfg req g b res (on s w) in
          let c = drop_volume H cfg req g b res (on t w) in
          (step_fails a.0 ≡ step_fails c.0)
          × (a.1.world ≡ c.1.world)
          × (((a.1.state ≡ s) × (c.1.state ≡ t))
              ⊎ ((a.1.state ≡ without_volume id s x) × (c.1.state ≡ without_volume id t y)))
  unfolding drop_volume
  drop_volume-both req g b res s t w v x y (next z) at at' given given' saved = ground arith
  drop_volume-both req g b res s t w v x y (stop z) at at' given given' saved = ground arith

  -- The end of `DeleteVolume`, given the pool in both states.
  drop_found-alike :
      (req : DeleteVolumeRequest) (g : Target) (b : Backstore) (res : VolumeInfo) (s t : SigmaState)
      (w : H.World) (x y : Option StatePool)
      → lookup (uint16 req.pool_id) s.pools ≡ x
      → lookup (uint16 req.pool_id) t.pools ≡ y
      → chosen_backstore cfg b (uint16 req.volume_id) y
        ≡ chosen_backstore cfg b (uint16 req.volume_id) x
      → located cfg res y ≡ located cfg res x
      → SameState s t
      → SameState
          (without_volume (uint16 req.volume_id) s x)
          (without_volume (uint16 req.volume_id) t y)
      → AreAlike (drop_volume H cfg req g b res (on s w)) (drop_volume H cfg req g b res (on t w))
  drop_found-alike req g b res s t w x y at at' chosen info h less =
      let id = uint16 req.volume_id in
      let chosen_x = chosen_backstore cfg b id x in
      let r = remove_volume H cfg g id chosen_x (located cfg res x) (on s w) in
      let (e, e') = remove_volume-on g id chosen_x (located cfg res x) s t w in
      let same_y : remove_volume H cfg g id (chosen_backstore cfg b id y) (located cfg res y)
            (on t w)
          ≡ remove_volume H cfg g id chosen_x (located cfg res x) (on t w) =
        ap (λ c. remove_volume H cfg g id c (located cfg res y) (on t w)) chosen
        ∙ ap (λ i. remove_volume H cfg g id chosen_x i (on t w)) info in
      let (outcome, world, states) =
        drop_volume-both req g b res s t w r.1.world x y r.0 at at' e (same_y ∙ e')
          (save_state-SameState H cfg _ _ r.1.world sorted less) in
      record {
        outcome = outcome;
        world = world;
        state = elim states [ inl (f, f') ↦ rw (f, f') h | inr (f, f') ↦ rw (f, f') less ];
      }

  drop_volume-alike :
      (req : DeleteVolumeRequest) (g : Target) (b : Backstore) (res : VolumeInfo) (s t : SigmaState)
      (w : H.World)
      → SameState s t
      → AreAlike (drop_volume H cfg req g b res (on s w)) (drop_volume H cfg req g b res (on t w))
  drop_volume-alike req g b res s t w h = elim (entries s t (uint16 req.pool_id) h) [
    | inl (missing, missing') ↦
        drop_found-alike req g b res s t w none none missing missing' refl refl h h
    | inr (p, m, found, found', same) ↦
        let id = uint16 req.volume_id in
        drop_found-alike req g b res s t w (some p) (some (record p { volumes = m })) found found'
          (chosen_backstore-order cfg b p m (lookup id m)
            ∙ ap (known_backstore cfg b p) (sym (same id)))
          refl h (change_volumes-SameState p.id (erase id) s t (erase-SameVolumes id) h)
  ]

  drop_listed-alike :
      (req : DeleteVolumeRequest) (g : Target) (res : VolumeInfo) (s t : SigmaState) (w : H.World)
      → SameState s t
      → AreAlike (drop_listed H cfg req g res (on s w)) (drop_listed H cfg req g res (on t w))
  unfolding drop_listed
  drop_listed-alike req g res s t w h =
      let listed = λ (bs : List Backstore).
        listed_backstore (uint16 req.volume_id) (find (λ b. b.id == uint16 req.volume_id) bs) in
      let plain = λ (bs : List Backstore). drop_volume H cfg req g (listed bs) res in
      let guessed = λ (bs : List Backstore).
        drop_volume H cfg req g (record (listed bs) { kind = backstore_fileio })
          (record res { status = degraded }) in
      attempt-alike (list_backstores H) res failed_precondition "could not list backstores: %v"
        (λ bs. branch (text_eq (listed bs).kind []) (guessed bs) (plain bs)) s t w h
        (λ bs v.
          branch-alike (text_eq (listed bs).kind []) (guessed bs) (plain bs) s t v
            (drop_volume-alike req g _ _ s t v h) (drop_volume-alike req g _ _ s t v h))

  drop_targeted-alike :
      (req : DeleteVolumeRequest) (res : VolumeInfo) (g : Target) (s t : SigmaState) (w : H.World)
      → SameState s t
      → AreAlike (drop_targeted H cfg req res g (on s w)) (drop_targeted H cfg req res g (on t w))
  unfolding drop_targeted
  drop_targeted-alike req res g s t w h =
      attempt-alike (list_luns H g) res failed_precondition "could not list active LUNs: %v"
        (λ luns. drop_listed H cfg req g (record res {
          status = if contains_func luns (λ n. n == uint16 req.volume_id) then active else degraded;
        }))
        s t w h (λ luns v. drop_listed-alike req g _ s t v h)

  pub delete_volume-alike :
      (req : DeleteVolumeRequest) (s t : SigmaState) (w : H.World)
      → SameState s t
      → let r = delete_volume H cfg req (on s w) in
        let r' = delete_volume H cfg req (on t w) in
        EndsAlike (reply_fails r.0) (reply_fails r'.0) r.1 r'.1
  unfolding delete_volume
  delete_volume-alike req s t w h =
      let res : VolumeInfo = record (volume_response req.pool_id active) {
        volume_id = req.volume_id;
        lun = pos req.volume_id;
      } in
      let found = λ (targets : List Target). find_last (λ g. g.id == req.pool_id) none targets in
      let rest = λ (targets : List Target).
        or_answer (found targets) res invalid_argument "pool id %d does not exist"
          (num req.pool_id ∷ [])
        >>= drop_targeted H cfg req res in
      handle-alike
        (attempt (list_targets H cfg.base_iqn) res failed_precondition "could not list targets: %v"
          >>= rest)
        (on s w) (on t w)
        (attempt-alike (list_targets H cfg.base_iqn) res failed_precondition
          "could not list targets: %v" rest s t w h
          (λ targets v.
            or_answer-alike (found targets) res invalid_argument "pool id %d does not exist"
              (num req.pool_id ∷ []) (drop_targeted H cfg req res) s t v h
              (λ g. drop_targeted-alike req res g s t v h)))
