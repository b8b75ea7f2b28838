-- ===== src/Server/DeleteVolume/Effect.antt =====
-- What `DeleteVolume` does to the state.
use shortrack.Base.{
  [], sym, find, contains_func, true, ℕ, ◌≡◌, ◌⊎◌, none, arith, if◌then◌else◌, ◌==◌, ◌&&◌,
  Option-cases, Bool-cases, inl, inr, ap, refl, ◌∙◌,
}
use shortrack.Base.Map.{lookup}
use shortrack.State.{ServerConfig, SigmaState, Target, Backstore}
use shortrack.Host.{Host}
use shortrack.Pb.{DeleteVolumeRequest, VolumeInfo, active, degraded}
use shortrack.Host.Io.Cases.{Outcome-cases}
use shortrack.Lio.Targets.{list_targets}
use shortrack.Lio.Luns.{list_luns}
use shortrack.Lio.Backstores.{backstore_fileio, list_backstores}
use shortrack.Go.Text.{text_eq}
use shortrack.Server.Call.{Store, handle, Call, step_fails, reply}
use shortrack.Server.Call.Laws.{handle-cong}
use shortrack.Base.Int.{pos}
use shortrack.Server.Volumes.{volume_response}
use shortrack.Server.Pools.{uint16}
use shortrack.Server.Invariant.{IsWellFormed}
use shortrack.Server.Volumes.Held.{volume_at, volume_at-erase, volume_at_missing}
use shortrack.Server.DeleteVolume.{
  drop_volume, drop_listed, drop_targeted, delete_volume, without_volume, listed_backstore,
  find_last,
}

abbrev pub shrunk : DeleteVolumeRequest → SigmaState → SigmaState
shrunk req st = without_volume (uint16 req.volume_id) st (lookup (uint16 req.pool_id) st.pools)

handle-fails :
    {W E R : Type 0} (m : Call W E R R) (s : Store W) (res : R)
    → (handle m s).0 ≡ reply res none
    → ¬ (step_fails (m s).0 ≡ true)
handle-fails m s res h f = ground arith

module _ (H : Host) (cfg : ServerConfig) where
  pub drop_volume-state :
      (req : DeleteVolumeRequest) (t : Target) (b : Backstore) (res : VolumeInfo)
      (s : Store H.World)
      → let s' = (drop_volume H cfg req t b res s).1 in
        (s'.state ≡ s.state) ⊎ (s'.state ≡ shrunk req s.state)
  unfolding drop_volume
  drop_volume-state req t b res s = ground arith

  drop_listed-state :
      (req : DeleteVolumeRequest) (t : Target) (res : VolumeInfo) (s : Store H.World)
      → let s' = (drop_listed H cfg req t res s).1 in
        (s'.state ≡ s.state) ⊎ (s'.state ≡ shrunk req s.state)
  unfolding drop_listed
  drop_listed-state req t res s = grind (arith, drop_volume-state)

  drop_targeted-state :
      (req : DeleteVolumeRequest) (res : VolumeInfo) (t : Target) (s : Store H.World)
      → let s' = (drop_targeted H cfg req res t s).1 in
        (s'.state ≡ s.state) ⊎ (s'.state ≡ shrunk req s.state)
  unfolding drop_targeted
  drop_targeted-state req res t s = grind (arith, drop_listed-state)

  pub delete_volume-state :
      (req : DeleteVolumeRequest) (s : Store H.World)
      → let s' = (delete_volume H cfg req s).1 in
        (s'.state ≡ s.state) ⊎ (s'.state ≡ shrunk req s.state)
  unfolding delete_volume
  delete_volume-state req s = grind (arith, drop_targeted-state)

  drop_volume-shrunk :
      (req : DeleteVolumeRequest) (t : Target) (b : Backstore) (res : VolumeInfo)
      (s : Store H.World)
      → let (r, s') = drop_volume H cfg req t b res s in
        (step_fails r ≡ true) ⊎ (s'.state ≡ shrunk req s.state)
  unfolding drop_volume
  drop_volume-shrunk req t b res s = ground arith

  drop_listed-shrunk :
      (req : DeleteVolumeRequest) (t : Target) (res : VolumeInfo) (s : Store H.World)
      → let (r, s') = drop_listed H cfg req t res s in
        (step_fails r ≡ true) ⊎ (s'.state ≡ shrunk req s.state)
  unfolding drop_listed
  drop_listed-shrunk req t res s = grind (arith, drop_volume-shrunk)

  drop_targeted-shrunk :
      (req : DeleteVolumeRequest) (res : VolumeInfo) (t : Target) (s : Store H.World)
      → let (r, s') = drop_targeted H cfg req res t s in
        (step_fails r ≡ true) ⊎ (s'.state ≡ shrunk req s.state)
  unfolding drop_targeted
  drop_targeted-shrunk req res t s = grind (arith, drop_listed-shrunk)

  delete_volume-reply :
      (req : DeleteVolumeRequest) (s : Store H.World) (info : VolumeInfo)
      → (delete_volume H cfg req s).0 ≡ reply info none
      → (delete_volume H cfg req s).1.state ≡ shrunk req s.state
  unfolding delete_volume
  delete_volume-reply req s info h = grind (arith, drop_targeted-shrunk)

  volume_at-shrunk :
      (req : DeleteVolumeRequest) (st : SigmaState) (i k : ℕ)
      → IsWellFormed st
      → volume_at i k (shrunk req st)
        ≡ (if uint16 req.pool_id == i && uint16 req.volume_id == k then none else volume_at i k st)
  volume_at-shrunk req st i k wf = elim (Option-cases (lookup (uint16 req.pool_id) st.pools)) [
    | inl missing ↦ rw missing (elim (Bool-cases (uint16 req.pool_id == i)) [
      | inr other ↦ rw other refl
      | inl same ↦ ground (arith, volume_at_missing (uint16 req.pool_id) i k st missing same)
    ])
    | inr (p, found) ↦
        rw (found, (wf.pools (uint16 req.pool_id) p found).keyed)
          (volume_at-erase (uint16 req.pool_id) i k (uint16 req.volume_id) st p found)
  ]

  -- In a well-formed state, where `DeleteVolume` returns no error, the state does not hold the
  -- volume any more, and every other volume of every pool is as it was.
  pub delete_volume_success :
      (req : DeleteVolumeRequest) (s : Store H.World) (info : VolumeInfo) (i k : ℕ)
      → IsWellFormed s.state
      → (delete_volume H cfg req s).0 ≡ reply info none
      → volume_at i k (delete_volume H cfg req s).1.state ≡ (
          if uint16 req.pool_id == i && uint16 req.volume_id == k
          then none
          else volume_at i k s.state)
  delete_volume_success req s info i k wf h =
      ap (volume_at i k) (delete_volume-reply req s info h) ∙ volume_at-shrunk req s.state i k wf

  drop_listed-dropped :
      (req : DeleteVolumeRequest) (t : Target) (res : VolumeInfo) (s : Store H.World)
      → (step_fails (drop_listed H cfg req t res s).0 ≡ true)
        ⊎ ((b : Backstore) × (res' : VolumeInfo) × (s' : Store H.World) × (drop_listed H cfg req t
                res s
              ≡ drop_volume H cfg req t b res' s')
            × (s'.state ≡ s.state))
  unfolding drop_listed
  drop_listed-dropped req t res s = elim (Outcome-cases (list_backstores H s.world).0) [
    | inr (inl (e, failed)) ↦ inl (ground arith)
    | inr (inr crashed) ↦ inl (ground arith)
    | inl (bs, listed) ↦
        let b =
          listed_backstore (uint16 req.volume_id) (find (λ b. b.id == uint16 req.volume_id) bs) in
        let s' : Store H.World = record s { world = (list_backstores H s.world).1 } in
        elim (Bool-cases (text_eq b.kind [])) [
          | inl unknown ↦ inr (
            record b { kind = backstore_fileio },
            record res { status = degraded },
            s',
            ground arith,
            refl,
          )
          | inr known ↦ inr (b, res, s', ground arith, refl)
        ]
  ]

  drop_targeted-dropped :
      (req : DeleteVolumeRequest) (res : VolumeInfo) (t : Target) (s : Store H.World)
      → (step_fails (drop_targeted H cfg req res t s).0 ≡ true)
        ⊎ ((b : Backstore) × (res' : VolumeInfo) × (s' : Store H.World) × (drop_targeted H cfg req
                res t s
              ≡ drop_volume H cfg req t b res' s')
            × (s'.state ≡ s.state))
  unfolding drop_targeted
  drop_targeted-dropped req res t s = elim (Outcome-cases (list_luns H t s.world).0) [
    | inr (inl (e, failed)) ↦ inl (ground arith)
    | inr (inr crashed) ↦ inl (ground arith)
    | inl (luns, listed) ↦
        let seen : VolumeInfo = record res {
          status = if contains_func luns (λ n. n == uint16 req.volume_id) then active else degraded;
        } in
        let s' : Store H.World = record s { world = (list_luns H t s.world).1 } in
        let eq : drop_targeted H cfg req res t s ≡ drop_listed H cfg req t seen s' = ground arith in
        elim (drop_listed-dropped req t seen s') [
          | inl fails ↦ inl (ap (λ r. step_fails r.0) eq ∙ fails)
          | inr (b, res', s'', dropped, same) ↦ inr (b, res', s'', eq ∙ dropped, same)
        ]
  ]

  -- A `DeleteVolume` without error is `drop_volume` after calls that only read.
  pub delete_volume-dropped :
      (req : DeleteVolumeRequest) (s : Store H.World) (info : VolumeInfo)
      → (delete_volume H cfg req s).0 ≡ reply info none
      → (t : Target) × (b : Backstore) × (res : VolumeInfo) × (s' : Store H.World) × (delete_volume
            H cfg req s
          ≡ handle (drop_volume H cfg req t b res) s')
        × (s'.state ≡ s.state)
  unfolding delete_volume
  delete_volume-dropped req s info h =
      elim (Outcome-cases (list_targets H cfg.base_iqn s.world).0) [
        | inr (inl (e, failed)) ↦ absurd (ground arith)
        | inr (inr crashed) ↦ absurd (ground arith)
        | inl (targets, listed) ↦
            elim (Option-cases (find_last (λ t. t.id == req.pool_id) none targets)) [
              | inl missing ↦ absurd (ground arith)
              | inr (t, found) ↦
                  let res : VolumeInfo = record (volume_response req.pool_id active) {
                    volume_id = req.volume_id;
                    lun = pos req.volume_id;
                  } in
                  let s' : Store H.World = record s {
                    world = (list_targets H cfg.base_iqn s.world).1;
                  } in
                  let eq : delete_volume H cfg req s ≡ handle (drop_targeted H cfg req res t) s' =
                    ground arith in
                  elim (drop_targeted-dropped req res t s') [
                    | inl fails ↦ absurd (
                        handle-fails (drop_targeted H cfg req res t) s' info
                          (sym (ap (λ r. r.0) eq) ∙ h) fails)
                    | inr (b, res', s'', dropped, same) ↦ (
                      t,
                      b,
                      res',
                      s'',
                      eq
                          ∙ handle-cong (drop_targeted H cfg req res t)
                              (drop_volume H cfg req t b res') s' s'' dropped,
                      same,
                    )
                  ]
            ]
      ]
