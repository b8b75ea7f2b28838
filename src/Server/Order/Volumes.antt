-- ===== src/Server/Order/Volumes.antt =====
-- The volume handlers do not see the order of the state's maps.
use shortrack.Base.{
  ℕ, ◌≡◌, refl, sym, ◌∙◌, Bool, inl, inr, ◌⊎◌, Option, none, some, Option-cases, [], find, arith,
  ltb,
}
use shortrack.Base.Map.{Map, AreDistinct, lookup, insert, values}
use shortrack.State.{ServerConfig, StateVolume, StatePool, SigmaState}
use shortrack.Host.{Host}
use shortrack.Pb.{VolumeInfo, CreateVolumeRequest, invalid_status, degraded}
use shortrack.Server.Call.{
  Step, next, stop, step_fails, reply_fails, answer_if, invalid_argument, ◌>>=◌,
}
use shortrack.Server.Invariant.{IsWellFormed}
use shortrack.Server.Persist.{save_state}
use shortrack.Server.Pools.{uint16}
use shortrack.Server.Volumes.{volume_response, volume_info}
use shortrack.Server.CreateVolume.{
  volume_conflicts, choose_volume_id, provide_volume, make_volume, create_volume,
}
use shortrack.Server.CreateVolume.Effect.{blank_volume, new_volume, raised, grown}
use shortrack.Server.Order.Steps.{AreAlike, handle-alike, bind-alike, answer_if-alike}
use shortrack.Server.Order.{
  on, EndsAlike, SameVolumes, SameState, IsSorted, entries, find-order, save_state-SameState,
  change_volumes-SameState, insert-SameVolumes,
}

volumes_conflict-order :
    (f : StateVolume → Bool) (m n : Map StateVolume)
    → AreDistinct n
    → SameVolumes m n
    → find f (values m) ≡ none
    → find f (values n) ≡ none
volumes_conflict-order f m n d h = find-order f m n d (λ k y e. (y, h k ∙ e, refl))

raised-SameState :
    (id : ℕ) (s t : SigmaState) → SameState s t → SameState (raised id s) (raised id t)
raised-SameState id s t h = record { bound = rw h.bound refl; pools = h.pools }

grown-SameState :
    (req : CreateVolumeRequest) (id : ℕ) (s t : SigmaState)
    → SameState s t
    → SameState (grown req id s) (grown req id t)
grown-SameState req id s t h =
    change_volumes-SameState (uint16 req.pool_id) (insert id (new_volume req id)) (raised id s)
      (raised id t) (insert-SameVolumes id (new_volume req id)) (raised-SameState id s t h)

module _ (H : Host) (cfg : ServerConfig) (sorted : IsSorted H) where
  abbrev degraded_info : CreateVolumeRequest → ℕ → StatePool → VolumeInfo
  degraded_info req id p = record (volume_info cfg req.pool_id p (new_volume req id)) {
    status = degraded;
  }

  provide_volume-on :
      (p : StatePool) (v : StateVolume) (res : VolumeInfo) (s t : SigmaState) (w : H.World)
      → let r = provide_volume H cfg p v res (on s w) in
        (r ≡ (r.0, on s r.1.world))
        × (provide_volume H cfg p v res (on t w) ≡ (r.0, on t r.1.world))
  unfolding provide_volume
  provide_volume-on p v res s t w = ground arith

  provide_volume-order :
      (p : StatePool) (m : Map StateVolume) (v : StateVolume) (res : VolumeInfo) (s : SigmaState)
      (w : H.World)
      → provide_volume H cfg (record p { volumes = m }) v res (on s w)
        ≡ provide_volume H cfg p v res (on s w)
  unfolding provide_volume
  provide_volume-order p m v res s w = refl

  choose_volume_id-on :
      (n : Option ℕ) (res : VolumeInfo) (s t : SigmaState) (w : H.World)
      → s.max_lun_id ≡ t.max_lun_id
      → let r = choose_volume_id H cfg n res (on s w) in
        (r ≡ (r.0, on s r.1.world))
        × (choose_volume_id H cfg n res (on t w) ≡ (r.0, on t r.1.world))
  unfolding choose_volume_id
  choose_volume_id-on (some n) res s t w e = ground arith
  choose_volume_id-on none res s t w e = ground arith

  -- `CreateVolume` behind its choice of a number, where the pool has no such volume, from two
  -- states in which the volume is provided alike.
  make_volume-both :
      (req : CreateVolumeRequest) (id : ℕ) (s t : SigmaState) (w v : H.World) (p : StatePool)
      (m : Map StateVolume) (r : Step H.Err VolumeInfo (Unit {0}))
      → lookup (uint16 req.pool_id) s.pools ≡ some p
      → lookup (uint16 req.pool_id) t.pools ≡ some (record p { volumes = m })
      → find (volume_conflicts (blank_volume req id)) (values p.volumes) ≡ none
      → find (volume_conflicts (blank_volume req id)) (values m) ≡ none
      → provide_volume H cfg p (new_volume req id) (degraded_info req id p) (on (raised id s) w)
        ≡ (r, on (raised id s) v)
      → provide_volume H cfg
          (record p { volumes = m })
          (new_volume req id)
          (degraded_info req id p)
          (on (raised id t) w)
        ≡ (r, on (raised id t) v)
      → save_state H cfg (grown req id s) v ≡ save_state H cfg (grown req id t) v
      → let x = make_volume H cfg req id (on s w) in
        let y = make_volume H cfg req id (on t w) in
        (step_fails x.0 ≡ step_fails y.0)
        × (x.1.world ≡ y.1.world)
        × (((x.1.state ≡ s) × (y.1.state ≡ t))
            ⊎ (((x.1.state ≡ raised id s) × (y.1.state ≡ raised id t))
                ⊎ ((x.1.state ≡ grown req id s) × (y.1.state ≡ grown req id t))))
  unfolding make_volume
  make_volume-both req id s t w v p m (next a) found found' free free' given given' saved =
      ground arith
  make_volume-both req id s t w v p m (stop a) found found' free free' given given' saved =
      ground arith

  -- The runs end early: both states are raised, or neither is.
  abbrev EndEarly : CreateVolumeRequest → ℕ → SigmaState → SigmaState → H.World → Type 0
  EndEarly req id s t w =
      let x = make_volume H cfg req id (on s w) in
      let y = make_volume H cfg req id (on t w) in
      (step_fails x.0 ≡ step_fails y.0)
      × (x.1.world ≡ y.1.world)
      × (((x.1.state ≡ s) × (y.1.state ≡ t))
          ⊎ ((x.1.state ≡ raised id s) × (y.1.state ≡ raised id t)))

  make_volume-missing :
      (req : CreateVolumeRequest) (id : ℕ) (s t : SigmaState) (w : H.World)
      → lookup (uint16 req.pool_id) s.pools ≡ none
      → lookup (uint16 req.pool_id) t.pools ≡ none
      → EndEarly req id s t w
  unfolding make_volume
  make_volume-missing req id s t w missing missing' = ground arith

  make_volume-conflict :
      (req : CreateVolumeRequest) (id : ℕ) (s t : SigmaState) (w : H.World) (p q : StatePool)
      (v u : StateVolume)
      → lookup (uint16 req.pool_id) s.pools ≡ some p
      → lookup (uint16 req.pool_id) t.pools ≡ some q
      → find (volume_conflicts (blank_volume req id)) (values p.volumes) ≡ some v
      → find (volume_conflicts (blank_volume req id)) (values q.volumes) ≡ some u
      → EndEarly req id s t w
  unfolding make_volume
  make_volume-conflict req id s t w p q v u found found' taken taken' = ground arith

  early-alike :
      (req : CreateVolumeRequest) (id : ℕ) (s t : SigmaState) (w : H.World)
      → SameState s t
      → EndEarly req id s t w
      → AreAlike (make_volume H cfg req id (on s w)) (make_volume H cfg req id (on t w))
  early-alike req id s t w h (outcome, world, states) = record {
    outcome = outcome;
    world = world;
    state = elim states [
      | inl (e, e') ↦ rw (e, e') h
      | inr (e, e') ↦ rw (e, e') (raised-SameState id s t h)
    ];
  }

  make_volume-alike :
      (req : CreateVolumeRequest) (id : ℕ) (s t : SigmaState) (w : H.World)
      → IsWellFormed s
      → IsWellFormed t
      → SameState s t
      → AreAlike (make_volume H cfg req id (on s w)) (make_volume H cfg req id (on t w))
  make_volume-alike req id s t w wf wf' h = elim (entries s t (uint16 req.pool_id) h) [
    | inl (missing, missing') ↦
        early-alike req id s t w h (make_volume-missing req id s t w missing missing')
    | inr (p, m, found, found', same) ↦
        let test = volume_conflicts (blank_volume req id) in
        let single = (wf.pools (uint16 req.pool_id) p found).distinct in
        let single' = (wf'.pools (uint16 req.pool_id) (record p { volumes = m }) found').distinct in
        elim (Option-cases (find test (values p.volumes))) [
          | inr (v, taken) ↦ elim (Option-cases (find test (values m))) [
            | inl free' ↦ absurd (
                ground
                  (arith, volumes_conflict-order test m p.volumes single (λ k. sym (same k)) free'))
            | inr (u, taken') ↦ early-alike req id s t w h (
                make_volume-conflict req id s t w p (record p { volumes = m }) v u found found'
                  taken taken')
          ]
          | inl free ↦
              let free' = volumes_conflict-order test p.volumes m single' same free in
              let info = degraded_info req id p in
              let r = provide_volume H cfg p (new_volume req id) info (on (raised id s) w) in
              let (e, e') =
                provide_volume-on p (new_volume req id) info (raised id s) (raised id t) w in
              let more = grown-SameState req id s t h in
              let (outcome, world, states) =
                make_volume-both req id s t w r.1.world p m r.0 found found' free free' e
                  (provide_volume-order p m (new_volume req id) info (raised id t) w ∙ e')
                  (save_state-SameState H cfg (grown req id s) (grown req id t) r.1.world sorted
                    more) in
              record {
                outcome = outcome;
                world = world;
                state = elim states [
                  | inl (e, e') ↦ rw (e, e') h
                  | inr (inl (e, e')) ↦ rw (e, e') (raised-SameState id s t h)
                  | inr (inr (e, e')) ↦ rw (e, e') more
                ];
              }
        ]
  ]

  pub create_volume-alike :
      (req : CreateVolumeRequest) (s t : SigmaState) (w : H.World)
      → IsWellFormed s
      → IsWellFormed t
      → SameState s t
      → let r = create_volume H cfg req (on s w) in
        let r' = create_volume H cfg req (on t w) in
        EndsAlike (reply_fails r.0) (reply_fails r'.0) r.1 r'.1
  unfolding create_volume
  create_volume-alike req s t w wf wf' h =
      let res = volume_response req.pool_id invalid_status in
      let choose = choose_volume_id H cfg req.volume_id res in
      let make = make_volume H cfg req in
      let sized = λ (_ : Unit {0}). choose >>= make in
      let (e, e') = choose_volume_id-on req.volume_id res s t w h.bound in
      let v = (choose (on s w)).1.world in
      handle-alike
        (answer_if (ltb req.volume_size 1) res invalid_argument
            "volume needs to be more than 0 bytes in size" []
          >>= sized)
        (on s w) (on t w)
        (answer_if-alike (ltb req.volume_size 1) res invalid_argument
          "volume needs to be more than 0 bytes in size" [] sized s t w h
          (bind-alike choose make s t w v (choose (on s w)).0 e e' h
            (λ id. make_volume-alike req id s t v wf wf' h)))
