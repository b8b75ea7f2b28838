-- ===== src/Server/CreateVolume/Effect.antt =====
-- What `CreateVolume` does to the state.
use shortrack.Base.{
  ℕ, ◌≡◌, ◌≢◌, ◌⊎◌, none, some, [], arith, find, max, Option, Option-cases, ◌^◌, ◌<◌, ◌≤◌, inl, inr,
  ap, sym, ◌∙◌,
}
use shortrack.Base.Int.{to_int64}
use shortrack.Base.Map.{lookup, insert, values}
use shortrack.Go.Number.{format_uint}
use shortrack.State.{ServerConfig, StateVolume, StatePool, SigmaState}
use shortrack.Host.{Host}
use shortrack.Pb.{CreateVolumeRequest, VolumeInfo, invalid_status}
use shortrack.Server.Call.{Store, Reply, handle, reply, next, stop, ◌>>=◌}
use shortrack.Server.Call.Laws.{Step-cases, handle-next, handle-stop, handle-state}
use shortrack.Server.Pools.{or_default, uint16}
use shortrack.Server.Volumes.{change_volumes, volume_response, volume_info}
use shortrack.Server.CreateVolume.{make_volume, choose_volume_id, create_volume, volume_conflicts}
use shortrack.Server.Pools.Create.{IsRequested}
use shortrack.Server.CreateVolume.NextId.{next_volume_id_small}

abbrev pub blank_volume : CreateVolumeRequest → ℕ → StateVolume
blank_volume req id = record { id = id; name = []; pool_id = 0; size = to_int64 req.volume_size }

abbrev pub new_volume : CreateVolumeRequest → ℕ → StateVolume
new_volume req id = record (blank_volume req id) {
  name = or_default req.volume_name (format_uint id);
}

-- The state with `MaxLUNID` raised to a number that is tried.
abbrev pub raised : ℕ → SigmaState → SigmaState
raised id st = record st { max_lun_id = max st.max_lun_id id }

abbrev pub grown : CreateVolumeRequest → ℕ → SigmaState → SigmaState
grown req id st = change_volumes (uint16 req.pool_id) (insert id (new_volume req id)) (raised id st)

-- The state has grown by the new volume, in a pool that had none of its number.
abbrev pub IsGrown : CreateVolumeRequest → ℕ → SigmaState → SigmaState → Type 0
IsGrown req id st st' =
    (p : StatePool) × (lookup (uint16 req.pool_id) st.pools ≡ some p)
    × (find (volume_conflicts (blank_volume req id)) (values p.volumes) ≡ none)
    × (st' ≡ grown req id st)

module _ (H : Host) (cfg : ServerConfig) where
  make_volume-free :
      (req : CreateVolumeRequest) (id : ℕ) (s : Store H.World) (p : StatePool)
      → lookup (uint16 req.pool_id) s.state.pools ≡ some p
      → find (volume_conflicts (blank_volume req id)) (values p.volumes) ≡ none
      → let s' = (make_volume H cfg req id s).1 in
        (s'.state ≡ s.state)
        ⊎ ((id ≢ 0) × ((s'.state ≡ raised id s.state) ⊎ (s'.state ≡ grown req id s.state)))
  unfolding make_volume
  make_volume-free req id s p found free = ground arith

  make_volume-state :
      (req : CreateVolumeRequest) (id : ℕ) (s : Store H.World)
      → let s' = (make_volume H cfg req id s).1 in
        (s'.state ≡ s.state)
        ⊎ ((id ≢ 0) × ((s'.state ≡ raised id s.state) ⊎ IsGrown req id s.state s'.state))
  unfolding make_volume
  make_volume-state req id s = elim (Option-cases (lookup (uint16 req.pool_id) s.state.pools)) [
    | inl missing ↦ ground arith
    | inr (p, found) ↦
        elim (Option-cases (find (volume_conflicts (blank_volume req id)) (values p.volumes))) [
          | inr (v, taken) ↦ ground arith
          | inl free ↦ elim (make_volume-free req id s p found free) [
            | inl same ↦ inl same
            | inr (nz, inl up) ↦ inr (nz, inl up)
            | inr (nz, inr more) ↦ inr (nz, inr (p, found, free, more))
          ]
        ]
  ]

  make_volume-reply :
      (req : CreateVolumeRequest) (id : ℕ) (s : Store H.World) (info : VolumeInfo)
      → (handle (make_volume H cfg req id) s).0 ≡ reply info none
      → (id ≢ 0)
        × ((p : StatePool) × (lookup (uint16 req.pool_id) s.state.pools ≡ some p)
            × (find (volume_conflicts (blank_volume req id)) (values p.volumes) ≡ none)
            × (info ≡ volume_info cfg req.pool_id p (new_volume req id))
            × ((make_volume H cfg req id s).1.state ≡ grown req id s.state))
  unfolding make_volume
  make_volume-reply req id s info h =
      elim (Option-cases (lookup (uint16 req.pool_id) s.state.pools)) [
        | inl missing ↦ absurd (ground arith)
        | inr (p, found) ↦ (ground arith, (p, found, ground arith, ground arith, ground arith))
      ]

  choose_volume_id-state :
      (n : Option ℕ) (res : VolumeInfo) (s : Store H.World)
      → (choose_volume_id H cfg n res s).1.state ≡ s.state
  unfolding choose_volume_id
  choose_volume_id-state (some n) res s = ground arith
  choose_volume_id-state none res s = ground arith

  choose_volume_id-small :
      (n : Option ℕ) (res : VolumeInfo) (s : Store H.World) (id : ℕ)
      → (choose_volume_id H cfg n res s).0 ≡ next id
      → id < 2 ^ 16
  unfolding choose_volume_id
  choose_volume_id-small (some n) res s id h = ground arith
  choose_volume_id-small none res s id h = grind (arith, next_volume_id_small)

  choose_volume_id-IsRequested :
      (n : Option ℕ) (res : VolumeInfo) (s : Store H.World) (id : ℕ)
      → (choose_volume_id H cfg n res s).0 ≡ next id
      → IsRequested n id
  unfolding choose_volume_id
  choose_volume_id-IsRequested (some n) res s id h = ground arith
  choose_volume_id-IsRequested none res s id h = tt

  pub choose_volume_id-stop :
      (n : Option ℕ) (res : VolumeInfo) (s : Store H.World) (info : VolumeInfo)
      → (choose_volume_id H cfg n res s).0 ≢ stop (reply info none)
  unfolding choose_volume_id
  choose_volume_id-stop (some n) res s info h = ground arith
  choose_volume_id-stop none res s info h = ground arith

  -- `create_volume` behind its test of the size.
  unfoldable pub create_sized :
      CreateVolumeRequest → Store H.World → Reply H.Err VolumeInfo × Store H.World
  create_sized req = handle (
      choose_volume_id H cfg req.volume_id (volume_response req.pool_id invalid_status)
      >>= make_volume H cfg req)

  create_volume-sized :
      (req : CreateVolumeRequest) (s : Store H.World)
      → ((create_volume H cfg req s).1 ≡ s) ⊎ (create_volume H cfg req s ≡ create_sized req s)
  unfolding create_volume create_sized
  create_volume-sized req s = ground arith

  pub create_volume-reply_sized :
      (req : CreateVolumeRequest) (s : Store H.World) (info : VolumeInfo)
      → (create_volume H cfg req s).0 ≡ reply info none
      → create_volume H cfg req s ≡ create_sized req s
  unfolding create_volume create_sized
  create_volume-reply_sized req s info h = ground arith

  pub create_volume-state :
      (req : CreateVolumeRequest) (s : Store H.World)
      → let s' = (create_volume H cfg req s).1 in
        (s'.state ≡ s.state)
        ⊎ ((id : ℕ) × (1 ≤ id)
            × (id < 2 ^ 16)
            × IsRequested req.volume_id id
            × ((s'.state ≡ raised id s.state) ⊎ IsGrown req id s.state s'.state))
  unfolding create_sized
  create_volume-state req s =
      let res = volume_response req.pool_id invalid_status in
      let choose = choose_volume_id H cfg req.volume_id res in
      let make = make_volume H cfg req in
      let kept = choose_volume_id-state req.volume_id res s in
      elim (create_volume-sized req s) [
        | inl same ↦ inl (ap (λ t. t.state) same)
        | inr sized ↦ elim (Step-cases (choose s).0) [
          | inr (x, e) ↦ inl (ap (λ r. r.1.state) (sized ∙ handle-stop choose make s x e) ∙ kept)
          | inl (id, e) ↦
              let eq = sized ∙ handle-next choose make s id e in
              let path =
                ap (λ r. r.1.state) eq ∙ ap (λ t. t.state) (handle-state (make id) (choose s).1) in
              elim (make_volume-state req id (choose s).1) [
                | inl same ↦ inl (path ∙ same ∙ kept)
                | inr (nz, changed) ↦ inr (
                  id,
                  omega arith,
                  choose_volume_id-small req.volume_id res s id e,
                  choose_volume_id-IsRequested req.volume_id res s id e,
                  elim changed [
                    | inl up ↦ inl (path ∙ up ∙ ap (raised id) kept)
                    | inr (p, found, free, more) ↦ inr (
                      p,
                      sym (ap (λ st. lookup (uint16 req.pool_id) st.pools) kept) ∙ found,
                      free,
                      path ∙ more ∙ ap (grown req id) kept,
                    )
                  ],
                )
              ]
        ]
      ]

  -- Where `CreateVolume` returns no error, the pool that the request's number means (its low 16
  -- bits) existed and no volume of it had the new number; the number lies in 1 … 65535, the answer
  -- describes the new volume, and the state has changed by that volume and by `MaxLUNID`, which is
  -- raised to the number.
  pub create_volume_success :
      (req : CreateVolumeRequest) (s : Store H.World) (info : VolumeInfo)
      → (create_volume H cfg req s).0 ≡ reply info none
      → (id : ℕ) × (p : StatePool) × (1 ≤ id)
        × (id < 2 ^ 16)
        × (lookup (uint16 req.pool_id) s.state.pools ≡ some p)
        × (find (volume_conflicts (blank_volume req id)) (values p.volumes) ≡ none)
        × (info ≡ volume_info cfg req.pool_id p (new_volume req id))
        × ((create_volume H cfg req s).1.state ≡ grown req id s.state)
  unfolding create_sized
  create_volume_success req s info h =
      let res = volume_response req.pool_id invalid_status in
      let choose = choose_volume_id H cfg req.volume_id res in
      let make = make_volume H cfg req in
      let kept = choose_volume_id-state req.volume_id res s in
      let sized = create_volume-reply_sized req s info h in
      elim (Step-cases (choose s).0) [
        | inr (x, e) ↦ absurd (
            choose_volume_id-stop req.volume_id res s info
              (e ∙ ap stop (sym (ap (λ r. r.0) (sized ∙ handle-stop choose make s x e)) ∙ h)))
        | inl (id, e) ↦
            let eq = sized ∙ handle-next choose make s id e in
            let (nz, (p, found, free, same, changed)) =
              make_volume-reply req id (choose s).1 info (sym (ap (λ r. r.0) eq) ∙ h) in
            (
              id,
              p,
              omega arith,
              choose_volume_id-small req.volume_id res s id e,
              sym (ap (λ st. lookup (uint16 req.pool_id) st.pools) kept) ∙ found,
              free,
              same,
              ap (λ r. r.1.state) eq
                  ∙ ap (λ t. t.state) (handle-state (make id) (choose s).1)
                  ∙ changed
                  ∙ ap (grown req id) kept,
            )
      ]
