-- ===== src/Server/Pools/Create.antt =====
-- `CreatePool`: what it does to the state, and when.
use shortrack.Base.{
  if◌then◌else◌, ℕ, ◌≡◌, ◌≢◌, ◌≤◌, ◌<◌, ◌^◌, ◌⊎◌, inl, inr, Option, none, some, [], refl, arith, ap,
  sym, ◌∙◌, find, ◌==◌, Bool-cases, Option-cases,
}
use shortrack.Base.Map.{insert, values, lookup, lookup-insert, find-none}
use shortrack.Server.Invariant.{IsWellFormed}
use shortrack.Go.Number.{format_uint}
use shortrack.State.{ServerConfig, StatePool, SigmaState, Target}
use shortrack.Host.{Host}
use shortrack.Pb.{PoolInfo, CreatePoolRequest}
use shortrack.Server.Call.{Store, handle, next, stop, reply}
use shortrack.Server.Pools.{
  make_pool, choose_pool_id, create_pool, pool_conflicts, or_default, free_pool_id, pool_info,
  uint16,
}
use shortrack.Server.Pools.FreeId.{free_pool_id_unused}
use mathlib.Core.List.{List}
use shortrack.Server.Call.Laws.{Step-cases, handle-next, handle-stop, handle-state}

abbrev pub blank_pool : ℕ → StatePool
blank_pool id = record { id = id; name = []; volumes = [] }

abbrev pub new_pool : CreatePoolRequest → ℕ → StatePool
new_pool req id = record { id = id; name = or_default req.pool_name (format_uint id); volumes = [] }

abbrev pub with_pool : StatePool → SigmaState → SigmaState
with_pool p st = record st { pools = insert p.id p st.pools }

free_pool_id_small : (targets : List Target) → free_pool_id targets < 2 ^ 16
free_pool_id_small targets = elim (Bool-cases (free_pool_id targets == 0)) [
  | inl z ↦ ground arith
  | inr n ↦ ground (arith, free_pool_id_unused targets)
]

-- A number that the request gives is taken as `uint16`.
abbrev pub IsRequested : Option ℕ → ℕ → Type 0
IsRequested none id = Unit
IsRequested (some n) id = id ≡ uint16 n

module _ (H : Host) (cfg : ServerConfig) where
  pub make_pool-state :
      (req : CreatePoolRequest) (id : ℕ) (s : Store H.World)
      → let s' = (make_pool H cfg req id s).1 in
        (s'.state ≡ s.state)
        ⊎ ((id ≢ 0)
            × (find (pool_conflicts req (blank_pool id)) (values s.state.pools) ≡ none)
            × (s'.state ≡ with_pool (new_pool req id) s.state))
  unfolding make_pool
  make_pool-state req id s = ground arith

  make_pool-reply :
      (req : CreatePoolRequest) (id : ℕ) (s : Store H.World) (info : PoolInfo)
      → (handle (make_pool H cfg req id) s).0 ≡ reply info none
      → (id ≢ 0)
        × (info ≡ pool_info cfg (new_pool req id))
        × (find (pool_conflicts req (blank_pool id)) (values s.state.pools) ≡ none)
        × ((make_pool H cfg req id s).1.state ≡ with_pool (new_pool req id) s.state)
  unfolding make_pool
  make_pool-reply req id s info h = ground arith

  pub choose_pool_id-stop :
      (n : Option ℕ) (s : Store H.World) (info : PoolInfo)
      → (choose_pool_id H cfg n s).0 ≢ stop (reply info none)
  unfolding choose_pool_id
  choose_pool_id-stop (some n) s info h = ground arith
  choose_pool_id-stop none s info h = ground arith

  pub choose_pool_id-state :
      (n : Option ℕ) (s : Store H.World) → (choose_pool_id H cfg n s).1.state ≡ s.state
  unfolding choose_pool_id
  choose_pool_id-state (some n) s = ground arith
  choose_pool_id-state none s = ground arith

  pub choose_pool_id-small :
      (n : Option ℕ) (s : Store H.World) (id : ℕ)
      → (choose_pool_id H cfg n s).0 ≡ next id
      → id < 2 ^ 16
  unfolding choose_pool_id
  choose_pool_id-small (some n) s id h = ground arith
  choose_pool_id-small none s id h = grind (arith, free_pool_id_small)

  pub choose_pool_id-IsRequested :
      (n : Option ℕ) (s : Store H.World) (id : ℕ)
      → (choose_pool_id H cfg n s).0 ≡ next id
      → IsRequested n id
  unfolding choose_pool_id
  choose_pool_id-IsRequested (some n) s id h = ground arith
  choose_pool_id-IsRequested none s id h = tt

  pub create_pool-state :
      (req : CreatePoolRequest) (s : Store H.World)
      → let s' = (create_pool H cfg req s).1 in
        (s'.state ≡ s.state)
        ⊎ ((id : ℕ) × (1 ≤ id)
            × (id < 2 ^ 16)
            × IsRequested req.pool_id id
            × (find (pool_conflicts req (blank_pool id)) (values s.state.pools) ≡ none)
            × (s'.state ≡ with_pool (new_pool req id) s.state))
  unfolding create_pool
  create_pool-state req s =
      let choose = choose_pool_id H cfg req.pool_id in
      let kept = choose_pool_id-state req.pool_id s in
      elim (Step-cases (choose s).0) [
        | inr (x, e) ↦ inl (rw (handle-stop choose (make_pool H cfg req) s x e) kept)
        | inl (id, e) ↦ elim (make_pool-state req id (choose s).1) [
          | inl same ↦ inl (
              rw
                (
                  handle-next choose (make_pool H cfg req) s id e,
                  handle-state (make_pool H cfg req id) (choose s).1,
                )
                (same ∙ kept))
          | inr (nz, free, changed) ↦ inr (
            id,
            omega arith,
            choose_pool_id-small req.pool_id s id e,
            choose_pool_id-IsRequested req.pool_id s id e,
            rw kept at free,
            rw
                (
                  handle-next choose (make_pool H cfg req) s id e,
                  handle-state (make_pool H cfg req id) (choose s).1,
                )
                (changed ∙ ap (with_pool (new_pool req id)) kept),
          )
        ]
      ]

  -- A number that passed the test for a conflict is unused.
  pub free-lookup :
      (req : CreatePoolRequest) (id : ℕ) (st : SigmaState)
      → IsWellFormed st
      → find (pool_conflicts req (blank_pool id)) (values st.pools) ≡ none
      → lookup id st.pools ≡ none
  free-lookup req id st wf free = elim (Option-cases (lookup id st.pools)) [
    | inl missing ↦ missing
    | inr (q, found) ↦
        ground (arith, (wf.pools id q found).keyed, find-none _ st.pools id q free found)
  ]

  -- A successful run: the choice of a number, and what `make_pool` did with it.
  pub create_pool-made :
      (req : CreatePoolRequest) (s : Store H.World) (info : PoolInfo)
      → (create_pool H cfg req s).0 ≡ reply info none
      → (id : ℕ) × (1 ≤ id)
        × (id < 2 ^ 16)
        × (info ≡ pool_info cfg (new_pool req id))
        × (find (pool_conflicts req (blank_pool id)) (values s.state.pools) ≡ none)
        × ((create_pool H cfg req s).1.state ≡ with_pool (new_pool req id) s.state)
  unfolding create_pool
  create_pool-made req s info h =
      let choose = choose_pool_id H cfg req.pool_id in
      let make = make_pool H cfg req in
      let kept = choose_pool_id-state req.pool_id s in
      elim (Step-cases (choose s).0) [
        | inr (x, e) ↦ absurd (
            choose_pool_id-stop req.pool_id s info
              (e ∙ ap stop (sym (ap (λ r. r.0) (handle-stop choose make s x e)) ∙ h)))
        | inl (id, e) ↦
            let eq = handle-next choose make s id e in
            let (nz, same, free, changed) =
              make_pool-reply req id (choose s).1 info (sym (ap (λ r. r.0) eq) ∙ h) in
            (
              id,
              omega arith,
              choose_pool_id-small req.pool_id s id e,
              same,
              rw kept at free,
              rw (eq, handle-state (make id) (choose s).1)
                  (changed ∙ ap (with_pool (new_pool req id)) kept),
            )
      ]

  -- `CreatePool` returns no error only where it has stored the pool that it answers, under a
  -- number from 1 to 65535 and with no volumes, and has changed nothing else of the state.
  pub create_pool_success :
      (req : CreatePoolRequest) (s : Store H.World) (info : PoolInfo)
      → (create_pool H cfg req s).0 ≡ reply info none
      → let p : StatePool = record { id = info.pool_id; name = info.pool_name; volumes = [] } in
        (1 ≤ info.pool_id)
        × (info.pool_id < 2 ^ 16)
        × (info ≡ pool_info cfg p)
        × ((create_pool H cfg req s).1.state ≡ with_pool p s.state)
  create_pool_success req s info h =
      let (id, pos, small, same, _, changed) = create_pool-made req s info h in
      rw same (pos, small, refl, changed)

  -- In a well-formed state, a `CreatePool` that returns no error has found the number that it
  -- answers unused, adds the pool there, and leaves every other number's entry as it was.
  pub create_pool_fresh :
      (req : CreatePoolRequest) (s : Store H.World) (info : PoolInfo)
      → IsWellFormed s.state
      → (create_pool H cfg req s).0 ≡ reply info none
      → (lookup info.pool_id s.state.pools ≡ none)
        × ((k : ℕ)
            → lookup k (create_pool H cfg req s).1.state.pools ≡ (
                if info.pool_id == k
                then some (record { id = info.pool_id; name = info.pool_name; volumes = [] })
                else lookup k s.state.pools))
  create_pool_fresh req s info wf h =
      let (id, pos, small, same, free, changed) = create_pool-made req s info h in
      rw same (
        free-lookup req id s.state wf free,
        λ k. rw changed (lookup-insert id k (new_pool req id) s.state.pools),
      )
