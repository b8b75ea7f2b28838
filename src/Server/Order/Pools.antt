-- ===== src/Server/Order/Pools.antt =====
-- The pool handlers do not see the order of the state's maps.
use shortrack.Base.{
  ℕ, ◌≡◌, refl, sym, ap, ◌∙◌, ◌==◌, true, inl, inr, ◌⊎◌, Option, none, some, Option-cases, List, [],
  if◌then◌else◌, find, arith,
}
use shortrack.Base.Map.{erase, values}
use shortrack.State.{ServerConfig, StatePool, SigmaState, Target}
use shortrack.Host.{Host}
use shortrack.Lio.Targets.{list_targets, upsert_target, delete_target}
use shortrack.Pb.{CreatePoolRequest, PoolInfo, invalid_status, active, absent}
use shortrack.Server.Call.{attempt, failed_precondition, step_fails, reply_fails, ◌>>=◌}
use shortrack.Server.Invariant.{IsWellFormed}
use shortrack.Server.Persist.{save_state}
use shortrack.Server.Pools.{
  uint16, is_some, pool_response, target_or_zero, pool_target, pool_conflicts, choose_pool_id,
  make_pool, create_pool, drop_pool, delete_pool,
}
use shortrack.Server.Pools.Create.{new_pool, blank_pool, with_pool}
use shortrack.Server.Order.Steps.{AreAlike, handle-alike, bind-alike, attempt-alike}
use shortrack.Server.Order.{
  on, EndsAlike, SameState, SameState-sym, IsSorted, entries, find-order, save_state-SameState,
  insert-SameState, erase-SameState,
}

pub pools_conflict-order :
    (req : CreatePoolRequest) (id : ℕ) (s t : SigmaState)
    → IsWellFormed t
    → SameState s t
    → find (pool_conflicts req (blank_pool id)) (values s.pools) ≡ none
    → find (pool_conflicts req (blank_pool id)) (values t.pools) ≡ none
pools_conflict-order req id s t wf h =
    find-order (pool_conflicts req (blank_pool id)) s.pools t.pools wf.distinct (λ k q e.
      elim (entries s t k h) [
        | inl (missing, missing') ↦ absurd (ground arith)
        | inr (p, m, found, found', same) ↦ (p, found, ground arith)
      ])

module _ (H : Host) (cfg : ServerConfig) (sorted : IsSorted H) where
  -- `CreatePool` behind its choice of a number, from two states.
  make_pool-both :
      (req : CreatePoolRequest) (id : ℕ) (s t : SigmaState) (w : H.World)
      → find (pool_conflicts req (blank_pool id)) (values s.pools) ≡ none
      → find (pool_conflicts req (blank_pool id)) (values t.pools) ≡ none
      → save_state H cfg
          (with_pool (new_pool req id) s)
          (upsert_target H (pool_target cfg (new_pool req id)) w).1
        ≡ save_state H cfg
            (with_pool (new_pool req id) t)
            (upsert_target H (pool_target cfg (new_pool req id)) w).1
      → let s' = (make_pool H cfg req id (on s w)).1 in
        let t' = (make_pool H cfg req id (on t w)).1 in
        (step_fails (make_pool H cfg req id (on s w)).0
          ≡ step_fails (make_pool H cfg req id (on t w)).0)
        × (s'.world ≡ t'.world)
        × (((s'.state ≡ s) × (t'.state ≡ t))
            ⊎ ((s'.state ≡ with_pool (new_pool req id) s)
                × (t'.state ≡ with_pool (new_pool req id) t)))
  unfolding make_pool
  make_pool-both req id s t w free free' saved = ground arith

  -- The same where the numbers or the names conflict.
  make_pool-conflict :
      (req : CreatePoolRequest) (id : ℕ) (s : SigmaState) (w : H.World) (p : StatePool)
      → find (pool_conflicts req (blank_pool id)) (values s.pools) ≡ some p
      → (step_fails (make_pool H cfg req id (on s w)).0 ≡ true)
        × ((make_pool H cfg req id (on s w)).1 ≡ on s w)
  unfolding make_pool
  make_pool-conflict req id s w p found = ground arith

  make_pool-alike :
      (req : CreatePoolRequest) (id : ℕ) (s t : SigmaState) (w : H.World)
      → IsWellFormed s
      → IsWellFormed t
      → SameState s t
      → AreAlike (make_pool H cfg req id (on s w)) (make_pool H cfg req id (on t w))
  make_pool-alike req id s t w wf wf' h =
      let test = pool_conflicts req (blank_pool id) in
      elim (Option-cases (find test (values s.pools))) [
        | inl free ↦
            let free' = pools_conflict-order req id s t wf' h free in
            let more = insert-SameState id (new_pool req id) [] s t (λ k. refl) h in
            let (outcome, world, states) =
              make_pool-both req id s t w free free'
                (save_state-SameState H cfg _ _ _ sorted more) in
            record {
              outcome = outcome;
              world = world;
              state = elim states [ inl (e, e') ↦ rw (e, e') h | inr (e, e') ↦ rw (e, e') more ];
            }
        | inr (p, found) ↦ elim (Option-cases (find test (values t.pools))) [
          | inl free' ↦
              absurd
                (ground (arith, pools_conflict-order req id t s wf (SameState-sym s t h) free'))
          | inr (q, found') ↦
              let (bad, same) = make_pool-conflict req id s w p found in
              let (bad', same') = make_pool-conflict req id t w q found' in
              record {
                outcome = bad ∙ sym bad';
                world = ap (λ r. r.world) (same) ∙ sym (ap (λ r. r.world) same');
                state = rw (same, same') h;
              }
        ]
      ]

  choose_pool_id-on :
      (n : Option ℕ) (s t : SigmaState) (w : H.World)
      → let r = choose_pool_id H cfg n (on s w) in
        (r ≡ (r.0, on s r.1.world)) × (choose_pool_id H cfg n (on t w) ≡ (r.0, on t r.1.world))
  unfolding choose_pool_id
  choose_pool_id-on (some n) s t w = ground arith
  choose_pool_id-on none s t w = ground arith

  pub create_pool-alike :
      (req : CreatePoolRequest) (s t : SigmaState) (w : H.World)
      → IsWellFormed s
      → IsWellFormed t
      → SameState s t
      → let r = create_pool H cfg req (on s w) in
        let r' = create_pool H cfg req (on t w) in
        EndsAlike (reply_fails r.0) (reply_fails r'.0) r.1 r'.1
  unfolding create_pool
  create_pool-alike req s t w wf wf' h =
      let choose = choose_pool_id H cfg req.pool_id in
      let make = make_pool H cfg req in
      let (e, e') = choose_pool_id-on req.pool_id s t w in
      handle-alike (choose >>= make) (on s w) (on t w) (
        bind-alike choose make s t w (choose (on s w)).1.world (choose (on s w)).0 e e' h
          (λ id. make_pool-alike req id s t (choose (on s w)).1.world wf wf' h))

  drop_pool-both :
      (n : ℕ) (target : Target) (res : PoolInfo) (s t : SigmaState) (w : H.World)
      → save_state H cfg
          (record s { pools = erase (uint16 n) s.pools })
          (delete_target H target w).1
        ≡ save_state H cfg
            (record t { pools = erase (uint16 n) t.pools })
            (delete_target H target w).1
      → let r = drop_pool H cfg n target res (on s w) in
        let r' = drop_pool H cfg n target res (on t w) in
        (step_fails r.0 ≡ step_fails r'.0)
        × (r.1.world ≡ r'.1.world)
        × (((r.1.state ≡ s) × (r'.1.state ≡ t))
            ⊎ ((r.1.state ≡ record s { pools = erase (uint16 n) s.pools })
                × (r'.1.state ≡ record t { pools = erase (uint16 n) t.pools })))
  unfolding drop_pool
  drop_pool-both n target res s t w saved = ground arith

  drop_pool-alike :
      (n : ℕ) (target : Target) (res : PoolInfo) (s t : SigmaState) (w : H.World)
      → SameState s t
      → AreAlike (drop_pool H cfg n target res (on s w)) (drop_pool H cfg n target res (on t w))
  drop_pool-alike n target res s t w h =
      let less = erase-SameState (uint16 n) s t h in
      let (outcome, world, states) =
        drop_pool-both n target res s t w (save_state-SameState H cfg _ _ _ sorted less) in
      record {
        outcome = outcome;
        world = world;
        state = elim states [ inl (e, e') ↦ rw (e, e') h | inr (e, e') ↦ rw (e, e') less ];
      }

  pub delete_pool-alike :
      (n : ℕ) (s t : SigmaState) (w : H.World)
      → SameState s t
      → let r = delete_pool H cfg n (on s w) in
        let r' = delete_pool H cfg n (on t w) in
        EndsAlike (reply_fails r.0) (reply_fails r'.0) r.1 r'.1
  unfolding delete_pool
  delete_pool-alike n s t w h =
      let res : PoolInfo = record (pool_response invalid_status) { pool_id = n } in
      let found = λ (targets : List Target). find (λ t. t.id == uint16 n) targets in
      let drop = λ (targets : List Target).
        drop_pool H cfg n (target_or_zero (found targets))
          (record res { status = if is_some (found targets) then active else absent }) in
      handle-alike
        (attempt (list_targets H cfg.base_iqn) res failed_precondition
            "could not list active pools: %v"
          >>= drop)
        (on s w) (on t w)
        (attempt-alike (list_targets H cfg.base_iqn) res failed_precondition
          "could not list active pools: %v" drop s t w h
          (λ targets v. drop_pool-alike n _ _ s t v h))
