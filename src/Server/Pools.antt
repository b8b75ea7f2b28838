-- ===== src/Server/Pools.antt =====
-- The pool handlers: `ListPools`, `GetPool`, `CreatePool` and `DeletePool`.
pub mod Delete
pub mod Query
pub mod Listing
pub mod Progress
pub mod FreeId
pub mod Create
use shortrack.Base.{
  not, ℕ, zero, suc, ◌+◌, ◌%◌, ◌^◌, Bool, true, false, ◌&&◌, ◌||◌, Option, none, some, List, [],
  ◌∷◌, ◌++◌, map, ◌==◌, if◌then◌else◌, find, contains_func,
}
use shortrack.Base.Map.{Map, lookup, insert, erase, values}
use shortrack.Go.Text.{Text, bytes, text_eq}
use shortrack.Go.Number.{format_uint}
use shortrack.State.{ServerConfig, StatePool, Target}
use shortrack.Host.{Host}
use shortrack.Lio.Targets.{list_targets, delete_target, upsert_target}
use shortrack.Pb.{
  PoolInfo, GetPoolRequest, CreatePoolRequest, ResourceStatus, invalid_status, absent, active,
  degraded,
}
use shortrack.Server.Call.{
  Call, Store, Reply, num, str, quoted, invalid_argument, not_found, already_exists,
  failed_precondition, aborted, internal, resource_exhausted, pure, answer, attempt, branch,
  answer_if, or_answer, get_state, set_state, handle, ◌>>=◌, ◌>>◌,
}
use shortrack.Server.Persist.{save_state}

-- The conversion `uint16(n)`.
abbrev pub uint16 : ℕ → ℕ
uint16 n = n % 2 ^ 16

-- `fmt.Sprintf("%s:%s", s.Config.BaseIQN, name)`
abbrev pub pool_iqn : ServerConfig → Text → Text
pool_iqn cfg name = cfg.base_iqn ++ bytes ":" ++ name

-- The `Target` of a pool.
abbrev pub pool_target : ServerConfig → StatePool → Target
pool_target cfg p = record { id = p.id; name = p.name; iqn = pool_iqn cfg p.name }

-- The zero `PoolInfo` but for its status.
abbrev pub pool_response : ResourceStatus → PoolInfo
pool_response status = record { pool_id = 0; status = status; pool_name = []; iqn = [] }

abbrev pub pool_info : ServerConfig → StatePool → PoolInfo
pool_info cfg p = record {
  pool_id = p.id;
  status = active;
  pool_name = p.name;
  iqn = pool_iqn cfg p.name;
}

abbrev pub or_default {ℓ} : {A : Type ℓ} → Option A → A → A
or_default none d = d
or_default (some a) d = a

abbrev pub is_some {ℓ} : {A : Type ℓ} → Option A → Bool
is_some none = false
is_some (some a) = true

-- `slices.ContainsFunc(targets, func(target Target) bool { return target.ID == i })`
unfoldable pub in_use : List Target → ℕ → Bool
in_use targets i = contains_func targets (λ t. t.id == i)

-- The search of `CreatePool` for an identifier, `i` being the next one: `rounds` are left. The
-- result 0 means that there is none.
unfoldable pub first_free : List Target → ℕ → ℕ → ℕ
first_free targets zero i = 0
first_free targets (suc rounds) i = elim (i == 0 || in_use targets i) [
  | true ↦ first_free targets rounds (i + 1)
  | false ↦ i
]

-- `for i := range uint16(65535)`
unfoldable pub free_pool_id : List Target → ℕ
free_pool_id targets = first_free targets 65535 0

-- The test of `CreatePool` for a conflict, where `pool` is the pool so far.
abbrev pub pool_conflicts : CreatePoolRequest → StatePool → StatePool → Bool
pool_conflicts req pool existing =
    existing.id == pool.id || (is_some req.pool_name && text_eq existing.name pool.name)

-- The `target` of `DeletePool`: the first with the number, or the zero value.
abbrev pub target_or_zero : Option Target → Target
target_or_zero none = record { id = 0; name = []; iqn = [] }
target_or_zero (some t) = t

module _ (H : Host) (cfg : ServerConfig) where
  open H use {World, Err}

  -- `ListPools`
  unfoldable pub list_pools : Store World → Reply Err (List PoolInfo) × Store World
  list_pools = handle do st ← get_state; pure (map (pool_info cfg) (values st.pools))

  -- The pool that a request means, by number or else by name.
  find_pool : Option ℕ → Text → PoolInfo → Map StatePool → Call World Err PoolInfo StatePool
  find_pool (some id) name res pools s =
      or_answer (lookup (uint16 id) pools) (record res { pool_id = id; status = absent }) not_found
        "pool_id %d not found" (num id ∷ []) s
  find_pool none name res pools s =
      or_answer (find (λ p. text_eq name p.name) (values pools))
        (record res { pool_name = name; status = absent }) not_found "pool_name %s not found"
        (str name ∷ []) s

  -- `GetPool`
  unfoldable pub get_pool : GetPoolRequest → Store World → Reply Err PoolInfo × Store World
  unfolding find_pool
  get_pool req = handle do
    answer_if (not (is_some req.pool_id || is_some req.pool_name)) (pool_response invalid_status)
        invalid_argument "pool_id or pool_name must be specified" []
    st ← get_state
    p ← find_pool req.pool_id (or_default req.pool_name []) (pool_response invalid_status) st.pools
    pure (pool_info cfg p)

  -- The number of the new pool: the given one, or one that no target has.
  unfoldable pub choose_pool_id : Option ℕ → Call World Err PoolInfo ℕ
  choose_pool_id (some n) s =
      branch (uint16 n == 0)
        (answer (record (pool_response invalid_status) { pool_id = n }) invalid_argument
          "pool 0 is reserved, use a different id" [])
        (pure (uint16 n)) s
  choose_pool_id none s =
      (attempt (list_targets H cfg.base_iqn) (pool_response invalid_status) failed_precondition
            "could not generate a new pool ID: %v"
          >>= λ targets. pure (free_pool_id targets))
        s

  reject_pool : Option StatePool → PoolInfo → Call World Err PoolInfo (Unit {0})
  reject_pool conflict res s = elim conflict [
    | none ↦ pure tt s
    | some p ↦
        answer res already_exists "pool with id %d and name %q already exists"
          (num p.id ∷ quoted p.name ∷ []) s
  ]

  -- `CreatePool` behind its choice of a number.
  unfoldable pub make_pool : CreatePoolRequest → ℕ → Call World Err PoolInfo PoolInfo
  unfolding reject_pool
  make_pool req id = do
    let res = record (pool_response invalid_status) { pool_id = or_default req.pool_id 0 }
    answer_if (id == 0) res resource_exhausted "could not generate a new pool ID" []
    st ← get_state
    let blank : StatePool = record { id = id; name = []; volumes = [] }
    reject_pool (find (pool_conflicts req blank) (values st.pools)) res
    let pool = record blank { name = or_default req.pool_name (format_uint id) }
    let info = pool_info cfg pool
    attempt (upsert_target H (pool_target cfg pool)) (record info { status = degraded }) aborted
        "could not create target group pool: %v"
    let grown = record st { pools = insert id pool st.pools }
    set_state grown
    attempt (save_state H cfg grown) info internal "could not save state: %v"
    pure info

  -- `CreatePool`
  unfoldable pub create_pool : CreatePoolRequest → Store World → Reply Err PoolInfo × Store World
  unfolding choose_pool_id make_pool
  create_pool req = handle (choose_pool_id req.pool_id >>= make_pool req)

  -- `DeletePool` from its lock on.
  unfoldable pub drop_pool : ℕ → Target → PoolInfo → Call World Err PoolInfo PoolInfo
  drop_pool pool_id t res = do
    attempt (delete_target H t) res aborted "could not delete target group pool: %v"
    st ← get_state
    let shrunk = record st { pools = erase (uint16 pool_id) st.pools }
    set_state shrunk
    attempt (save_state H cfg shrunk) res internal "could not save state: %v"
    pure res

  -- `DeletePool`, whose request holds the pool's number alone.
  unfoldable pub delete_pool : ℕ → Store World → Reply Err PoolInfo × Store World
  unfolding drop_pool
  delete_pool pool_id = handle do
    let res = record (pool_response invalid_status) { pool_id = pool_id }
    targets ←
        attempt (list_targets H cfg.base_iqn) res failed_precondition
          "could not list active pools: %v"
    let target = find (λ t. t.id == uint16 pool_id) targets
    drop_pool pool_id (target_or_zero target)
        (record res { status = if is_some target then active else absent })
