-- ===== src/Server/Pools/FreeId.antt =====
-- The number that `CreatePool` chooses by itself.
use shortrack.Base.{ℕ, zero, suc, ◌+◌, ◌≤◌, ◌<◌, ◌≡◌, ◌≢◌, false, List, arith}
use shortrack.State.{Target}
use shortrack.Server.Pools.{in_use, first_free, free_pool_id}

first_free_range :
    (targets : List Target) (rounds i : ℕ)
    → first_free targets rounds i ≢ 0
    → (i ≤ first_free targets rounds i) × (first_free targets rounds i < i + rounds)
unfolding first_free
first_free_range targets zero i h = absurd (h (omega arith))
first_free_range targets (suc rounds) i h = ground (arith, first_free_range targets rounds (i + 1))

first_free_unused :
    (targets : List Target) (rounds i : ℕ)
    → first_free targets rounds i ≢ 0
    → in_use targets (first_free targets rounds i) ≡ false
unfolding first_free
first_free_unused targets zero i h = absurd (h (omega arith))
first_free_unused targets (suc rounds) i h =
    ground (arith, first_free_unused targets rounds (i + 1))

first_free_least :
    (targets : List Target) (rounds i j : ℕ)
    → i ≤ j
    → 1 ≤ j
    → j < i + rounds
    → in_use targets j ≡ false
    → (1 ≤ first_free targets rounds i) × (first_free targets rounds i ≤ j)
unfolding first_free
first_free_least targets zero i j le pos lt unused = absurd (omega arith)
first_free_least targets (suc rounds) i j le pos lt unused =
    ground (arith, first_free_least targets rounds (i + 1) j)

search_unused :
    (targets : List Target) (rounds : ℕ)
    → first_free targets rounds 0 ≢ 0
    → (1 ≤ first_free targets rounds 0)
      × (first_free targets rounds 0 < rounds)
      × (in_use targets (first_free targets rounds 0) ≡ false)
search_unused targets rounds h =
    let (lo, hi) = first_free_range targets rounds 0 h in
    (omega arith, omega arith, first_free_unused targets rounds 0 h)

search_least :
    (targets : List Target) (rounds j : ℕ)
    → 1 ≤ j
    → j < rounds
    → in_use targets j ≡ false
    → (1 ≤ first_free targets rounds 0)
      × (first_free targets rounds 0 ≤ j)
      × (in_use targets (first_free targets rounds 0) ≡ false)
search_least targets rounds j pos lt unused =
    let (lo, hi) = first_free_least targets rounds 0 j (omega arith) pos (omega arith) unused in
    (lo, hi, first_free_unused targets rounds 0 (omega arith))

-- A number other than 0 that is chosen lies in 1 … 65534 and no listed target has it.
pub free_pool_id_unused :
    (targets : List Target)
    → free_pool_id targets ≢ 0
    → (1 ≤ free_pool_id targets)
      × (free_pool_id targets < 65535)
      × (in_use targets (free_pool_id targets) ≡ false)
unfolding free_pool_id
free_pool_id_unused targets h = search_unused targets 65535 h

-- The search of `CreatePool` is exhaustive and takes the least number: if some number in
-- 1 … 65534 belongs to no listed target, then the choice is not 0 and not above that number, and
-- no listed target has the choice.
pub free_pool_id_least :
    (targets : List Target) (j : ℕ)
    → 1 ≤ j
    → j < 65535
    → in_use targets j ≡ false
    → (1 ≤ free_pool_id targets)
      × (free_pool_id targets ≤ j)
      × (in_use targets (free_pool_id targets) ≡ false)
unfolding free_pool_id
free_pool_id_least targets j pos lt unused = search_least targets 65535 j pos lt unused
