-- ===== src/Base/Map.antt =====
-- A Go map with `uint16` keys: its entries in the order in which `range` visits them.
use mathlib.Core.Path.{◌≡◌, refl}
use mathlib.Core.Bool.{Bool, true, false}
use mathlib.Core.Option.{Option, none, some}
use mathlib.Core.List.{List, [], ◌∷◌}
use Prim.Native.Nat.{ℕ}
use native.Mathlib.Omega.{arith}
use shortrack.Base.Tests.{◌==◌, if◌then◌else◌, find}

abbrev pub Map {ℓ} : Type ℓ → Type ℓ
Map V = List (ℕ × V)

module _ {ℓ} {V : Type ℓ} where
  -- `v, exists := m[k]`
  unfoldable pub lookup : ℕ → Map V → Option V
  lookup key [] = none
  lookup key ((at, x) ∷ rest) = let later = lookup key rest in if at == key then some x else later

  -- `m[k] = v`
  unfoldable pub insert : ℕ → V → Map V → Map V
  insert key x [] = (key, x) ∷ []
  insert key x ((at, old) ∷ rest) =
      let later = (at, old) ∷ insert key x rest in if at == key then (key, x) ∷ rest else later

  -- `delete(m, k)`
  unfoldable pub erase : ℕ → Map V → Map V
  erase k [] = []
  erase k ((j, w) ∷ m) = let rest = erase k m in if j == k then rest else (j, w) ∷ rest

  pub lookup-insert :
      (key other : ℕ) (x : V) (m : Map V)
      → lookup other (insert key x m) ≡ (if key == other then some x else lookup other m)
  unfolding lookup insert
  lookup-insert key other x [] = refl
  lookup-insert key other x ((at, old) ∷ rest) = ground (arith, lookup-insert key other x rest)

  pub lookup-erase :
      (k j : ℕ) (m : Map V) → lookup j (erase k m) ≡ (if k == j then none else lookup j m)
  unfolding lookup erase
  lookup-erase k j [] = ground arith
  lookup-erase k j ((i, w) ∷ m) = ground (arith, lookup-erase k j m)

  -- The values that `for _, v := range m` visits.
  abbrev pub values : Map V → List V
  values [] = []
  values ((j, v) ∷ m) = v ∷ values m

  -- A value that `find` passes over among those of a map is refused by the test.
  pub find-none :
      (f : V → Bool) (m : Map V) (k : ℕ) (v : V)
      → find f (values m) ≡ none
      → lookup k m ≡ some v
      → f v ≡ false
  unfolding lookup
  find-none f [] k v h e = cc
  find-none f ((j, w) ∷ m) k v h e = ground (arith, find-none f m k v)

  -- What `find` returns passes the test, and stands in the map if its keys are distinct.
  pub find-some : (f : V → Bool) (xs : List V) (v : V) → find f xs ≡ some v → f v ≡ true
  find-some f [] v h = cc
  find-some f (x ∷ xs) v h = ground (arith, find-some f xs v)

  -- No key stands twice.
  abbrev pub AreDistinct : Map V → Type ℓ
  AreDistinct [] = Unit
  AreDistinct ((key, x) ∷ rest) = (lookup key rest ≡ none) × AreDistinct rest

  pub insert-AreDistinct :
      (key : ℕ) (x : V) (m : Map V) → AreDistinct m → AreDistinct (insert key x m)
  unfolding lookup insert
  insert-AreDistinct key x [] h = (refl, tt)
  insert-AreDistinct key x ((at, old) ∷ rest) h =
      ground (arith, insert-AreDistinct key x rest h.1, lookup-insert key at x rest)

  pub erase-AreDistinct : (key : ℕ) (m : Map V) → AreDistinct m → AreDistinct (erase key m)
  unfolding lookup erase
  erase-AreDistinct key [] h = tt
  erase-AreDistinct key ((at, old) ∷ rest) h =
      ground (arith, erase-AreDistinct key rest h.1, lookup-erase key at rest)

  -- The entries, each with its key.
  abbrev pub AllEntries {κ} : (ℕ → V → Type κ) → Map V → Type κ
  AllEntries P [] = Unit
  AllEntries P ((key, x) ∷ rest) = P key x × AllEntries P rest

  -- With distinct keys every entry is one that `lookup` finds.
  pub lookup-AllEntries {κ} :
      (P : ℕ → V → Type κ) (m : Map V)
      → AreDistinct m
      → ((key : ℕ) (x : V) → lookup key m ≡ some x → P key x)
      → AllEntries P m
  unfolding lookup
  lookup-AllEntries P [] d h = tt
  lookup-AllEntries P ((at, x) ∷ rest) d h =
      (h at x (ground arith), lookup-AllEntries P rest d.1 (λ key y e. h key y (ground arith)))
