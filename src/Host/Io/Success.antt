-- ===== src/Host/Io/Success.antt =====
-- What a result without error says of the steps of code: none has failed.
use shortrack.Base.{
  ◌≡◌, refl, ap, if◌then◌else◌, Bool, inl, inr, List, [], ◌∷◌, ◌++◌, ◌||◌, Bool-cases,
  contains_func, arith,
}
use shortrack.Host.Io.{Io, ok, when, pure, for_each, collect_all, ◌>>=◌, ◌>>◌}
use shortrack.Host.Io.Cases.{Outcome-cases}

-- The elements that pass a test, in their order.
unfoldable pub only : {A : Type 0} → (A → Bool) → List A → List A
only test [] = []
only test (x ∷ xs) = let rest = only test xs in if test x then x ∷ rest else rest

pub only-same :
    {A : Type 0} (test other : A → Bool)
    → ((x : A) → test x ≡ other x)
    → (xs : List A) → only test xs ≡ only other xs
unfolding only
only-same test other h [] = refl
only-same test other h (x ∷ xs) = rw (h x, only-same test other h xs) refl

-- Code that goes from one world to another and returns a value without error.
abbrev pub Ran : {W E A : Type 0} → Io W E A → W → A → W → Type 0
Ran m w a w' = m w ≡ (ok a, w')

module _ {W E A B : Type 0} where
  -- A step that has been run without error, and what follows it.
  pub Ran-bind :
      (m : Io W E A) (f : A → Io W E B) (w : W) (b : B) (w' : W)
      → Ran (m >>= f) w b w'
      → (a : A) × (v : W) × Ran m w a v × Ran (f a) v b w'
  Ran-bind m f w b w' h = elim (Outcome-cases (m w).0) [
    | inl (a, eq) ↦ (a, (m w).1, ap (λ r. (r, (m w).1)) eq, ground arith)
    | inr (inl (e, eq)) ↦ absurd (ground arith)
    | inr (inr eq) ↦ absurd (ground arith)
  ]

  bind-ok :
      (m : Io W E A) (f : A → Io W E B) (w : W) (b : B)
      → ((m >>= f) w).0 ≡ ok b
      → (a : A) × ((m w).0 ≡ ok a) × ((f a (m w).1).0 ≡ ok b)
  bind-ok m f w b h = elim (Outcome-cases (m w).0) [
    | inl (a, eq) ↦ (a, eq, ground arith)
    | inr (inl (e, eq)) ↦ absurd (ground arith)
    | inr (inr eq) ↦ absurd (ground arith)
  ]

module _ {A : Type 0} (test : A → Bool) where
  contains_func-append :
      (xs ys : List A)
      → contains_func (xs ++ ys) test ≡ contains_func xs test || contains_func ys test
  contains_func-append [] ys = refl
  contains_func-append (x ∷ xs) ys = elim (Bool-cases (test x)) [
    | inl passed ↦ ground arith
    | inr not_passed ↦ ground (arith, contains_func-append xs ys)
  ]

module _ {W E A B : Type 0} where
  -- A test on what is collected, by a test on what it is collected from.
  pub collect_all-contains :
      (f : A → Io W E (List B)) (test : B → Bool) (from : A → Bool)
      → ((x : A) (w : W) (bs : List B) → (f x w).0 ≡ ok bs → contains_func bs test ≡ from x)
      → (xs : List A) (w : W) (bs : List B) → (collect_all f xs w).0 ≡ ok bs
      → contains_func bs test ≡ contains_func xs from
  unfolding collect_all
  collect_all-contains f test from one [] w bs h = ground arith
  collect_all-contains f test from one (x ∷ xs) w bs h =
      let (ys, first, rest) =
        bind-ok (f x) (λ ys. collect_all f xs >>= λ zs. pure (ys ++ zs)) w bs h in
      let (zs, later, last) =
        bind-ok (collect_all f xs) (λ zs. pure (ys ++ zs)) (f x w).1 bs rest in
      let here = one x w ys first in
      let there = collect_all-contains f test from one xs (f x w).1 zs later in
      ground (arith, contains_func-append test ys zs)

module _ {W E : Type 0} where
  then_same :
      (m k rest : Io W E (Unit {0})) (w : W) → ((v : W) → k v ≡ rest v) → (m >> k) w ≡ (m >> rest) w
  then_same m k rest w h = elim (Outcome-cases (m w).0) [
    | inl (a, eq) ↦ ground (arith, h (m w).1)
    | inr (inl (x, eq)) ↦ ground arith
    | inr (inr eq) ↦ ground arith
  ]

module _ {W E A : Type 0} where
  -- A loop that leaves the elements out for which a test fails.
  pub for_each-when :
      (test : A → Bool) (f : A → Io W E (Unit {0})) (xs : List A) (w : W)
      → for_each (λ x. when (test x) (f x)) xs w ≡ for_each f (only test xs) w
  unfolding for_each only
  for_each-when test f [] w = refl
  for_each-when test f (x ∷ xs) w = elim (Bool-cases (test x)) [
    | inl passed ↦ rw passed (
        then_same (f x) (for_each (λ y. when (test y) (f y)) xs) (for_each f (only test xs)) w
          (for_each-when test f xs))
    | inr failed ↦ rw failed (for_each-when test f xs w)
  ]
