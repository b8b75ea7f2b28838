-- ===== src/Host/Io.antt =====
-- Go code that calls the host and returns an error: a state monad with failure and panics.
pub mod Cases
pub mod Loops
pub mod Keeping
pub mod Success
use shortrack.Base.{Bool, true, false, String, Bool, Option, none, some, List, [], ◌∷◌, ◌++◌}
use shortrack.Go.Text.{Text}
use shortrack.Go.Number.{NumError}

-- Go's `error` values: those of the host, of `strconv`, of `fmt.Errorf` and of `errors.Join`.
pub data Error (E : Type 0) : Type 0 where
  os_error : E → Error E
  num_error : NumError → Text → Error E
  errorf : String → List Text → Error E
  wrapped : String → Error E → Error E
  joined : Error E → Error E → Error E

-- How a call ends.
pub data Outcome (E A : Type 0) : Type 0 where
  ok : A → Outcome E A
  err : Error E → Outcome E A
  panic : Outcome E A

abbrev pub Io : Type 0 → Type 0 → Type 0 → Type 0
Io W E A = W → Outcome E A × W

module _ {W E A : Type 0} where
  abbrev pub pure : A → Io W E A
  pure a w = (ok a, w)

  abbrev pub fail : Error E → Io W E A
  fail e w = (err e, w)

  -- A nil pointer is used.
  abbrev pub crash : Io W E A
  crash w = (panic, w)

  -- `if test { … } else { … }`, by the test.
  abbrev pub branch : Bool → Io W E A → Io W E A → Io W E A
  branch test m k w = elim test [ true ↦ m w | false ↦ k w ]

  -- A host call whose results the code inspects itself.
  abbrev pub call : (W → A × W) → Io W E A
  call f w = let (a, w') = f w in (ok a, w')

infixl 5 ◌>>=◌ ◌>>◌
abbrev pub ◌>>=◌ : {W E A B : Type 0} → Io W E A → (A → Io W E B) → Io W E B
◌>>=◌ m f w =
    let (r, w') = m w in elim r [ ok a ↦ f a w' | err e ↦ (err e, w') | panic ↦ (panic, w') ]

abbrev pub ◌>>◌ : {W E A B : Type 0} → Io W E A → Io W E B → Io W E B
m >> k = m >>= λ _. k

module _ {W E : Type 0} where
  -- `if test { … }`
  abbrev pub when : Bool → Io W E (Unit {0}) → Io W E (Unit {0})
  when test m w = elim test [ true ↦ m w | false ↦ pure tt w ]

  -- `if err != nil { return err }`
  abbrev pub or_return : Option E → Io W E (Unit {0})
  or_return e w = elim e [ none ↦ pure tt w | some e' ↦ fail (os_error e') w ]

  -- `if err != nil && !accept(err) { return err }`
  abbrev pub or_return_unless : (E → Bool) → Option E → Io W E (Unit {0})
  or_return_unless accept e w = elim e [
    | none ↦ pure tt w
    | some e' ↦ branch (accept e') (pure tt) (fail (os_error e')) w
  ]

  abbrev pub check : (W → Option E × W) → Io W E (Unit {0})
  check f = call f >>= or_return

  abbrev pub check_unless : (E → Bool) → (W → Option E × W) → Io W E (Unit {0})
  check_unless accept f = call f >>= or_return_unless accept

module _ {W E A : Type 0} where
  -- `for _, x := range xs { err = f(x); if err != nil { return err } }`
  unfoldable pub for_each : (A → Io W E (Unit {0})) → List A → Io W E (Unit {0})
  for_each f [] = pure tt
  for_each f (x ∷ xs) = f x >> for_each f xs

abbrev pub cons_some : {A : Type 0} → Option A → List A → List A
cons_some none xs = xs
cons_some (some x) xs = x ∷ xs

module _ {W E A B : Type 0} where
  -- A loop that appends at most one element in each round; `none` is a `continue`.
  unfoldable pub collect : (A → Io W E (Option B)) → List A → Io W E (List B)
  collect f [] = pure []
  collect f (x ∷ xs) = do y ← f x; ys ← collect f xs; pure (cons_some y ys)

  -- A loop that appends a list in each round.
  unfoldable pub collect_all : (A → Io W E (List B)) → List A → Io W E (List B)
  collect_all f [] = pure []
  collect_all f (x ∷ xs) = do ys ← f x; zs ← collect_all f xs; pure (ys ++ zs)
