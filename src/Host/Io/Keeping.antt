-- ===== src/Host/Io/Keeping.antt =====
-- Code that keeps a predicate of the world, whatever its outcome.
use shortrack.Base.{Bool, true, false, Option, none, some, List, [], ◌∷◌}
use shortrack.Host.Io.Loops.{All, Returns}
use shortrack.Host.Io.{
  Io, Outcome, ok, err, panic, os_error, pure, fail, branch, call, ◌>>=◌, ◌>>◌, when, or_return,
  or_return_unless, check, check_unless, for_each, collect, cons_some,
}

module _ {W E : Type 0} (P : W → Type 0) where
  abbrev pub Keeps : {A : Type 0} → Io W E A → Type 0
  Keeps m = (w : W) → P w → P (m w).1

  abbrev ended : {A : Type 0} → Outcome E A → Io W E A
  ended r w = (r, w)

  Keeps-ended :
      {A B : Type 0} (r : Outcome E A) (k : A → Io W E B) (w : W)
      → P w
      → ((a : A) → Keeps (k a))
      → P ((ended r >>= k) w).1
  Keeps-ended (ok a) k w p h = h a w p
  Keeps-ended (err e) k w p h = p
  Keeps-ended panic k w p h = p

  pub Keeps-bind :
      {A B : Type 0} (m : Io W E A) (k : A → Io W E B)
      → Keeps m
      → ((a : A) → Keeps (k a))
      → Keeps (m >>= k)
  Keeps-bind m k h g w p = Keeps-ended (m w).0 k (m w).1 (h w p) g

  pub Keeps-when : (b : Bool) (m : Io W E (Unit {0})) → Keeps m → Keeps (when b m)
  Keeps-when true m h w p = h w p
  Keeps-when false m h w p = p

  pub Keeps-or_return : (e : Option E) → Keeps (or_return e)
  Keeps-or_return none w p = p
  Keeps-or_return (some e) w p = p

  pub Keeps-branch :
      {A : Type 0} (b : Bool) (m k : Io W E A) → Keeps m → Keeps k → Keeps (branch b m k)
  Keeps-branch true m k h g w p = h w p
  Keeps-branch false m k h g w p = g w p

  pub Keeps-or_return_unless :
      (accept : E → Bool) (e : Option E) → Keeps (or_return_unless accept e)
  Keeps-or_return_unless accept none = λ w p. p
  Keeps-or_return_unless accept (some e) =
      Keeps-branch (accept e) (pure tt) (fail (os_error e)) (λ w p. p) (λ w p. p)

  pub Keeps-check : (f : W → Option E × W) → Keeps (call f) → Keeps (check f)
  Keeps-check f h = Keeps-bind (call f) or_return h Keeps-or_return

  pub Keeps-check_unless :
      (accept : E → Bool) (f : W → Option E × W) → Keeps (call f) → Keeps (check_unless accept f)
  Keeps-check_unless accept f h =
      Keeps-bind (call f) (or_return_unless accept) h (Keeps-or_return_unless accept)

  module _ {A : Type 0} where
    pub Keeps-for_each :
        (f : A → Io W E (Unit {0})) (xs : List A) → ((x : A) → Keeps (f x)) → Keeps (for_each f xs)
    unfolding for_each
    Keeps-for_each f [] h = λ w p. p
    Keeps-for_each f (x ∷ xs) h =
        Keeps-bind (f x) (λ _. for_each f xs) (h x) (λ _. Keeps-for_each f xs h)

    pub Keeps-collect :
        {B : Type 0} (f : A → Io W E (Option B)) (xs : List A)
        → ((x : A) → Keeps (f x))
        → Keeps (collect f xs)
    unfolding collect
    Keeps-collect f [] h = λ w p. p
    Keeps-collect f (x ∷ xs) h =
        Keeps-bind (f x) (λ y. collect f xs >>= λ ys. pure (cons_some y ys)) (h x)
          (λ y.
            Keeps-bind (collect f xs) (λ ys. pure (cons_some y ys)) (Keeps-collect f xs h)
              (λ ys w p. p))

  -- A listing whose missing directory counts as empty, and what is done with it.
  pub Keeps-listing :
      {A B : Type 0} (accept : E → Bool) (f : W → (A × Option E) × W) (k : A → Io W E B)
      → Keeps (call f)
      → ((a : A) → Keeps (k a))
      → Keeps (call f >>= λ r. or_return_unless accept r.1 >> k r.0)
  Keeps-listing accept f k h g =
      Keeps-bind (call f) (λ r. or_return_unless accept r.1 >> k r.0) h
        (λ r.
          Keeps-bind (or_return_unless accept r.1) (λ _. k r.0) (Keeps-or_return_unless accept r.1)
            (λ _. g r.0))

  Keeps-ended_with :
      {A B : Type 0} (Q : A → Type 0) (r : Outcome E A) (k : A → Io W E B) (w : W)
      → P w
      → Returns Q r
      → ((a : A) → Q a → Keeps (k a))
      → P ((ended r >>= k) w).1
  Keeps-ended_with Q (ok a) k w p q h = h a q w p
  Keeps-ended_with Q (err e) k w p q h = p
  Keeps-ended_with Q panic k w p q h = p

  -- What is returned satisfies `Q`.
  pub Keeps-bind_with :
      {A B : Type 0} (Q : A → Type 0) (m : Io W E A) (k : A → Io W E B)
      → Keeps m
      → ((w : W) → Returns Q (m w).0)
      → ((a : A) → Q a → Keeps (k a))
      → Keeps (m >>= k)
  Keeps-bind_with Q m k h q g w p = Keeps-ended_with Q (m w).0 k (m w).1 (h w p) (q w) g

  pub Keeps-for_each_with :
      {A : Type 0} (Q : A → Type 0) (f : A → Io W E (Unit {0})) (xs : List A)
      → All Q xs
      → ((x : A) → Q x → Keeps (f x))
      → Keeps (for_each f xs)
  unfolding for_each
  Keeps-for_each_with Q f [] q h = λ w p. p
  Keeps-for_each_with Q f (x ∷ xs) q h =
      Keeps-bind (f x) (λ _. for_each f xs) (h x q.0) (λ _. Keeps-for_each_with Q f xs q.1 h)

  pub Keeps-listing_with :
      {A B : Type 0} (Q : A → Type 0) (accept : E → Bool) (f : W → (A × Option E) × W)
      (k : A → Io W E B)
      → Keeps (call f)
      → ((w : W) → Q (f w).0.0)
      → ((a : A) → Q a → Keeps (k a))
      → Keeps (call f >>= λ r. or_return_unless accept r.1 >> k r.0)
  Keeps-listing_with Q accept f k h q g =
      Keeps-bind_with (λ r. Q r.0) (call f) (λ r. or_return_unless accept r.1 >> k r.0) h q
        (λ r x.
          Keeps-bind (or_return_unless accept r.1) (λ _. k r.0) (Keeps-or_return_unless accept r.1)
            (λ _. g r.0 x))
