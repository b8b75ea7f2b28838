-- ===== src/Host/Io/Loops.antt =====
-- Rules for the loops: what holds of every element that a loop collects.
use shortrack.Base.{Bool, true, false, List, [], ◌∷◌, ◌++◌, Option, none, some}
use shortrack.Host.Io.{
  ◌>>=◌, ◌>>◌, pure, call, branch, or_return_unless, Io, Outcome, ok, err, os_error, fail, panic,
  cons_some, collect, collect_all,
}

module _ {A : Type 0} (P : A → Type 0) where
  abbrev pub All : List A → Type 0
  All [] = Unit {0}
  All (x ∷ xs) = P x × All xs

  abbrev pub AllSome : Option A → Type 0
  AllSome none = Unit {0}
  AllSome (some x) = P x

  pub All-cons_some : (x : Option A) (xs : List A) → AllSome x → All xs → All (cons_some x xs)
  All-cons_some none xs h t = t
  All-cons_some (some x) xs h t = (h, t)

  pub All-append : (xs ys : List A) → All xs → All ys → All (xs ++ ys)
  All-append [] ys h t = t
  All-append (x ∷ xs) ys h t = (h.0, All-append xs ys h.1 t)

-- A result that is no error has the property.
abbrev pub Returns : {E A : Type 0} → (A → Type 0) → Outcome E A → Type 0
Returns P (ok a) = P a
Returns P (err e) = Unit {0}
Returns P panic = Unit {0}

module _ {W E A B : Type 0} where
  -- The rule for a sequence.
  pub Returns-bind :
      (Q : A → Type 0) (P : B → Type 0) (m : Io W E A) (f : A → Io W E B) (w : W)
      → Returns Q (m w).0
      → ((a : A) (v : W) → Q a → Returns P (f a v).0)
      → Returns P ((m >>= f) w).0
  Returns-bind Q P m f w h k = step (m w) h
    where
      step : (r : Outcome E A × W) → Returns Q r.0 → Returns P (((λ (v : W). r) >>= f) w).0
      step (ok a, v) q = k a v q
      step (err e, v) q = tt
      step (panic, v) q = tt

  -- A listing: `os.ReadDir`, whose error is returned unless it is accepted.
  pub Returns-listing :
      (P : B → Type 0) (f : W → (A × Option E) × W) (accept : E → Bool) (k : A → Io W E B) (w : W)
      → ((a : A) (v : W) → Returns P (k a v).0)
      → Returns P ((call f >>= λ r. or_return_unless accept r.1 >> k r.0) w).0
  Returns-listing P f accept k w h = step (f w)
    where
      accepted :
          (a : A) (b : Bool) (e : E) (v : W)
          → Returns P ((branch b (pure tt) (fail (os_error e)) >> k a) v).0
      accepted a true e v = h a v
      accepted a false e v = tt

      step :
          (r : (A × Option E) × W)
          → Returns P ((call (λ (u : W). r) >>= λ q. or_return_unless accept q.1 >> k q.0) w).0
      step ((a, none), v) = h a v
      step ((a, some e), v) = accepted a (accept e) e v

module _ {W E A B : Type 0} (P : B → Type 0) where
  -- Every element that a loop collects has a property, if every round's element has.
  pub Returns-collect :
      (f : A → Io W E (Option B))
      → ((a : A) (w : W) → Returns (AllSome P) (f a w).0)
      → (xs : List A) (w : W) → Returns (All P) (collect f xs w).0
  unfolding collect
  Returns-collect f h [] w = tt
  Returns-collect f h (x ∷ xs) w =
      Returns-bind (AllSome P) (All P) (f x) (λ y. collect f xs >>= λ ys. pure (cons_some y ys)) w
        (h x w)
        λ y v py.
          Returns-bind (All P) (All P) (collect f xs) (λ ys. pure (cons_some y ys)) v
            (Returns-collect f h xs v) λ ys u pys. All-cons_some P y ys py pys

  pub Returns-collect_all :
      (f : A → Io W E (List B))
      → ((a : A) (w : W) → Returns (All P) (f a w).0)
      → (xs : List A) (w : W) → Returns (All P) (collect_all f xs w).0
  unfolding collect_all
  Returns-collect_all f h [] w = tt
  Returns-collect_all f h (x ∷ xs) w =
      Returns-bind (All P) (All P) (f x) (λ ys. collect_all f xs >>= λ zs. pure (ys ++ zs)) w
        (h x w)
        λ ys v pys.
          Returns-bind (All P) (All P) (collect_all f xs) (λ zs. pure (ys ++ zs)) v
            (Returns-collect_all f h xs v) λ zs u pzs. All-append P ys zs pys pzs
