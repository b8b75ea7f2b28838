-- ===== src/Server/Order/Steps.antt =====
-- Steps of handlers that are run from two states.
use shortrack.Base.{◌≡◌, refl, ap, ◌∙◌, Bool, true, false, String, Option, none, some, List, arith}
use shortrack.Host.Io.{Io}
use shortrack.State.{SigmaState}
use shortrack.Server.Call.{
  Call, Store, Step, next, stop, Reply, Code, Arg, attempt, answer_if, or_answer, branch,
  step_fails, reply_fails, handle, ◌>>=◌,
}
use shortrack.Server.Order.{on, EndsAlike, SameState}

module _ {W E R : Type 0} where
  -- The two runs of a step end alike.
  abbrev pub AreAlike : {A : Type 0} → Step E R A × Store W → Step E R A × Store W → Type 0
  AreAlike r r' = EndsAlike (step_fails r.0) (step_fails r'.0) r.1 r'.1

  handle-fails : (m : Call W E R R) (s : Store W) → reply_fails (handle m s).0 ≡ step_fails (m s).0
  handle-fails m s = ground arith

  handle-store : (m : Call W E R R) (s : Store W) → (handle m s).1 ≡ (m s).1
  handle-store m s = ground arith

  pub handle-alike :
      (m : Call W E R R) (s t : Store W)
      → AreAlike (m s) (m t)
      → EndsAlike
          (reply_fails (handle m s).0)
          (reply_fails (handle m t).0)
          (handle m s).1
          (handle m t).1
  handle-alike m s t h =
      rw (handle-fails m s, handle-fails m t, handle-store m s, handle-store m t) h

module _ {W E R A B : Type 0} (m : Call W E R A) (k : A → Call W E R B) where
  bind-next : (s s' : Store W) (a : A) → m s ≡ (next a, s') → (m >>= k) s ≡ k a s'
  bind-next s s' a e = ground arith

  bind-stop : (s s' : Store W) (x : Reply E R) → m s ≡ (stop x, s') → (m >>= k) s ≡ (stop x, s')
  bind-stop s s' x e = ground arith

  -- A first step that does the same from both states and leaves them alone.
  pub bind-alike :
      (s t : SigmaState) (w v : W) (r : Step E R A)
      → m (on s w) ≡ (r, on s v)
      → m (on t w) ≡ (r, on t v)
      → SameState s t
      → ((a : A) → AreAlike (k a (on s v)) (k a (on t v)))
      → AreAlike ((m >>= k) (on s w)) ((m >>= k) (on t w))
  bind-alike s t w v (next a) e e' h rest =
      rw (bind-next (on s w) (on s v) a e, bind-next (on t w) (on t v) a e') (rest a)
  bind-alike s t w v (stop x) e e' h rest =
      rw (bind-stop (on s w) (on s v) x e, bind-stop (on t w) (on t v) x e')
        (record { outcome = refl; world = refl; state = h })

module _ {W E R A : Type 0} (m : Io W E A) (res : R) (code : Code) (format : String) where
  attempt-on :
      (s t : SigmaState) (w : W)
      → let r = attempt m res code format (on s w) in
        (r ≡ (r.0, on s r.1.world)) × (attempt m res code format (on t w) ≡ (r.0, on t r.1.world))
  attempt-on s t w = ground arith

  -- A call of the host is the same from both states.
  pub attempt-alike :
      {B : Type 0} (k : A → Call W E R B) (s t : SigmaState) (w : W)
      → SameState s t
      → ((a : A) (v : W) → AreAlike (k a (on s v)) (k a (on t v)))
      → AreAlike
          ((attempt m res code format >>= k) (on s w))
          ((attempt m res code format >>= k) (on t w))
  attempt-alike k s t w h rest =
      let r = attempt m res code format (on s w) in
      let (e, e') = attempt-on s t w in
      bind-alike (attempt m res code format) k s t w r.1.world r.0 e e' h (λ a. rest a r.1.world)

module _ {W E R : Type 0} (test : Bool) (res : R) (code : Code) (format : String)
    (args : List (Arg E)) where
  answer_if-on :
      (s : SigmaState) (w : W)
      → let r = answer_if test res code format args (on s w) in r ≡ (r.0, on s w)
  answer_if-on s w = ground arith

  answer_if-steps :
      (s t : SigmaState) (w : W)
      → (answer_if test res code format args (on t w)).0
        ≡ (answer_if test res code format args (on s w)).0
  answer_if-steps s t w = ground arith

  -- A test of the request alone.
  pub answer_if-alike :
      {B : Type 0} (k : Unit {0} → Call W E R B) (s t : SigmaState) (w : W)
      → SameState s t
      → AreAlike (k tt (on s w)) (k tt (on t w))
      → AreAlike
          ((answer_if test res code format args >>= k) (on s w))
          ((answer_if test res code format args >>= k) (on t w))
  answer_if-alike k s t w h rest =
      bind-alike (answer_if test res code format args) k s t w w
        (answer_if test res code format args (on s w)).0 (answer_if-on s w)
        (answer_if-on t w ∙ ap (λ r. (r, on t w)) (answer_if-steps s t w)) h (λ a. rest)

module _ {W E R A : Type 0} where
  pub or_answer-alike :
      {B : Type 0} (found : Option A) (res : R) (code : Code) (format : String)
      (args : List (Arg E)) (k : A → Call W E R B) (s t : SigmaState) (w : W)
      → SameState s t
      → ((a : A) → AreAlike (k a (on s w)) (k a (on t w)))
      → AreAlike
          ((or_answer found res code format args >>= k) (on s w))
          ((or_answer found res code format args >>= k) (on t w))
  or_answer-alike (some a) res code format args k s t w h rest = rest a
  or_answer-alike none res code format args k s t w h rest = record {
    outcome = refl;
    world = refl;
    state = h;
  }

  pub branch-alike :
      (test : Bool) (m k : Call W E R A) (s t : SigmaState) (w : W)
      → AreAlike (m (on s w)) (m (on t w))
      → AreAlike (k (on s w)) (k (on t w))
      → AreAlike (branch test m k (on s w)) (branch test m k (on t w))
  branch-alike true m k s t w h g = h
  branch-alike false m k s t w h g = g
