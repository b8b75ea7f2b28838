-- ===== src/Server/Call.antt =====
-- A gRPC handler: it changes the server's state and the world, and it may return early with a
-- partial response and a status.
pub mod Laws
use shortrack.Base.{Bool, true, false, ℕ, String, Option, none, some, List, [], ◌∷◌}
use shortrack.Go.Text.{Text}
use shortrack.State.{SigmaState}
use shortrack.Host.Io.{Io, Error, Outcome, ok, err, panic}

-- The codes of `google.golang.org/grpc/codes` that the handlers use.
pub data Code : Type 0 where
  invalid_argument not_found already_exists failed_precondition aborted internal
        resource_exhausted :
      Code

-- An argument of `status.Errorf`, for the verbs `%d`, `%s`, `%q` and `%v`.
pub data Arg (E : Type 0) : Type 0 where
  num : ℕ → Arg E
  str : Text → Arg E
  quoted : Text → Arg E
  failure : Error E → Arg E

-- `status.Errorf`, its message still to be formatted.
pub record Status (E : Type 0) : Type 0 where
  pub code : Code
  pub format : String
  pub args : List (Arg E)

-- How a handler ends: with a response and perhaps an error, or in a panic.
pub data Reply (E R : Type 0) : Type 0 where
  reply : R → Option (Status E) → Reply E R
  panicked : Reply E R

-- The server's memory and the host.
pub record Store (W : Type 0) : Type 0 where
  pub state : SigmaState
  pub world : W

pub data Step (E R A : Type 0) : Type 0 where
  next : A → Step E R A
  stop : Reply E R → Step E R A

-- Whether a handler has ended with an error or in a panic.
abbrev pub reply_fails : {E R : Type 0} → Reply E R → Bool
reply_fails (reply res none) = false
reply_fails (reply res (some e)) = true
reply_fails panicked = true

abbrev pub is_panicked : {E R : Type 0} → Reply E R → Bool
is_panicked (reply res st) = false
is_panicked panicked = true

abbrev pub step_fails : {E R A : Type 0} → Step E R A → Bool
step_fails (next a) = false
step_fails (stop x) = reply_fails x

abbrev pub Call : Type 0 → Type 0 → Type 0 → Type 0 → Type 0
Call W E R A = Store W → Step E R A × Store W

infixl 5 ◌>>=◌ ◌>>◌
abbrev pub ◌>>=◌ : {W E R A B : Type 0} → Call W E R A → (A → Call W E R B) → Call W E R B
◌>>=◌ m f s = let (r, s') = m s in elim r [ next a ↦ f a s' | stop x ↦ (stop x, s') ]

abbrev pub ◌>>◌ : {W E R A B : Type 0} → Call W E R A → Call W E R B → Call W E R B
m >> k = m >>= λ _. k

module _ {W E R A : Type 0} where
  abbrev pub pure : A → Call W E R A
  pure a s = (next a, s)

  -- `return res, status.Errorf(code, format, args…)`
  abbrev pub answer : R → Code → String → List (Arg E) → Call W E R A
  answer res code format args s =
      (stop (reply res (some (record { code = code; format = format; args = args }))), s)

  -- Code that calls the host; `if err != nil { return res, status.Errorf(code, format, err) }`.
  abbrev pub attempt : Io W E A → R → Code → String → Call W E R A
  attempt m res code format s =
      let (r, w) = m s.world in
      elim r [
        | ok a ↦ (next a, record s { world = w })
        | err e ↦ answer res code format (failure e ∷ []) (record s { world = w })
        | panic ↦ (stop panicked, record s { world = w })
      ]

module _ {W E R A : Type 0} where
  -- `if test { … } else { … }`, by the test.
  abbrev pub branch : Bool → Call W E R A → Call W E R A → Call W E R A
  branch test m k s = elim test [ true ↦ m s | false ↦ k s ]

  -- `if found == nil { return res, status.Errorf(code, format, args…) }`
  abbrev pub or_answer : Option A → R → Code → String → List (Arg E) → Call W E R A
  or_answer found res code format args s = elim found [
    | some a ↦ pure a s
    | none ↦ answer res code format args s
  ]

module _ {W E R : Type 0} where
  -- `if test { return res, status.Errorf(code, format, args…) }`
  abbrev pub answer_if : Bool → R → Code → String → List (Arg E) → Call W E R (Unit {0})
  answer_if test res code format args s = elim test [
    | true ↦ answer res code format args s
    | false ↦ pure tt s
  ]

  abbrev pub get_state : Call W E R SigmaState
  get_state s = (next s.state, s)

  abbrev pub set_state : SigmaState → Call W E R (Unit {0})
  set_state st s = (next tt, record s { state = st })

  -- The last `return res, nil`.
  abbrev pub handle : Call W E R R → Store W → Reply E R × Store W
  handle m s = let (r, s') = m s in elim r [ next res ↦ (reply res none, s') | stop x ↦ (x, s') ]
