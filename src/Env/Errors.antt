-- ===== src/Env/Errors.antt =====
-- The error types of `pkg/env/env.go`. An error of another package is a parameter with its text,
-- and so is the text of a dynamic type.
use shortrack.Base.{◌≡◌, Bool, true, false, Option, none, some, ◌++◌, if◌then◌else◌, arith}
use shortrack.Go.Text.{Text, bytes}
use shortrack.Go.Number.{NumError}
use shortrack.Env.{
  Parsers, Kind, Value, EnvError, var_not_found, number_parsing, other_parsing, unsupported_type,
  get, get_default,
}

-- A non-nil `error`: one of the three types, or of another package. The inner error of an
-- `ErrParsing` may be nil, and the value of an `ErrUnsupportedType` too.
pub data GoError (E V : Type 0) : Type 0 where
  err_var_not_found : Text → GoError E V
  err_parsing : Text → GoError E V
  err_parsing_inner : Text → GoError E V → GoError E V
  err_unsupported_type : Text → Option V → GoError E V
  foreign_error : E → GoError E V

module _ {E V : Type 0} where
  -- `NewErrVarNotFound`
  abbrev pub new_err_var_not_found : Text → GoError E V
  new_err_var_not_found name = err_var_not_found name

  -- `IsErrVarNotFound`, by the type of the error itself, not of what it wraps.
  abbrev pub is_err_var_not_found : GoError E V → Bool
  is_err_var_not_found (err_var_not_found name) = true
  is_err_var_not_found e = false

  -- `NewErrParsing`
  abbrev pub new_err_parsing : Text → GoError E V
  new_err_parsing name = err_parsing name

  -- `NewErrParsingWrapped`
  abbrev pub new_err_parsing_wrapped : Text → GoError E V → GoError E V
  new_err_parsing_wrapped name wrapped = err_parsing_inner name wrapped

  -- `IsErrParsing`
  abbrev pub is_err_parsing : GoError E V → Bool
  is_err_parsing (err_parsing name) = true
  is_err_parsing (err_parsing_inner name inner) = true
  is_err_parsing e = false

  -- `Unwrap`, which `ErrParsing` alone has: `errors.Unwrap`.
  abbrev pub unwrap : GoError E V → Option (GoError E V)
  unwrap (err_parsing_inner name inner) = some inner
  unwrap e = none

  -- `Wrap` of `ErrParsing`, given the name of the error.
  abbrev pub wrap : Text → GoError E V → GoError E V
  wrap name wrapped = err_parsing_inner name wrapped

  -- `NewErrUnsupportedType`, which leaves the value nil.
  abbrev pub new_err_unsupported_type : Text → GoError E V
  new_err_unsupported_type name = err_unsupported_type name none

  -- `IsErrUnsupportedType`
  abbrev pub is_err_unsupported_type : GoError E V → Bool
  is_err_unsupported_type (err_unsupported_type name v) = true
  is_err_unsupported_type e = false

-- `fmt.Sprintf("%s", reflect.TypeOf(v))`, where the type of nil is nil.
abbrev pub type_text : {V : Type 0} → (V → Text) → Option V → Text
type_text type_of none = bytes "%!s(<nil>)"
type_text type_of (some v) = type_of v

module _ {E V : Type 0} (foreign_text : E → Text) (type_of : V → Text) where
  -- The methods `Error`.
  unfoldable pub error_text : GoError E V → Text
  error_text (err_var_not_found name) = bytes "environment variable not found: " ++ name
  error_text (err_parsing name) = bytes "error parsing environment variable " ++ name
  error_text (err_parsing_inner name inner) =
      bytes "error parsing environment variable " ++ (name ++ (bytes ": " ++ error_text inner))
  error_text (err_unsupported_type name v) = bytes "unsupported type: " ++ type_text type_of v
  error_text (foreign_error e) = foreign_text e

-- The error that `Get` makes, where `number` is what `strconv` makes of a number's error.
unfoldable pub get_error : {E V : Type 0} → (NumError → E) → EnvError E → GoError E V
get_error number (var_not_found name) = new_err_var_not_found name
get_error number (number_parsing name e) = new_err_parsing_wrapped name (foreign_error (number e))
get_error number (other_parsing name e) = new_err_parsing_wrapped name (foreign_error e)
get_error number (unsupported_type name) = new_err_unsupported_type name

module _ (P : Parsers) (V : Type 0) (number : NumError → P.Err) where
  abbrev made : EnvError P.Err → GoError P.Err V
  made e = get_error number e

  -- `GetDefault` answers the default exactly where `IsErrVarNotFound` holds of the error of `Get`,
  -- and what `Get` answers otherwise.
  pub get_default-get :
      (env : Text → Option Text) (name : Text) (kind : Kind) (d : Value P.Float)
      → let (v, e) = get P env name kind in
        get_default P env name kind d ≡ elim e [
          | none ↦ (v, none)
          | some x ↦ if is_err_var_not_found (made x) then (d, none) else (v, some x)
        ]
  unfolding get_default get_error
  get_default-get env name kind d = ground arith
