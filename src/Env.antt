-- ===== src/Env.antt =====
-- `pkg/env/env.go`: typed environment variables. The environment is a function, and the type
-- parameter is one of the types that the switch knows, or another.
pub mod Errors
pub mod Laws
use shortrack.Base.{
  ℕ, suc, ◌-◌, ◌^◌, Bool, true, false, ◌||◌, Option, none, some, List, [], ◌∷◌, ltb, leb,
  if◌then◌else◌, ◌==◌,
}
use shortrack.Base.Int.{ℤ, pos, negsuc}
use shortrack.Go.Text.{Text, bytes, text_eq}
use shortrack.Go.Number.{NumError, syntax, range, Parsed, parsed, bad_number, parse_uint}
use shortrack.Host.{Returned, value, failed}

-- The types that the cases of the switch name, and any other type.
pub data Kind : Type 0 where
  string_kind bool_kind duration_kind other_kind : Kind
  int_kind int8_kind int16_kind int32_kind int64_kind : Kind
  uint_kind uint8_kind uint16_kind uint32_kind uint64_kind : Kind
  float32_kind float64_kind : Kind

-- `strconv.ParseFloat` and `time.ParseDuration`, whose results are only passed on.
pub record Parsers : Type 1 where
  pub Float : Type 0
  pub Err : Type 0
  pub zero_float : Float
  pub parse_float : ℕ → Text → Returned Err Float
  pub parse_duration : Text → Returned Err ℤ

pub data Value (F : Type 0) : Type 0 where
  string_value : Text → Value F
  int_value : ℤ → Value F
  uint_value : ℕ → Value F
  float_value : F → Value F
  bool_value : Bool → Value F
  duration_value : ℤ → Value F
  other_value : Value F

-- `ErrVarNotFound`, `ErrParsing` with its inner error, and `ErrUnsupportedType`.
pub data EnvError (E : Type 0) : Type 0 where
  var_not_found : Text → EnvError E
  number_parsing : Text → NumError → EnvError E
  other_parsing : Text → E → EnvError E
  unsupported_type : Text → EnvError E

-- The size 0 of `strconv` stands for that of `int`.
abbrev pub bit_size : ℕ → ℕ
bit_size n = if n == 0 then 64 else n

-- The number behind a sign, in `strconv.ParseInt`.
abbrev signed : ℕ → Bool → Parsed ℕ → Parsed ℤ
signed size neg (bad_number e) = bad_number e
signed size false (parsed n) = if ltb n (2 ^ (size - 1)) then parsed (pos n) else bad_number range
signed size true (parsed n) =
    if n == 0
    then parsed (pos 0)
    else if leb n (2 ^ (size - 1))
    then parsed (negsuc (n - 1))
    else bad_number range

-- `strconv.ParseInt(s, 10, size)`
unfoldable pub parse_int : ℕ → Text → Parsed ℤ
parse_int size [] = bad_number syntax
parse_int size (c ∷ s) =
    let plain = signed size false (parse_uint size (c ∷ s)) in
    let plus = signed size false (parse_uint size s) in
    let minus = signed size true (parse_uint size s) in
    if c == b'-' then minus else if c == b'+' then plus else plain

-- `strconv.ParseBool`
unfoldable pub parse_bool : Text → Parsed Bool
parse_bool s =
    if text_eq s (bytes "1")
      || text_eq s (bytes "t")
      || text_eq s (bytes "T")
      || text_eq s (bytes "TRUE")
      || text_eq s (bytes "true")
      || text_eq s (bytes "True")
    then parsed true
    else if text_eq s (bytes "0")
        || text_eq s (bytes "f")
        || text_eq s (bytes "F")
        || text_eq s (bytes "FALSE")
        || text_eq s (bytes "false")
        || text_eq s (bytes "False")
    then parsed false
    else bad_number syntax

module _ (P : Parsers) where
  open P use {Float, Err, zero_float, parse_float, parse_duration}

  -- `var value T`
  abbrev pub zero_value : Kind → Value Float
  zero_value string_kind = string_value []
  zero_value bool_kind = bool_value false
  zero_value duration_kind = duration_value (pos 0)
  zero_value other_kind = other_value
  zero_value int_kind = int_value (pos 0)
  zero_value int8_kind = int_value (pos 0)
  zero_value int16_kind = int_value (pos 0)
  zero_value int32_kind = int_value (pos 0)
  zero_value int64_kind = int_value (pos 0)
  zero_value uint_kind = uint_value 0
  zero_value uint8_kind = uint_value 0
  zero_value uint16_kind = uint_value 0
  zero_value uint32_kind = uint_value 0
  zero_value uint64_kind = uint_value 0
  zero_value float32_kind = float_value zero_float
  zero_value float64_kind = float_value zero_float

  -- `if err != nil { return value, NewErrParsingWrapped(name, err) }` and the assignment.
  abbrev numeric :
      {A : Type 0}
      → Text
      → Value Float
      → (A → Value Float)
      → Parsed A
      → Value Float × Option (EnvError Err)
  numeric name zero_of wrap (parsed a) = (wrap a, none)
  numeric name zero_of wrap (bad_number e) = (zero_of, some (number_parsing name e))

  abbrev opaque :
      {A : Type 0}
      → Text
      → Value Float
      → (A → Value Float)
      → Returned Err A
      → Value Float × Option (EnvError Err)
  opaque name zero_of wrap (value a) = (wrap a, none)
  opaque name zero_of wrap (failed e) = (zero_of, some (other_parsing name e))

  -- The switch of `Get`.
  unfoldable pub decode : Text → Kind → Text → Value Float × Option (EnvError Err)
  decode name string_kind raw = (string_value raw, none)
  decode name bool_kind raw = numeric name (zero_value bool_kind) bool_value (parse_bool raw)
  decode name duration_kind raw =
      opaque name (zero_value duration_kind) duration_value (parse_duration raw)
  decode name other_kind raw = (other_value, some (unsupported_type name))
  decode name int_kind raw =
      numeric name (zero_value int_kind) int_value (parse_int (bit_size 0) raw)
  decode name int8_kind raw = numeric name (zero_value int8_kind) int_value (parse_int 8 raw)
  decode name int16_kind raw = numeric name (zero_value int16_kind) int_value (parse_int 16 raw)
  decode name int32_kind raw = numeric name (zero_value int32_kind) int_value (parse_int 32 raw)
  decode name int64_kind raw = numeric name (zero_value int64_kind) int_value (parse_int 64 raw)
  decode name uint8_kind raw = numeric name (zero_value uint8_kind) uint_value (parse_uint 8 raw)
  decode name uint16_kind raw = numeric name (zero_value uint16_kind) uint_value (parse_uint 16 raw)
  decode name uint32_kind raw = numeric name (zero_value uint32_kind) uint_value (parse_uint 32 raw)
  decode name uint64_kind raw = numeric name (zero_value uint64_kind) uint_value (parse_uint 64 raw)
  decode name uint_kind raw =
      numeric name (zero_value uint_kind) uint_value (parse_uint (bit_size 0) raw)
  decode name float32_kind raw =
      opaque name (zero_value float32_kind) float_value (parse_float 32 raw)
  decode name float64_kind raw =
      opaque name (zero_value float64_kind) float_value (parse_float 64 raw)

  -- `Get`, where `env` is `os.LookupEnv`.
  unfoldable pub get : (Text → Option Text) → Text → Kind → Value Float × Option (EnvError Err)
  unfolding decode
  get env name kind = elim (env name) [
    | none ↦ (zero_value kind, some (var_not_found name))
    | some raw ↦ decode name kind raw
  ]

  abbrev or_panic : Value Float × Option (EnvError Err) → Option (Value Float)
  or_panic (v, none) = some v
  or_panic (v, some e) = none

  -- `MustGet`; `none` stands for its panic.
  unfoldable pub must_get : (Text → Option Text) → Text → Kind → Option (Value Float)
  must_get env name kind = or_panic (get env name kind)

  abbrev default_of :
      Value Float → Value Float × Option (EnvError Err) → Value Float × Option (EnvError Err)
  default_of d (v, none) = (v, none)
  default_of d (v, some (var_not_found n)) = (d, none)
  default_of d (v, some (number_parsing n e)) = (v, some (number_parsing n e))
  default_of d (v, some (other_parsing n e)) = (v, some (other_parsing n e))
  default_of d (v, some (unsupported_type n)) = (v, some (unsupported_type n))

  -- `GetDefault`
  unfoldable pub get_default :
      (Text → Option Text) → Text → Kind → Value Float → Value Float × Option (EnvError Err)
  get_default env name kind d = default_of d (get env name kind)

  abbrev must_default_of : Value Float → Value Float × Option (EnvError Err) → Value Float
  must_default_of d (v, none) = v
  must_default_of d (v, some e) = d

  -- `MustGetDefault`
  unfoldable pub must_get_default : (Text → Option Text) → Text → Kind → Value Float → Value Float
  must_get_default env name kind d = must_default_of d (get env name kind)
