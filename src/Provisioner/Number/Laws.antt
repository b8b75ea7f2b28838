-- ===== src/Provisioner/Number/Laws.antt =====
-- `ParseNumber` repeats the switch of `env.Get`.
use shortrack.Base.{◌≡◌, Option, none, some, arith}
use shortrack.Go.Text.{Text}
use shortrack.Env.{
  Parsers, Kind, string_kind, bool_kind, duration_kind, other_kind, int_kind, int8_kind, int16_kind,
  int32_kind, int64_kind, uint8_kind, uint16_kind, uint32_kind, uint64_kind, uint_kind,
  float32_kind, float64_kind, EnvError, number_parsing, other_parsing, unsupported_type, get,
}
use shortrack.Provisioner.Number.{NumberError, not_parsed, float_error, unsupported, parse_number}

-- The types that both switches know, and those that neither does.
abbrev pub IsShared : Kind → Type 0
IsShared string_kind = ⊥
IsShared bool_kind = ⊥
IsShared duration_kind = ⊥
IsShared other_kind = Unit
IsShared int_kind = Unit
IsShared int8_kind = Unit
IsShared int16_kind = Unit
IsShared int32_kind = Unit
IsShared int64_kind = Unit
IsShared uint8_kind = Unit
IsShared uint16_kind = Unit
IsShared uint32_kind = Unit
IsShared uint64_kind = Unit
IsShared uint_kind = Unit
IsShared float32_kind = Unit
IsShared float64_kind = Unit

abbrev pub in_variable : {E : Type 0} → Text → Option (NumberError E) → Option (EnvError E)
in_variable name none = none
in_variable name (some (not_parsed e)) = some (number_parsing name e)
in_variable name (some (float_error e)) = some (other_parsing name e)
in_variable name (some unsupported) = some (unsupported_type name)

module _ (P : Parsers) where
  -- At every number type and at every unknown type, `env.Get` of a variable that is set answers
  -- what `ParseNumber` answers for its text: the same value, and the same error under the
  -- variable's name.
  pub get-parse_number :
      (env : Text → Option Text) (name raw : Text) (kind : Kind)
      → IsShared kind
      → env name ≡ some raw
      → let (v, e) = parse_number P kind raw in get P env name kind ≡ (v, in_variable name e)
  unfolding get parse_number
  get-parse_number env name raw string_kind known set = absurd known
  get-parse_number env name raw bool_kind known set = absurd known
  get-parse_number env name raw duration_kind known set = absurd known
  get-parse_number env name raw other_kind known set = ground arith
  get-parse_number env name raw int_kind known set = ground arith
  get-parse_number env name raw int8_kind known set = ground arith
  get-parse_number env name raw int16_kind known set = ground arith
  get-parse_number env name raw int32_kind known set = ground arith
  get-parse_number env name raw int64_kind known set = ground arith
  get-parse_number env name raw uint8_kind known set = ground arith
  get-parse_number env name raw uint16_kind known set = ground arith
  get-parse_number env name raw uint32_kind known set = ground arith
  get-parse_number env name raw uint64_kind known set = ground arith
  get-parse_number env name raw uint_kind known set = ground arith
  get-parse_number env name raw float32_kind known set = ground arith
  get-parse_number env name raw float64_kind known set = ground arith
