-- ===== src/Provisioner/Number.antt =====
-- `ParseNumber`.
pub mod Laws
use shortrack.Base.{ℕ, Option, none, some, []}
use shortrack.Base.Int.{pos}
use shortrack.Go.Text.{Text}
use shortrack.Go.Number.{NumError, Parsed, parsed, bad_number, parse_uint}
use shortrack.Host.{Returned, value, failed}
use shortrack.Env.{
  Parsers, Kind, string_kind, bool_kind, duration_kind, other_kind, int_kind, int8_kind, int16_kind,
  int32_kind, int64_kind, uint8_kind, uint16_kind, uint32_kind, uint64_kind, uint_kind,
  float32_kind, float64_kind, Value, int_value, uint_value, float_value, zero_value, bit_size,
  parse_int,
}

pub data NumberError (E : Type 0) : Type 0 where
  not_parsed : NumError → NumberError E
  float_error : E → NumberError E
  unsupported : NumberError E

module _ (P : Parsers) where
  open P use {Float, Err, parse_float}

  -- `if err != nil { return value, err }` and the assignment.
  abbrev stored :
      {A : Type 0}
      → Value Float
      → (A → Value Float)
      → Parsed A
      → Value Float × Option (NumberError Err)
  stored zero_of wrap (parsed a) = (wrap a, none)
  stored zero_of wrap (bad_number e) = (zero_of, some (not_parsed e))

  abbrev stored_float : Value Float → Returned Err Float → Value Float × Option (NumberError Err)
  stored_float zero_of (value f) = (float_value f, none)
  stored_float zero_of (failed e) = (zero_of, some (float_error e))

  -- `ParseNumber[T]`, with the type `T` as in `Env`: its switch has the number types alone.
  unfoldable pub parse_number : Kind → Text → Value Float × Option (NumberError Err)
  parse_number string_kind raw = (zero_value P string_kind, some unsupported)
  parse_number bool_kind raw = (zero_value P bool_kind, some unsupported)
  parse_number duration_kind raw = (zero_value P duration_kind, some unsupported)
  parse_number other_kind raw = (zero_value P other_kind, some unsupported)
  parse_number int_kind raw = stored (zero_value P int_kind) int_value (parse_int (bit_size 0) raw)
  parse_number int8_kind raw = stored (zero_value P int8_kind) int_value (parse_int 8 raw)
  parse_number int16_kind raw = stored (zero_value P int16_kind) int_value (parse_int 16 raw)
  parse_number int32_kind raw = stored (zero_value P int32_kind) int_value (parse_int 32 raw)
  parse_number int64_kind raw = stored (zero_value P int64_kind) int_value (parse_int 64 raw)
  parse_number uint8_kind raw = stored (zero_value P uint8_kind) uint_value (parse_uint 8 raw)
  parse_number uint16_kind raw = stored (zero_value P uint16_kind) uint_value (parse_uint 16 raw)
  parse_number uint32_kind raw = stored (zero_value P uint32_kind) uint_value (parse_uint 32 raw)
  parse_number uint64_kind raw = stored (zero_value P uint64_kind) uint_value (parse_uint 64 raw)
  parse_number uint_kind raw =
      stored (zero_value P uint_kind) uint_value (parse_uint (bit_size 0) raw)
  parse_number float32_kind raw = stored_float (zero_value P float32_kind) (parse_float 32 raw)
  parse_number float64_kind raw = stored_float (zero_value P float64_kind) (parse_float 64 raw)
