-- ===== src/Env/Laws.antt =====
-- What `Get`, `GetDefault` and `MustGetDefault` answer.
use native.Mathlib.Nat.{one-le-pow}
use shortrack.Base.{
  ap, refl, inl, ℕ, suc, ◌≡◌, ◌<◌, ◌-◌, ◌*◌, ◌^◌, [], ◌∷◌, Option, none, some, arith,
}
use shortrack.Go.Text.{Text}
use shortrack.Base.Int.{ℤ, pos, negsuc, pos_part}
use shortrack.Go.Text.Split.{Lacks}
use shortrack.Go.Number.{parsed, parse_uint, format_uint, format_int}
use shortrack.Go.Number.Laws.{parse_uint-format_uint, format_uint-Lacks}
use shortrack.Env.{
  decode, string_kind, bool_kind, duration_kind, other_kind, float32_kind, float64_kind, parse_int,
  other_value, int_value, Parsers, Kind, Value, int_kind, int8_kind, int16_kind, int32_kind,
  int64_kind, uint_kind, uint8_kind, uint16_kind, uint32_kind, uint64_kind, uint_value, get,
  get_default, must_get, must_get_default,
}

-- The values of a signed and of an unsigned type of so many bits.
abbrev pub Signed : ℕ → ℤ → Type 0
Signed bits (pos n) = n < 2 ^ (bits - 1)
Signed bits (negsuc n) = n < 2 ^ (bits - 1)

abbrev pub Unsigned : ℕ → ℤ → Type 0
Unsigned bits (pos n) = n < 2 ^ bits
Unsigned bits (negsuc n) = ⊥

-- The values of Go's integer types, where `int` and `uint` have 64 bits.
abbrev pub InType : Kind → ℤ → Type 0
InType int_kind z = Signed 64 z
InType int8_kind z = Signed 8 z
InType int16_kind z = Signed 16 z
InType int32_kind z = Signed 32 z
InType int64_kind z = Signed 64 z
InType uint_kind z = Unsigned 64 z
InType uint8_kind z = Unsigned 8 z
InType uint16_kind z = Unsigned 16 z
InType uint32_kind z = Unsigned 32 z
InType uint64_kind z = Unsigned 64 z
InType _ z = ⊥

abbrev pub integer_value : {F : Type 0} → Kind → ℤ → Value F
integer_value int_kind z = int_value z
integer_value int8_kind z = int_value z
integer_value int16_kind z = int_value z
integer_value int32_kind z = int_value z
integer_value int64_kind z = int_value z
integer_value uint_kind z = uint_value (pos_part z)
integer_value uint8_kind z = uint_value (pos_part z)
integer_value uint16_kind z = uint_value (pos_part z)
integer_value uint32_kind z = uint_value (pos_part z)
integer_value uint64_kind z = uint_value (pos_part z)
integer_value _ z = other_value

-- A text whose first byte is no sign is read as a number without one.
parse_int-plain :
    (bits : ℕ) (s : Text) (n : ℕ)
    → Lacks b'-' s
    → Lacks b'+' s
    → parse_uint bits s ≡ parsed n
    → n < 2 ^ (bits - 1)
    → parse_int bits s ≡ parsed (pos n)
unfolding parse_int parse_uint
parse_int-plain bits [] n m p e fits = ground arith
parse_int-plain bits (c ∷ s) n m p e fits = ground arith

parse_int-minus :
    (bits : ℕ) (s : Text) (n : ℕ)
    → parse_uint bits s ≡ parsed (suc n)
    → n < 2 ^ (bits - 1)
    → parse_int bits (b'-' ∷ s) ≡ parsed (negsuc n)
unfolding parse_int parse_uint
parse_int-minus bits s n e fits = ground arith

format_int-pos : (n : ℕ) → format_int (pos n) ≡ format_uint n
unfolding format_int
format_int-pos n = refl

format_int-negsuc : (n : ℕ) → format_int (negsuc n) ≡ b'-' ∷ format_uint (suc n)
unfolding format_int
format_int-negsuc n = refl

two_pow : (k : ℕ) → 2 ^ suc k ≡ 2 * 2 ^ k
two_pow k = ground arith

below_double : (k n : ℕ) → n < 2 ^ (suc k - 1) → suc n < 2 ^ suc k
below_double k n fits =
    let less : suc k - 1 ≡ k = omega arith in
    let same : 2 ^ (suc k - 1) ≡ 2 ^ k = ap (λ m. 2 ^ m) less in
    omega (arith, two_pow k, fits, same, one-le-pow k 2 (omega arith))

parse_int-format_int :
    (k : ℕ) (z : ℤ) → Signed (suc k) z → parse_int (suc k) (format_int z) ≡ parsed z
parse_int-format_int k (pos n) fits =
    let small : n < 2 ^ suc k = omega (arith, below_double k n fits) in
    rw (format_int-pos n) (
      parse_int-plain (suc k) (format_uint n) n (format_uint-Lacks b'-' n (inl (omega arith)))
        (format_uint-Lacks b'+' n (inl (omega arith))) (parse_uint-format_uint (suc k) n small)
        fits)
parse_int-format_int k (negsuc n) fits =
    let small : suc n < 2 ^ suc k = below_double k n fits in
    rw (format_int-negsuc n) (
      parse_int-minus (suc k) (format_uint (suc n)) n (parse_uint-format_uint (suc k) (suc n) small)
        fits)

parse_uint-format_int :
    (bits n : ℕ) → n < 2 ^ bits → parse_uint bits (format_int (pos n)) ≡ parsed n
parse_uint-format_int bits n fits = rw (format_int-pos n) (parse_uint-format_uint bits n fits)

module _ (P : Parsers) where
  get-raw :
      (env : Text → Option Text) (name raw : Text) (kind : Kind) (d v : Value P.Float)
      → env name ≡ some raw
      → decode P name kind raw ≡ (v, none)
      → (get P env name kind ≡ (v, none)) × (get_default P env name kind d ≡ (v, none))
  unfolding get get_default
  get-raw env name raw kind d v held read = ground arith

  decode-format_int :
      (name : Text) (kind : Kind) (z : ℤ)
      → InType kind z
      → decode P name kind (format_int z) ≡ (integer_value kind z, none)
  unfolding decode
  decode-format_int name int_kind z fits = ground (arith, parse_int-format_int 63 z fits)
  decode-format_int name int8_kind z fits = ground (arith, parse_int-format_int 7 z fits)
  decode-format_int name int16_kind z fits = ground (arith, parse_int-format_int 15 z fits)
  decode-format_int name int32_kind z fits = ground (arith, parse_int-format_int 31 z fits)
  decode-format_int name int64_kind z fits = ground (arith, parse_int-format_int 63 z fits)
  decode-format_int name uint_kind (pos n) fits = ground (arith, parse_uint-format_int 64 n fits)
  decode-format_int name uint_kind (negsuc n) fits = absurd fits
  decode-format_int name uint8_kind (pos n) fits = ground (arith, parse_uint-format_int 8 n fits)
  decode-format_int name uint8_kind (negsuc n) fits = absurd fits
  decode-format_int name uint16_kind (pos n) fits = ground (arith, parse_uint-format_int 16 n fits)
  decode-format_int name uint16_kind (negsuc n) fits = absurd fits
  decode-format_int name uint32_kind (pos n) fits = ground (arith, parse_uint-format_int 32 n fits)
  decode-format_int name uint32_kind (negsuc n) fits = absurd fits
  decode-format_int name uint64_kind (pos n) fits = ground (arith, parse_uint-format_int 64 n fits)
  decode-format_int name uint64_kind (negsuc n) fits = absurd fits
  decode-format_int name string_kind z fits = absurd fits
  decode-format_int name bool_kind z fits = absurd fits
  decode-format_int name duration_kind z fits = absurd fits
  decode-format_int name other_kind z fits = absurd fits
  decode-format_int name float32_kind z fits = absurd fits
  decode-format_int name float64_kind z fits = absurd fits

  -- A variable that holds a value of one of Go's ten integer types in decimal, with a minus sign
  -- where it is negative, is read with that value at that type by `Get` and by `GetDefault`.
  pub get-format_int :
      (env : Text → Option Text) (name : Text) (kind : Kind) (z : ℤ) (d : Value P.Float)
      → env name ≡ some (format_int z)
      → InType kind z
      → (get P env name kind ≡ (integer_value kind z, none))
        × (get_default P env name kind d ≡ (integer_value kind z, none))
  get-format_int env name kind z d held fits =
      get-raw env name (format_int z) kind d (integer_value kind z) held
        (decode-format_int name kind z fits)

  -- `MustGetDefault` answers what `GetDefault` answers where that returns no error, and the default
  -- where `GetDefault` returns an error: a value that does not parse is silently replaced.
  pub must_get_default-get_default :
      (env : Text → Option Text) (name : Text) (kind : Kind) (d : Value P.Float)
      → let (v, e) = get_default P env name kind d in
        must_get_default P env name kind d ≡ elim e [ none ↦ v | some _ ↦ d ]
  unfolding get_default must_get_default
  must_get_default-get_default env name kind d = ground arith

  -- Where `MustGet` returns, whatever the default, `GetDefault` and `MustGetDefault` give the same
  -- value, without error; so does `Get`.
  pub get_default-must_get :
      (env : Text → Option Text) (name : Text) (kind : Kind) (v d : Value P.Float)
      → must_get P env name kind ≡ some v
      → (get P env name kind ≡ (v, none))
        × (get_default P env name kind d ≡ (v, none))
        × (must_get_default P env name kind d ≡ v)
  unfolding get_default must_get_default must_get
  get_default-must_get env name kind v d returned = ground arith
