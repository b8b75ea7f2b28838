-- ===== src/Go/Number.antt =====
-- Package `strconv` and the verb `%d`, in base ten.
pub mod Laws
use shortrack.Base.{ℕ, zero, suc, ◌+◌, ◌-◌, ◌*◌, ◌/◌, ◌%◌, ◌^◌, ◌||◌, [], ◌∷◌, ltb, if◌then◌else◌}
use shortrack.Base.Int.{ℤ, pos, negsuc}
use shortrack.Go.Text.{Text}

-- `strconv.ErrSyntax` and `strconv.ErrRange`.
pub data NumError : Type 0 where
  syntax range : NumError

pub data Parsed (A : Type 0) : Type 0 where
  parsed : A → Parsed A
  bad_number : NumError → Parsed A

-- The digits of `n` in front of `out`, with fuel.
digits : ℕ → ℕ → Text → Text
digits zero n out = out
digits (suc fuel) n out =
    let more = digits fuel (n / 10) ((b'0' + n % 10) ∷ out) in
    if ltb n 10 then (b'0' + n) ∷ out else more

-- `fmt.Sprintf("%d", n)` of an unsigned number.
unfoldable pub format_uint : ℕ → Text
unfolding digits
format_uint n = digits (suc n) n []

-- `fmt.Sprintf("%d", a)` of a signed number.
unfoldable pub format_int : ℤ → Text
unfolding format_uint
format_int (pos n) = format_uint n
format_int (negsuc n) = b'-' ∷ format_uint (suc n)

-- The loop of `strconv.ParseUint`: the range test stops it before a later byte is read.
scan : ℕ → Text → ℕ → Parsed ℕ
scan limit [] n = parsed n
scan limit (c ∷ s) n =
    let n1 = n * 10 + (c - b'0') in
    let more = scan limit s n1 in
    if ltb c b'0' || ltb b'9' c
    then bad_number syntax
    else if ltb n1 limit
    then more
    else bad_number range

-- `strconv.ParseUint(s, 10, size)`
unfoldable pub parse_uint : ℕ → Text → Parsed ℕ
unfolding scan
parse_uint size [] = bad_number syntax
parse_uint size (c ∷ s) = scan (2 ^ size) (c ∷ s) 0
