-- ===== src/Go/Number/Laws.antt =====
-- `ParseUint` reads what `%d` prints, and returns only what fits.
use shortrack.Base.{
  ◌⊎◌, ℕ, zero, suc, ◌+◌, ◌-◌, ◌*◌, ◌/◌, ◌%◌, ◌^◌, ◌<◌, ◌≡◌, ◌≢◌, refl, ap, ◌∙◌, [], ◌∷◌, arith,
  ltb, Bool-cases, inl, inr,
}
use native.Mathlib.Nat.{one-le-pow}
use shortrack.Go.Text.{Text}
use shortrack.Go.Text.Split.{Lacks}
use shortrack.Go.Number.{parsed, digits, scan, format_uint, parse_uint}

scan-digit :
    (limit : ℕ) (d : ℕ) (s : Text) (n : ℕ)
    → d < 10
    → n * 10 + d < limit
    → scan limit ((b'0' + d) ∷ s) n ≡ scan limit s (n * 10 + d)
unfolding scan
scan-digit limit d s n small fits = let e : b'0' + d - b'0' ≡ d = omega arith in ground (arith, e)

scan-digits :
    (limit fuel n : ℕ) (out : Text)
    → n < fuel
    → n < limit
    → scan limit (digits fuel n out) 0 ≡ scan limit out n
unfolding digits
scan-digits limit zero n out enough fits = absurd (omega arith)
scan-digits limit (suc fuel) n out enough fits = elim (Bool-cases (ltb n 10)) [
  | inl one ↦ rw one (
      scan-digit limit n out 0 (ground arith) (omega arith)
      ∙ ap (λ k. scan limit out k) (omega arith))
  | inr more ↦ rw more (
      scan-digits limit fuel (n / 10) _ (ground arith) (ground arith)
      ∙ scan-digit limit (n % 10) out (n / 10) (omega arith) (omega arith)
      ∙ ap (λ k. scan limit out k) (omega arith))
]

digits-ne-nil : (fuel n : ℕ) (out : Text) → out ≢ [] → digits fuel n out ≢ []
unfolding digits
digits-ne-nil zero n out h = h
digits-ne-nil (suc fuel) n out h =
    ground (arith, digits-ne-nil fuel (n / 10) ((b'0' + n % 10) ∷ out))

parse_uint_of_ne_nil : (size : ℕ) (s : Text) → s ≢ [] → parse_uint size s ≡ scan (2 ^ size) s 0
unfolding parse_uint
parse_uint_of_ne_nil size [] h = absurd (h refl)
parse_uint_of_ne_nil size (c ∷ s) h = refl

digits_ne_nil : (fuel n : ℕ) → digits (suc fuel) n [] ≢ []
unfolding digits
digits_ne_nil fuel n = ground (arith, digits-ne-nil fuel (n / 10) ((b'0' + n % 10) ∷ []))

scan-nil : (limit n : ℕ) → scan limit [] n ≡ parsed n
unfolding scan
scan-nil limit n = refl

-- A number that fits the size is read back from its decimal digits.
pub parse_uint-format_uint :
    (size n : ℕ) → n < 2 ^ size → parse_uint size (format_uint n) ≡ parsed n
unfolding format_uint
parse_uint-format_uint size n fits =
    parse_uint_of_ne_nil size (digits (suc n) n []) (digits_ne_nil n n)
    ∙ scan-digits (2 ^ size) (suc n) n [] (omega arith) fits
    ∙ scan-nil (2 ^ size) n

scan_small : (limit : ℕ) (s : Text) (n m : ℕ) → n < limit → scan limit s n ≡ parsed m → m < limit
unfolding scan
scan_small limit [] n m lt h = ground arith
scan_small limit (c ∷ s) n m lt h = ground (arith, scan_small limit s (n * 10 + (c - b'0')) m)

-- Only numbers below 2 ^ size are returned.
pub parse_uint_small : (size : ℕ) (s : Text) (n : ℕ) → parse_uint size s ≡ parsed n → n < 2 ^ size
unfolding parse_uint
parse_uint_small size [] n h = cc
parse_uint_small size (c ∷ s) n h =
    scan_small (2 ^ size) (c ∷ s) 0 n (one-le-pow size 2 (omega arith)) h

pub format_uint-ne-nil : (n : ℕ) → format_uint n ≢ []
unfolding format_uint
format_uint-ne-nil n = digits_ne_nil n n

-- The byte is no digit.
abbrev pub NonDigit : ℕ → Type 0
NonDigit c = (c < b'0') ⊎ (b'9' < c)

digits-Lacks :
    (sep fuel n : ℕ) (out : Text) → NonDigit sep → Lacks sep out → Lacks sep (digits fuel n out)
unfolding digits
digits-Lacks sep zero n out other h = h
digits-Lacks sep (suc fuel) n out other h =
    let rest = digits-Lacks sep fuel (n / 10) ((b'0' + n % 10) ∷ out) other in ground arith

-- Only digits are printed.
pub format_uint-Lacks : (sep n : ℕ) → NonDigit sep → Lacks sep (format_uint n)
unfolding format_uint
format_uint-Lacks sep n other = digits-Lacks sep (suc n) n [] other tt
