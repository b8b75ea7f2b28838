-- ===== src/Go/Text/Laws.antt =====
-- Prefixes of texts.
use shortrack.Base.{inl, inr, Option-cases, ◌≡◌, refl, true, some, [], ◌∷◌, ◌++◌, arith}
use shortrack.Go.Text.{Text, cut_prefix, has_prefix, trim_prefix}

cut_prefix-append : (p s : Text) → cut_prefix (p ++ s) p ≡ some s
unfolding cut_prefix
cut_prefix-append [] [] = refl
cut_prefix-append [] (c ∷ s) = refl
cut_prefix-append (c ∷ p) s = ground (arith, cut_prefix-append p s)

pub has_prefix-append : (p s : Text) → has_prefix (p ++ s) p ≡ true
unfolding has_prefix
has_prefix-append p s = ground (arith, cut_prefix-append p s)

pub trim_prefix-append : (p s : Text) → trim_prefix (p ++ s) p ≡ s
unfolding trim_prefix
trim_prefix-append p s = ground (arith, cut_prefix-append p s)

cut_prefix-eq_some : (s p t : Text) → cut_prefix s p ≡ some t → p ++ t ≡ s
unfolding cut_prefix
cut_prefix-eq_some [] [] t h = ground arith
cut_prefix-eq_some (c ∷ s) [] t h = ground arith
cut_prefix-eq_some [] (d ∷ p) t h = cc
cut_prefix-eq_some (c ∷ s) (d ∷ p) t h = ground (arith, cut_prefix-eq_some s p t)

-- A text that has the prefix is the prefix and what `TrimPrefix` leaves.
pub append-trim_prefix : (s p : Text) → has_prefix s p ≡ true → p ++ trim_prefix s p ≡ s
unfolding has_prefix trim_prefix
append-trim_prefix s p h = elim (Option-cases (cut_prefix s p)) [
  | inl absent ↦ ground arith
  | inr (t, e) ↦ rw (e, trim_prefix) (cut_prefix-eq_some s p t e)
]
