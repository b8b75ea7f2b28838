-- ===== src/Go/Text/Split.antt =====
-- `strings.Split` of two pieces that do not hold the separator.
use mathlib.Core.List.{reverse, reverse-cons, append-nil, append_assoc}
use shortrack.Base.{List, ℕ, ◌≡◌, ap, ◌∙◌, sym, false, [], ◌∷◌, ◌++◌, ◌==◌, arith}
use shortrack.Go.Text.{Text, split, split_from}

-- The text does not hold the byte.
abbrev pub Lacks : ℕ → Text → Type 0
Lacks sep [] = Unit {0}
Lacks sep (c ∷ s) = ((c == sep) ≡ false) × Lacks sep s

moved_over : (acc : Text) (c : ℕ) (s : Text) → reverse (c ∷ acc) ++ s ≡ reverse acc ++ (c ∷ s)
moved_over acc c s =
    ap (λ (l : Text). l ++ s) (reverse-cons c acc) ∙ append_assoc (reverse acc) (c ∷ []) s

split_from-Lacks :
    (acc : Text) (sep : ℕ) (s : Text) → Lacks sep s → split_from acc sep s ≡ (reverse acc ++ s) ∷ []
unfolding split_from
split_from-Lacks acc sep [] h = ap (λ (l : Text). l ∷ []) (sym (append-nil (reverse acc)))
split_from-Lacks acc sep (c ∷ s) h =
    rw h.0 (split_from-Lacks (c ∷ acc) sep s h.1 ∙ ap (λ (l : Text). l ∷ []) (moved_over acc c s))

split_from_first :
    (acc : Text) (sep : ℕ) (s t : Text)
    → Lacks sep s
    → split_from acc sep (s ++ (sep ∷ t)) ≡ (reverse acc ++ s) ∷ split t sep
unfolding split_from split
split_from_first acc sep [] t h = ground (arith, append-nil (reverse acc))
split_from_first acc sep (c ∷ s) t h = rw h.0 (
    split_from_first (c ∷ acc) sep s t h.1
    ∙ ap (λ (l : Text). l ∷ split_from [] sep t) (moved_over acc c s))

-- The first piece of a text.
pub split_first :
    (sep : ℕ) (s t : Text) → Lacks sep s → split (s ++ (sep ∷ t)) sep ≡ s ∷ split t sep
unfolding split
split_first sep s t h = split_from_first [] sep s t h

-- A text without the separator is one piece.
pub split_one : (sep : ℕ) (s : Text) → Lacks sep s → split s sep ≡ s ∷ []
unfolding split
split_one sep s h = split_from-Lacks [] sep s h

-- Two pieces without the separator are found again.
pub split-Lacks :
    (sep : ℕ) (s t : Text)
    → Lacks sep s
    → Lacks sep t
    → split (s ++ (sep ∷ []) ++ t) sep ≡ s ∷ (t ∷ [])
split-Lacks sep s t h k =
    ap (λ (l : Text). split l sep) (append_assoc s (sep ∷ []) t)
    ∙ split_first sep s t h
    ∙ ap (λ (l : List Text). s ∷ l) (split_one sep t k)

pub Lacks-append : (sep : ℕ) (s t : Text) → Lacks sep s → Lacks sep t → Lacks sep (s ++ t)
Lacks-append sep [] t h k = k
Lacks-append sep (c ∷ s) t h k = (h.0, Lacks-append sep s t h.1 k)
