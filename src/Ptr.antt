-- ===== src/Ptr.antt =====
-- `pkg/ptr/ptr.go`: pointers that are only read, as optional values.
use shortrack.Base.{◌≡◌, refl, Bool, true, false, not, Option, none, some, List, [], ◌∷◌, arith}

module _ {ℓ} {A : Type ℓ} where
  -- `Of`
  abbrev pub of : A → Option A
  of v = some v

  -- `FromDefault`
  abbrev pub from_default : Option A → A → A
  from_default none def = def
  from_default (some v) def = v

  -- `From`, where `zero_value` is the zero value of the type.
  abbrev pub from : A → Option A → A
  from zero_value v = from_default v zero_value

  -- `ToAny`, where `any_of` is the conversion of a value to `any`.
  abbrev pub to_any : {B : Type ℓ} → (A → B) → Option A → Option B
  to_any any_of none = none
  to_any any_of (some a) = some (any_of a)

  -- `SlicesOf`
  unfoldable pub slices_of : List A → List (Option A)
  slices_of [] = []
  slices_of (x ∷ xs) = of x ∷ slices_of xs

  abbrev push : Option A → Option (List A) → Option (List A)
  push none rest = none
  push (some x) none = none
  push (some x) (some xs) = some (x ∷ xs)

  -- `SlicesFrom`, which panics at a nil pointer: the result `none`.
  unfoldable pub slices_from : List (Option A) → Option (List A)
  slices_from [] = some []
  slices_from (x ∷ xs) = push x (slices_from xs)

  -- `SlicesFrom` undoes `SlicesOf`, and does not panic on its result.
  pub slices_from-slices_of : (xs : List A) → slices_from (slices_of xs) ≡ some xs
  unfolding slices_from slices_of
  slices_from-slices_of [] = refl
  slices_from-slices_of (x ∷ xs) = ground (arith, slices_from-slices_of xs)

-- An `any`, as `AnyNonNils` tells them apart: nil, a pointer, slice, map, function, interface or
-- channel, which may be nil, or a value of a kind that has no nil.
pub data AnyValue : Type 0 where
  any_nil any_value : AnyValue
  any_reference : Bool → AnyValue

-- `v != nil && !reflect.ValueOf(v).IsNil()`; `IsNil` panics at a kind without nil: `none`.
abbrev pub non_nil : AnyValue → Option Bool
non_nil any_nil = some false
non_nil any_value = none
non_nil (any_reference is_nil) = some (not is_nil)

-- A round of the loop, `rest` being the rounds after it, which are run where this does not return.
abbrev or_later : Option Bool → Option Bool → Option Bool
or_later none rest = none
or_later (some true) rest = some true
or_later (some false) rest = rest

-- `AnyNonNils`; `none` stands for its panic.
unfoldable pub any_non_nils : List AnyValue → Option Bool
any_non_nils [] = some false
any_non_nils (v ∷ vs) = let rest = any_non_nils vs in or_later (non_nil v) rest
