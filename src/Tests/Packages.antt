-- ===== src/Tests/Packages.antt =====
-- Tests of the packages `env` and `ptr`.
use shortrack.Base.{ℕ, ◌≡◌, refl, Option, none, some, List, [], ◌∷◌, arith}
use shortrack.Go.Text.{Text, bytes}
use shortrack.Base.Int.{pos, negsuc}
use shortrack.Go.Number.{format_uint, format_int}
use shortrack.Host.{failed}
use shortrack.Env.{
  Parsers, int8_kind, int_value, string_kind, string_value, get, get_default, must_get,
}
use shortrack.Env.Laws.{get-format_int}
use shortrack.Env.Errors.{error_text, new_err_unsupported_type}
use shortrack.Ptr.{slices_of, slices_from, any_nil, any_value, any_non_nils}

abbrev pub no_parsers : Parsers
no_parsers = record {
  Float = Unit {0};
  Err = Unit {0};
  zero_float = tt;
  parse_float = λ size raw. failed tt;
  parse_duration = λ raw. failed tt;
}

-- Every variable holds the digits of 80.
abbrev pub environment : Text → Option Text
environment name = some (format_uint 80)

-- Every variable holds "-128", the least `int8`.
abbrev pub least : Text → Option Text
least name = some (format_int (negsuc 127))

get-format_int_example :
    (get no_parsers least (bytes "PORT") int8_kind ≡ (int_value (negsuc 127), none))
    × (get_default no_parsers least (bytes "PORT") int8_kind (int_value (pos 1))
        ≡ (int_value (negsuc 127), none))
get-format_int_example =
    get-format_int no_parsers least (bytes "PORT") int8_kind (negsuc 127) (int_value (pos 1)) refl
      (omega arith)

eighty_returned :
    must_get no_parsers environment [] string_kind ≡ some (string_value (format_uint 80))
unfolding must_get get
eighty_returned = refl

abbrev two_numbers : List ℕ
two_numbers = 3 ∷ (5 ∷ [])

two_numbers_back : slices_from (slices_of two_numbers) ≡ some two_numbers
unfolding slices_from slices_of
two_numbers_back = refl

-- The error of an unsupported type has no value, so that its text names no type.
unsupported_text :
    error_text
      (λ (e : Unit {0}). [])
      (λ (v : Unit {0}). [])
      (new_err_unsupported_type (bytes "PORT"))
    ≡ bytes "unsupported type: %!s(<nil>)"
unfolding error_text bytes
unsupported_text = refl

-- `AnyNonNils` panics at a number that no non-nil pointer stands before.
number_panics : any_non_nils (any_nil ∷ (any_value ∷ [])) ≡ none
unfolding any_non_nils
number_panics = refl
