-- ===== src/Go/Path.antt =====
-- Package `path`: `Join` and the lexical `Clean` that it ends with.
pub mod Names
use mathlib.Core.List.{reverse}
use shortrack.Base.{ℕ, Bool, true, false, List, [], ◌∷◌, ◌++◌, ◌==◌, if◌then◌else◌}
use shortrack.Go.Text.{Text, bytes, text_eq, split}

abbrev pub slash : ℕ
slash = b'/'

-- `strings.Join(parts, "/")`
unfoldable pub intercalate : List Text → Text
intercalate [] = []
intercalate (s ∷ []) = s
intercalate (s ∷ (t ∷ parts)) = s ++ (slash ∷ intercalate (t ∷ parts))

abbrev pub non_empty : List Text → List Text
non_empty [] = []
non_empty ([] ∷ parts) = non_empty parts
non_empty ((c ∷ s) ∷ parts) = (c ∷ s) ∷ non_empty parts

-- A `..` element: it takes back the element before it, if that is no `..` itself.
step_back : Bool → List Text → List Text
step_back true [] = []
step_back false [] = bytes ".." ∷ []
step_back rooted (e ∷ out) = if text_eq e (bytes "..") then bytes ".." ∷ (e ∷ out) else out

-- The elements that are left, the last one first.
resolve : Bool → List Text → List Text → List Text
resolve rooted out [] = out
resolve rooted out (e ∷ rest) =
    resolve rooted
      (if text_eq e []
        then out
        else if text_eq e (bytes ".")
        then out
        else if text_eq e (bytes "..")
        then step_back rooted out
        else e ∷ out)
      rest

or_dot : Text → Text
or_dot [] = bytes "."
or_dot (c ∷ s) = c ∷ s

-- `path.Clean`
unfoldable pub clean : Text → Text
unfolding resolve step_back or_dot intercalate split text_eq bytes
clean [] = bytes "."
clean (c ∷ s) =
    if c == slash
    then slash ∷ intercalate (reverse (resolve true [] (split s slash)))
    else or_dot (intercalate (reverse (resolve false [] (split (c ∷ s) slash))))

-- `path.Join`
unfoldable pub join : List Text → Text
unfolding clean
join parts = elim (non_empty parts) [ [] ↦ [] | e ∷ rest ↦ clean (intercalate (e ∷ rest)) ]
