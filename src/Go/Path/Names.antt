-- ===== src/Go/Path/Names.antt =====
-- `path.Join` where the elements are names of directory entries: it puts slashes between them.
use mathlib.Core.List.{reverse, reverse-cons, reverse-reverse, append-nil, append_assoc}
use shortrack.Base.{
  ℕ, ◌≡◌, ◌≢◌, refl, ap, subst, ◌∙◌, sym, Bool, true, false, not, ◌&&◌, List, [], ◌∷◌, ◌++◌, ◌==◌,
  arith,
}
use shortrack.Go.Text.{Text, bytes, text_eq, split}
use shortrack.Go.Text.Split.{Lacks, split_one, split_first, Lacks-append}
use shortrack.Go.Path.{slash, intercalate, non_empty, resolve, clean, join}

-- A name that an entry of a directory can have: it is not empty, neither `.` nor `..`, and holds no
-- slash.
pub record IsName (s : Text) : Type 0 where
  pub given : s ≢ []
  pub plain : Lacks slash s
  pub no_dot : text_eq s (bytes ".") ≡ false
  pub no_dots : text_eq s (bytes "..") ≡ false

abbrev lacks : ℕ → Text → Bool
lacks sep [] = true
lacks sep (c ∷ s) = not (c == sep) && lacks sep s

abbrev pub is_name : Text → Bool
is_name s =
    not (text_eq s [])
    && (lacks slash s && (not (text_eq s (bytes ".")) && not (text_eq s (bytes ".."))))

lacks-Lacks : (sep : ℕ) (s : Text) → lacks sep s ≡ true → Lacks sep s
lacks-Lacks sep [] h = tt
lacks-Lacks sep (c ∷ s) h = ground (arith, lacks-Lacks sep s)

nil_eq : text_eq [] [] ≡ true
unfolding text_eq
nil_eq = refl

pub is_name-IsName : (s : Text) → is_name s ≡ true → IsName s
is_name-IsName s h = record {
  given = λ e. absurd (ground (arith, nil_eq));
  plain = lacks-Lacks slash s (ground arith);
  no_dot = ground arith;
  no_dots = ground arith;
}

-- What stands behind a prefix that does not begin with a dot.
pub prefixed-IsName :
    (c : ℕ) (prefix s : Text)
    → (c == b'.') ≡ false
    → Lacks slash (c ∷ prefix)
    → Lacks slash s
    → IsName ((c ∷ prefix) ++ s)
unfolding text_eq bytes
prefixed-IsName c prefix s plain_first h k = record {
  given = λ e. absurd (ground arith);
  plain = (h.0, Lacks-append slash prefix s h.1 k);
  no_dot = ground arith;
  no_dots = ground arith;
}

abbrev pub AreNames : List Text → Type 0
AreNames [] = Unit {0}
AreNames (s ∷ names) = IsName s × AreNames names

pub AreNames-append : (ms ns : List Text) → AreNames ms → AreNames ns → AreNames (ms ++ ns)
AreNames-append [] ns h k = k
AreNames-append (m ∷ ms) ns h k = (h.0, AreNames-append ms ns h.1 k)

-- The absolute path of these names.
abbrev pub rooted : List Text → Text
rooted names = slash ∷ intercalate names

text_eq-nil : (s : Text) → s ≢ [] → text_eq s [] ≡ false
unfolding text_eq
text_eq-nil [] h = absurd (h refl)
text_eq-nil (c ∷ s) h = refl

split-intercalate :
    (n : Text) (names : List Text)
    → AreNames (n ∷ names)
    → split (intercalate (n ∷ names)) slash ≡ n ∷ names
unfolding intercalate
split-intercalate n [] h = split_one slash n h.0.plain
split-intercalate n (m ∷ names) h =
    split_first slash n (intercalate (m ∷ names)) h.0.plain
    ∙ ap (λ (l : List Text). n ∷ l) (split-intercalate m names h.1)

resolve-names :
    (names out : List Text) → AreNames names → resolve true out names ≡ reverse names ++ out
unfolding resolve
resolve-names [] out h = refl
resolve-names (n ∷ names) out h =
    rw (text_eq-nil n h.0.given, h.0.no_dot, h.0.no_dots)
      (resolve-names names (n ∷ out) h.1
        ∙ sym (append_assoc (reverse names) (n ∷ []) out)
        ∙ ap (λ (l : List Text). l ++ out) (sym (reverse-cons n names)))

non_empty-names : (names : List Text) → AreNames names → non_empty names ≡ names
non_empty-names [] h = refl
non_empty-names ([] ∷ names) h = absurd (h.0.given refl)
non_empty-names ((c ∷ s) ∷ names) h =
    ap (λ (l : List Text). (c ∷ s) ∷ l) (non_empty-names names h.1)

intercalate-append :
    (n : Text) (ms : List Text) (m : Text) (names : List Text)
    → intercalate (n ∷ ms) ++ (slash ∷ intercalate (m ∷ names))
      ≡ intercalate ((n ∷ ms) ++ (m ∷ names))
unfolding intercalate
intercalate-append n [] m names = refl
intercalate-append n (k ∷ ms) m names =
    append_assoc n (slash ∷ intercalate (k ∷ ms)) (slash ∷ intercalate (m ∷ names))
    ∙ ap (λ (l : Text). n ++ (slash ∷ l)) (intercalate-append k ms m names)

clean-rooted :
    (n : Text) (names : List Text)
    → AreNames (n ∷ names)
    → clean (rooted (n ∷ names)) ≡ rooted (n ∷ names)
unfolding clean
clean-rooted n names h =
    rw (split-intercalate n names h, resolve-names (n ∷ names) [] h)
      (ap (λ l. slash ∷ intercalate l)
        (ap reverse (append-nil (reverse (n ∷ names))) ∙ reverse-reverse (n ∷ names)))

-- Names that are joined to an absolute path of names are put behind it.
pub join-rooted :
    (n : Text) (ms names : List Text)
    → AreNames (n ∷ ms)
    → AreNames names
    → join (rooted (n ∷ ms) ∷ names) ≡ rooted ((n ∷ ms) ++ names)
unfolding join
join-rooted n ms [] h k = clean-rooted n ms h ∙ ap rooted (sym (append-nil (n ∷ ms)))
join-rooted n ms (m ∷ names) h k = rw (non_empty-names (m ∷ names) k) (
    ap (λ l. clean (slash ∷ l)) (intercalate-append n ms m names)
    ∙ clean-rooted n (ms ++ (m ∷ names)) (AreNames-append (n ∷ ms) (m ∷ names) h k))

-- What lies below the directory that these names lead to from the root, and that directory: the
-- names behind it are those of entries, so that none leads back.
pub data IsBelow (base : List Text) : Text → Type 0 where
  below : (names : List Text) → AreNames names → IsBelow base (rooted (base ++ names))

pub IsBelow-base : (base : List Text) (path : Text) → path ≡ rooted base → IsBelow base path
IsBelow-base base path e =
    subst (IsBelow base) (ap rooted (append-nil base) ∙ sym e) (IsBelow.below [] tt)

-- Names joined to a path below the directory lead to a path below it.
pub IsBelow-join :
    (n : Text) (ms names : List Text) {path : Text}
    → AreNames (n ∷ ms)
    → AreNames names
    → IsBelow (n ∷ ms) path
    → IsBelow (n ∷ ms) (join (path ∷ names))
IsBelow-join n ms names h k (below ks j) =
    subst (IsBelow (n ∷ ms))
      (ap rooted (sym (append_assoc (n ∷ ms) ks names))
        ∙ sym (join-rooted n (ms ++ ks) names (AreNames-append (n ∷ ms) ks h j) k))
      (IsBelow.below (ks ++ names) (AreNames-append ks names j k))

-- Names joined to a directory.
pub join_names :
    (n : Text) (ms names : List Text) (dir : Text)
    → AreNames (n ∷ ms)
    → AreNames names
    → dir ≡ rooted (n ∷ ms)
    → join (dir ∷ names) ≡ rooted ((n ∷ ms) ++ names)
join_names n ms names dir h k e = ap (λ (d : Text). join (d ∷ names)) e ∙ join-rooted n ms names h k
