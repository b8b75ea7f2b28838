-- ===== src/Lio/Backstores/Listed.antt =====
-- What `ListBackstores` returns.
use shortrack.Base.{
  inl, inr, Bool-cases, ℕ, ◌≡◌, ◌≢◌, ◌<◌, ◌^◌, refl, ap, sym, ◌∙◌, true, false, Option, none, some,
  List, [], ◌∷◌, ◌++◌, if◌then◌else◌, arith,
}
use shortrack.Go.Text.{Text, bytes, text_eq, text_eq_iff, split}
use shortrack.Go.Text.Split.{Lacks, split-Lacks, split_one}
use shortrack.Go.Number.{Parsed, parsed, bad_number, format_uint, parse_uint}
use shortrack.Go.Number.Laws.{parse_uint_small, parse_uint-format_uint, format_uint-Lacks}
use shortrack.Go.Path.{join}
use shortrack.State.{Backstore}
use shortrack.Host.{Host, DirEntry}
use shortrack.Host.Io.{ok, collect}
use shortrack.Host.Io.Loops.{All, AllSome, Returns, Returns-listing, Returns-collect}
use shortrack.Lio.Backstores.{
  core_dir, backstore_dir_name, last_dir, two_parts, backstore_data, backstore_numbered,
  backstore_parts, backstore_entry, list_backstores,
}

-- A backstore that `ListBackstores` may return.
pub record IsListed (b : Backstore) : Type 0 where
  pub small : b.id < 2 ^ 16
  pub named : b.name ≢ []
  pub no_file : (b.file_path ≡ []) × (b.file_size ≡ 0)

-- The search for the last directory ends at one that only files follow.
last_dir-append :
    (name start : Text) (before after : List DirEntry)
    → All (λ (e : DirEntry). e.is_dir ≡ false) after
    → last_dir start (before ++ (record { name = name; is_dir = true } ∷ after)) ≡ name
unfolding last_dir
last_dir-append name start (e ∷ before) after h =
    last_dir-append name (if e.is_dir then e.name else start) before after h
last_dir-append name start [] [] h = refl
last_dir-append name start [] (e ∷ after) h = rw h.0 (last_dir-append name start [] after h.1)

alua_split : split (bytes "alua") b'_' ≡ bytes "alua" ∷ []
unfolding bytes
alua_split = split_one b'_' (bytes "alua") (refl, (refl, (refl, (refl, tt))))

-- A name of two pieces is not that of the directory that is left out.
not_alua : (s a b : Text) → split s b'_' ≡ a ∷ (b ∷ []) → text_eq s (bytes "alua") ≡ false
not_alua s a b e = elim (Bool-cases (text_eq s (bytes "alua"))) [
  | inl same ↦
      let spelled = (text_eq_iff s (bytes "alua")).0 same in
      let one = ap (λ t. split t b'_') spelled ∙ alua_split in
      let clash = ap two_parts (sym one ∙ e) in ground arith
  | inr other ↦ other
]

split-backstore_dir_name :
    (kind : Text) (id : ℕ)
    → Lacks b'_' kind
    → split (backstore_dir_name kind id) b'_' ≡ kind ∷ (format_uint id ∷ [])
unfolding bytes
split-backstore_dir_name kind id plain =
    split-Lacks b'_' kind (format_uint id) plain (format_uint-Lacks b'_' id (inr (omega arith)))

text_eq-nil : (s : Text) → s ≢ [] → text_eq s [] ≡ false
unfolding text_eq
text_eq-nil [] h = absurd (h refl)
text_eq-nil (c ∷ s) h = refl

ne_nil : (s : Text) → text_eq s [] ≡ false → s ≢ []
unfolding text_eq
ne_nil s h e = ground arith

module _ (H : Host) where
  backstore_data-IsListed :
      (kind : Text) (id : ℕ) (r : List DirEntry × Option H.Err) (w : H.World)
      → id < 2 ^ 16
      → Returns (AllSome IsListed) (backstore_data H kind id r w).0
  unfolding backstore_data
  backstore_data-IsListed kind id (entries, some e) w small = ground arith
  backstore_data-IsListed kind id (entries, none) w small =
      elim (Bool-cases (text_eq (last_dir [] entries) [])) [
        | inl empty ↦ ground arith
        | inr named ↦ rw named (record {
          small = small;
          named = ne_nil (last_dir [] entries) named;
          no_file = (refl, refl);
        })
      ]

  backstore_numbered-IsListed :
      (entry kind : Text) (r : Parsed ℕ) (number : Text) (w : H.World)
      → ((n : ℕ) → r ≡ parsed n → n < 2 ^ 16)
      → Returns (AllSome IsListed) (backstore_numbered H entry kind r number w).0
  unfolding backstore_numbered
  backstore_numbered-IsListed entry kind (parsed id) number w small =
      let listing = H.read_dir (join (core_dir ∷ (entry ∷ []))) w in
      backstore_data-IsListed kind id listing.0 listing.1 (small id refl)
  backstore_numbered-IsListed entry kind (bad_number e) number w small = tt

  backstore_parts-IsListed :
      (entry : Text) (parts : Option (Text × Text)) (w : H.World)
      → Returns (AllSome IsListed) (backstore_parts H entry parts w).0
  unfolding backstore_parts
  backstore_parts-IsListed entry none w = tt
  backstore_parts-IsListed entry (some (kind, number)) w =
      backstore_numbered-IsListed entry kind (parse_uint 16 number) number w
        (parse_uint_small 16 number)

  backstore_entry-IsListed :
      (e : DirEntry) (w : H.World) → Returns (AllSome IsListed) (backstore_entry H e w).0
  unfolding backstore_entry
  backstore_entry-IsListed e w =
      ground (arith, backstore_parts-IsListed e.name (two_parts (split e.name b'_')) w)

  -- Whatever the file system holds, every backstore that `ListBackstores` returns has a `uint16`
  -- number and a name that is not empty, and neither file path nor size.
  pub list_backstores-IsListed : (w : H.World) → Returns (All IsListed) (list_backstores H w).0
  unfolding list_backstores
  list_backstores-IsListed w =
      Returns-listing (All IsListed) (H.read_dir core_dir) H.is_not_exist
        (collect (backstore_entry H)) w
        (Returns-collect IsListed (backstore_entry H) backstore_entry-IsListed)

  -- A directory that `UpsertBackstore` makes for a backstore, by its type and number, is read back
  -- by `ListBackstores` with that type and number, and with the name of the last directory in it,
  -- provided that the type holds no underscore; in the round that comes to it.
  pub backstore_entry-backstore_dir_name :
      (kind name : Text) (id : ℕ) (before after : List DirEntry) (w w' : H.World)
      → Lacks b'_' kind
      → id < 2 ^ 16
      → name ≢ []
      → All (λ (e : DirEntry). e.is_dir ≡ false) after
      → H.read_dir (join (core_dir ∷ (backstore_dir_name kind id ∷ []))) w
        ≡ ((before ++ (record { name = name; is_dir = true } ∷ after), none), w')
      → backstore_entry H (record { name = backstore_dir_name kind id; is_dir = true }) w ≡ (
        ok (some (record { kind = kind; id = id; name = name; file_path = []; file_size = 0 })),
        w',
      )
  unfolding backstore_entry backstore_parts backstore_numbered backstore_data
  backstore_entry-backstore_dir_name kind name id before after w w' plain fits named files found =
      let parts = split-backstore_dir_name kind id plain in
      let other = not_alua (backstore_dir_name kind id) kind (format_uint id) parts in
      let number = parse_uint-format_uint 16 id fits in
      let last = last_dir-append name [] before after files in
      let shown = text_eq-nil name named in
      rw (other, parts, number) (rw found (rw last (rw shown refl)))
