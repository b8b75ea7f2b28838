-- ===== src/Lio/Targets/Listed.antt =====
-- What `ListTargets` and `ListLUNs` return.
use shortrack.Base.{ℕ, ◌≡◌, ◌<◌, ◌^◌, refl, sym, true, List, [], ◌∷◌, ◌++◌, map, some, arith}
use shortrack.Go.Text.{Text, bytes, has_prefix, trim_prefix}
use shortrack.Go.Text.Laws.{append-trim_prefix, has_prefix-append, trim_prefix-append}
use shortrack.Go.Number.{Parsed, parsed, bad_number, format_uint}
use shortrack.Go.Number.Laws.{parse_uint_small, parse_uint-format_uint}
use shortrack.State.{Target}
use shortrack.Host.{Host, DirEntry}
use shortrack.Go.Path.{join}
use shortrack.Host.Io.{Io, ok, pure, ◌>>=◌, collect, collect_all}
use shortrack.Host.Io.Loops.{
  All, AllSome, Returns, Returns-bind, Returns-listing, Returns-collect, Returns-collect_all,
}
use shortrack.Lio.Portals.{iscsi_dir}
use shortrack.Lio.Luns.{numbered, prefixed_entry}
use shortrack.Lio.Targets.{make_target, target_groups, target_entry, list_targets}

abbrev IsUint16 : ℕ → Type 0
IsUint16 n = n < 2 ^ 16

numbered-IsUint16 :
    {W : Type 0} (E : Type 0) (r : Parsed ℕ) (text : Text) (w : W)
    → ((n : ℕ) → r ≡ parsed n → n < 2 ^ 16)
    → Returns {E = E} (AllSome IsUint16) (numbered {E = E} r text w).0
numbered-IsUint16 E (parsed n) text w h = h n refl
numbered-IsUint16 E (bad_number e) text w h = tt

prefixed_entry-IsUint16 :
    {W : Type 0} (E : Type 0) (prefix : Text) (e : DirEntry) (w : W)
    → Returns {E = E} (AllSome IsUint16) (prefixed_entry {E = E} prefix e w).0
unfolding prefixed_entry
prefixed_entry-IsUint16 E prefix e w = ground (
  arith,
  numbered-IsUint16 E _ (trim_prefix e.name prefix) w
      (parse_uint_small 16 (trim_prefix e.name prefix)),
)

-- A directory that is named by a prefix (`tpgt_` in `UpsertTarget`, `lun_` in `UpsertLUN`) and the
-- decimal digits of a number below 2 ^ 16 is read back with that number, in the round of
-- `ListTargets` and of `ListLUNs` that looks for the prefix.
pub prefixed_entry_named :
    {W : Type 0} (E : Type 0) (prefix : Text) (n : ℕ) (w : W)
    → n < 2 ^ 16
    → prefixed_entry {W = W} {E = E} prefix
        (record { name = prefix ++ format_uint n; is_dir = true })
        w
      ≡ (ok (some n), w)
unfolding prefixed_entry
prefixed_entry_named E prefix n w fits = rw (
  has_prefix-append prefix (format_uint n),
  trim_prefix-append prefix (format_uint n),
  parse_uint-format_uint 16 n fits,
)

-- A target that `ListTargets` may return.
pub record IsListed (base_iqn : Text) (t : Target) : Type 0 where
  pub small : t.id < 2 ^ 16
  pub spelled : t.iqn ≡ (base_iqn ++ bytes ":") ++ t.name

All-map :
    (base_iqn name iqn : Text) (ids : List ℕ)
    → (base_iqn ++ bytes ":") ++ name ≡ iqn
    → All IsUint16 ids
    → All (IsListed base_iqn) (map (make_target name iqn) ids)
All-map base_iqn name iqn [] e h = tt
All-map base_iqn name iqn (n ∷ ids) e h =
    (record { small = h.0; spelled = sym e }, All-map base_iqn name iqn ids e h.1)

module _ (H : Host) (base_iqn : Text) where
  target_groups-IsListed :
      (iqn : Text) (w : H.World)
      → has_prefix iqn (base_iqn ++ bytes ":") ≡ true
      → Returns (All (IsListed base_iqn)) (target_groups H base_iqn iqn w).0
  unfolding target_groups
  target_groups-IsListed iqn w named =
      let make = make_target (trim_prefix iqn (base_iqn ++ bytes ":")) iqn in
      let finish : List ℕ → Io H.World H.Err (List Target) = λ ids. pure (map make ids) in
      let numbers : List DirEntry → Io H.World H.Err (List ℕ) =
        collect (prefixed_entry (bytes "tpgt_")) in
      Returns-listing (All (IsListed base_iqn)) (H.read_dir (join (iscsi_dir ∷ iqn ∷ [])))
        H.is_not_exist (λ es. numbers es >>= finish) w
        λ es v.
          Returns-bind (All IsUint16) (All (IsListed base_iqn)) (numbers es) finish v
            (Returns-collect IsUint16 _ (prefixed_entry-IsUint16 H.Err (bytes "tpgt_")) es v)
            λ ids u small.
              All-map base_iqn _ iqn ids (append-trim_prefix iqn (base_iqn ++ bytes ":") named)
                small

  target_entry-IsListed :
      (e : DirEntry) (w : H.World)
      → Returns (All (IsListed base_iqn)) (target_entry H base_iqn e w).0
  unfolding target_entry
  target_entry-IsListed e w = ground (arith, target_groups-IsListed e.name w)

  -- Whatever the file system holds, every target that `ListTargets` returns has a `uint16` number,
  -- and its IQN is the server's base IQN, a colon and its name.
  pub list_targets-IsListed :
      (w : H.World) → Returns (All (IsListed base_iqn)) (list_targets H base_iqn w).0
  unfolding list_targets
  list_targets-IsListed w =
      Returns-listing (All (IsListed base_iqn)) (H.read_dir iscsi_dir) H.is_not_exist
        (collect_all (target_entry H base_iqn)) w
        (Returns-collect_all (IsListed base_iqn) (target_entry H base_iqn) target_entry-IsListed)
