-- ===== src/Play/Bounds.antt =====
-- What `PlayDown` may touch.
use shortrack.Base.{
  ◌≡◌, refl, sym, subst, Bool, true, false, not, ◌&&◌, Option, none, some, List, [], ◌∷◌, ◌++◌,
  arith,
}
use shortrack.Go.Text.{Text, bytes, text_eq, has_prefix, has_suffix}
use shortrack.Go.Path.{join, intercalate}
use shortrack.Go.Path.Names.{
  IsName, AreNames, AreNames-append, rooted, is_name-IsName, IsBelow, IsBelow-base, IsBelow-join,
  join_names,
}
use shortrack.Host.Io.Loops.{All}
use shortrack.Lio.Tree.{
  config_names, sys, iscsi-AreNames, core-AreNames, iscsi_dir-rooted, core_dir-rooted,
}
use shortrack.Host.{Host, DirEntry, FileInfo, Returned, value, failed}
use shortrack.Host.Io.{Io, Outcome, ok, when, for_each, ◌>>◌}
use shortrack.Play.Down.{
  iscsi_dir, core_dir, disk_dir, removed, or_continue, listed, each_entry, portal_round, if_link,
  link_round, lun_round, tpgt_round, iqn_round, data_round, backstore_round, disk_round, play_down,
}

abbrev pub target_names : Text → List Text
target_names iqn = sys ∷ (config_names ++ (bytes "iscsi" ∷ (iqn ∷ [])))

abbrev pub backstore_names : Text → List Text
backstore_names name = sys ∷ (config_names ++ (bytes "core" ∷ (name ∷ [])))

-- The paths that `PlayDown` may remove: a directory `iqn.…` of the targets or a directory of the
-- backstores other than `alua`, what lies below these, and `….img` in `/srv`.
pub data IsPlayed : Text → Type 0 where
  of_target :
      (iqn : Text) {path : Text}
      → IsName iqn
      → has_prefix iqn (bytes "iqn.") ≡ true
      → IsBelow (target_names iqn) path
      → IsPlayed path
  of_backstore :
      (name : Text) {path : Text}
      → IsName name
      → text_eq name (bytes "alua") ≡ false
      → IsBelow (backstore_names name) path
      → IsPlayed path
  of_disk :
      (name : Text)
      → IsName name
      → has_suffix name (bytes ".img") ≡ true
      → IsPlayed (rooted (bytes "srv" ∷ (name ∷ [])))

-- `os.ReadDir` returns the entries of a directory: their names are names.
abbrev pub NamedEntry : DirEntry → Type 0
NamedEntry e = IsName e.name

target_names-AreNames : (iqn : Text) → IsName iqn → AreNames (target_names iqn)
target_names-AreNames iqn h =
    AreNames-append (sys ∷ (config_names ++ (bytes "iscsi" ∷ []))) (iqn ∷ []) iscsi-AreNames (h, tt)

backstore_names-AreNames : (name : Text) → IsName name → AreNames (backstore_names name)
backstore_names-AreNames name h =
    AreNames-append (sys ∷ (config_names ++ (bytes "core" ∷ []))) (name ∷ []) core-AreNames (h, tt)

target_dir : (iqn : Text) → IsName iqn → join (iscsi_dir ∷ (iqn ∷ [])) ≡ rooted (target_names iqn)
target_dir iqn h =
    join_names sys (config_names ++ (bytes "iscsi" ∷ [])) (iqn ∷ []) iscsi_dir iscsi-AreNames
      (h, tt) iscsi_dir-rooted

backstore_dir :
    (name : Text) → IsName name → join (core_dir ∷ (name ∷ [])) ≡ rooted (backstore_names name)
backstore_dir name h =
    join_names sys (config_names ++ (bytes "core" ∷ [])) (name ∷ []) core_dir core-AreNames (h, tt)
      core_dir-rooted

srv-IsName : IsName (bytes "srv")
unfolding text_eq bytes
srv-IsName = is_name-IsName (bytes "srv") refl

disk_dir-rooted : disk_dir ≡ rooted (bytes "srv" ∷ [])
unfolding intercalate bytes
disk_dir-rooted = refl

disk_path :
    (name : Text) → IsName name → join (disk_dir ∷ (name ∷ [])) ≡ rooted (bytes "srv" ∷ (name ∷ []))
disk_path name h =
    join_names (bytes "srv") [] (name ∷ []) disk_dir (srv-IsName, tt) (h, tt) disk_dir-rooted

np-IsName : IsName (bytes "np")
unfolding text_eq bytes
np-IsName = is_name-IsName (bytes "np") refl

lun-IsName : IsName (bytes "lun")
unfolding text_eq bytes
lun-IsName = is_name-IsName (bytes "lun") refl

both : (a b : Bool) → a && b ≡ true → (a ≡ true) × (b ≡ true)
both true b h = (refl, h)
both false b h = absurd (ground arith)

negated : (b : Bool) → not b ≡ true → b ≡ false
negated b h = ground arith

module _ (H : Host) (P : H.World → Type 0) where
  open H use {World, Err, read_dir, lstat, remove}

  -- Reads keep `P`, and so do the removals of the paths above.
  pub record IsKept : Type 0 where
    pub reads : (path : Text) (w : World) → P w → P ((read_dir path w).1)
    pub named : (path : Text) (w : World) → All NamedEntry (read_dir path w).0.0
    pub looks : (path : Text) (w : World) → P w → P ((lstat path w).1)
    pub removals : (path : Text) → IsPlayed path → (w : World) → P w → P ((remove path w).1)

  abbrev Done : Outcome Err (Unit {0}) × World → Type 0
  Done r = (r.0 ≡ ok tt) × P r.1

  -- Code that returns without an error and keeps `P`.
  abbrev Keeps : Io World Err (Unit {0}) → Type 0
  Keeps m = (w : World) → P w → Done (m w)

  next_ok : (m k : Io World Err (Unit {0})) (w : World) → (m w).0 ≡ ok tt → (m >> k) w ≡ k (m w).1
  next_ok m k w h = ground arith

  Keeps-next : (m k : Io World Err (Unit {0})) → Keeps m → Keeps k → Keeps (m >> k)
  Keeps-next m k h g w p =
      let (done, kept) = h w p in subst Done (sym (next_ok m k w done)) (g (m w).1 kept)

  Keeps-when : (b : Bool) (m : Io World Err (Unit {0})) → (b ≡ true → Keeps m) → Keeps (when b m)
  Keeps-when true m h w p = h refl w p
  Keeps-when false m h w p = (refl, p)

  Keeps-for_each :
      (f : DirEntry → Io World Err (Unit {0})) (es : List DirEntry)
      → All NamedEntry es
      → ((e : DirEntry) → NamedEntry e → Keeps (f e))
      → Keeps (for_each f es)
  unfolding for_each
  Keeps-for_each f [] named h = λ w p. (refl, p)
  Keeps-for_each f (e ∷ es) named h =
      Keeps-next (f e) (for_each f es) (h e named.0) (Keeps-for_each f es named.1 h)

  module _ (kept : IsKept) where
    Keeps-removed : (path : Text) → IsPlayed path → Keeps (removed H path)
    unfolding removed
    Keeps-removed path played w p = (refl, kept.removals path played w p)

    Keeps-or_continue :
        (f : List DirEntry → Io World Err (Unit {0})) (r : List DirEntry × Option Err)
        → All NamedEntry r.0
        → ((es : List DirEntry) → All NamedEntry es → Keeps (f es))
        → Keeps (or_continue H f r)
    unfolding or_continue
    Keeps-or_continue f (es, none) named h = h es named
    Keeps-or_continue f (es, some e) named h = λ w p. (refl, p)

    Keeps-listed :
        (path : Text) (f : List DirEntry → Io World Err (Unit {0}))
        → ((es : List DirEntry) → All NamedEntry es → Keeps (f es))
        → Keeps (listed H path f)
    unfolding listed
    Keeps-listed path f h w p =
        Keeps-or_continue f (read_dir path w).0 (kept.named path w) h (read_dir path w).1
          (kept.reads path w p)

    Keeps-each_entry :
        (path : Text) (f : DirEntry → Io World Err (Unit {0}))
        → ((e : DirEntry) → NamedEntry e → Keeps (f e))
        → Keeps (each_entry H path f)
    unfolding each_entry
    Keeps-each_entry path f h w p = Keeps-for_each f _ (kept.named path w) h _ (kept.reads path w p)

    Keeps-if_link :
        (path : Text) (r : Returned Err FileInfo) → IsPlayed path → Keeps (if_link H path r)
    unfolding if_link
    Keeps-if_link path (value info) played =
        Keeps-when info.is_symlink (removed H path) (λ _. Keeps-removed path played)
    Keeps-if_link path (failed e) played = λ w p. (refl, p)

    Keeps-link_round :
        (lun_dir : Text) (e : DirEntry)
        → IsPlayed (join (lun_dir ∷ e.name ∷ []))
        → Keeps (link_round H lun_dir e)
    unfolding link_round
    Keeps-link_round lun_dir e played w p =
        Keeps-if_link _ _ played _ (kept.looks (join (lun_dir ∷ e.name ∷ [])) w p)

    -- The rounds for a target, where every path below it may go.
    module _ (n : Text) (ms : List Text) (base : AreNames (n ∷ ms))
        (all : (path : Text) → IsBelow (n ∷ ms) path → IsPlayed path) where
      Keeps-lun_round :
          (tpgt_dir : Text) (e : DirEntry)
          → IsBelow (n ∷ ms) tpgt_dir
          → NamedEntry e
          → Keeps (lun_round H tpgt_dir e)
      unfolding lun_round
      Keeps-lun_round tpgt_dir e under proper =
          let here =
            IsBelow-join n ms (bytes "lun" ∷ e.name ∷ []) base (lun-IsName, (proper, tt)) under in
          Keeps-when e.is_dir _ (λ _. Keeps-listed _ _ (λ links named.
            Keeps-next _ _
              (Keeps-for_each _ links named (λ l h.
                Keeps-link_round _ l (all _ (IsBelow-join n ms (l.name ∷ []) base (h, tt) here))))
              (Keeps-removed _ (all _ here))))

      Keeps-portal_round :
          (tpgt_dir : Text) (e : DirEntry)
          → IsBelow (n ∷ ms) tpgt_dir
          → NamedEntry e
          → Keeps (portal_round H tpgt_dir e)
      unfolding portal_round
      Keeps-portal_round tpgt_dir e under proper = Keeps-when e.is_dir _ (λ _. Keeps-removed _ (
          all _
            (IsBelow-join n ms (bytes "np" ∷ e.name ∷ []) base (np-IsName, (proper, tt)) under)))

      Keeps-tpgt_round :
          (root : Text) (e : DirEntry)
          → IsBelow (n ∷ ms) root
          → NamedEntry e
          → Keeps (tpgt_round H root e)
      unfolding tpgt_round
      Keeps-tpgt_round root e under proper =
          let here = IsBelow-join n ms (e.name ∷ []) base (proper, tt) under in
          Keeps-when (e.is_dir && has_prefix e.name (bytes "tpgt_")) _ (λ _.
            Keeps-listed _ _ (λ portals named.
              Keeps-next _ _ (Keeps-for_each _ portals named (λ x h. Keeps-portal_round _ x here h))
                (Keeps-listed _ _ (λ luns named'.
                  Keeps-next _ _ (Keeps-for_each _ luns named' (λ x h. Keeps-lun_round _ x here h))
                    (Keeps-removed _ (all _ here))))))

    Keeps-iqn_round : (e : DirEntry) → NamedEntry e → Keeps (iqn_round H e)
    unfolding iqn_round
    Keeps-iqn_round e proper = Keeps-when (e.is_dir && has_prefix e.name (bytes "iqn.")) _ (λ test.
        let all = λ (path : Text) (u : IsBelow (target_names e.name) path).
          IsPlayed.of_target e.name proper (both e.is_dir _ test).1 u in
        let root = IsBelow-base (target_names e.name) _ (target_dir e.name proper) in
        Keeps-listed _ _ (λ tpgts named.
          Keeps-next _ _
            (Keeps-for_each _ tpgts named (λ x h.
              Keeps-tpgt_round sys (config_names ++ (bytes "iscsi" ∷ (e.name ∷ [])))
                (target_names-AreNames e.name proper) all _ x root h))
            (Keeps-removed _ (all _ root))))

    Keeps-backstore_round : (e : DirEntry) → NamedEntry e → Keeps (backstore_round H e)
    unfolding backstore_round data_round
    Keeps-backstore_round e proper =
        Keeps-when (e.is_dir && not (text_eq e.name (bytes "alua"))) _ (λ test.
          let all = λ (path : Text) (u : IsBelow (backstore_names e.name) path).
            IsPlayed.of_backstore e.name proper (negated _ (both e.is_dir _ test).1) u in
          let root = IsBelow-base (backstore_names e.name) _ (backstore_dir e.name proper) in
          let base = backstore_names-AreNames e.name proper in
          Keeps-listed _ _ (λ entries named.
            Keeps-next _ _
              (Keeps-for_each _ entries named (λ d h. Keeps-when d.is_dir _ (λ _. Keeps-removed _ (
                all _ (
                  IsBelow-join sys (config_names ++ (bytes "core" ∷ (e.name ∷ []))) (d.name ∷ [])
                    base (h, tt) root)))))
              (Keeps-removed _ (all _ root))))

    Keeps-disk_round : (e : DirEntry) → NamedEntry e → Keeps (disk_round H e)
    unfolding disk_round
    Keeps-disk_round e proper =
        Keeps-when (not e.is_dir && has_suffix e.name (bytes ".img")) _ (λ test. Keeps-removed _ (
          subst IsPlayed (sym (disk_path e.name proper))
            (IsPlayed.of_disk e.name proper (both (not e.is_dir) _ test).1)))

    -- `PlayDown` returns without an error whatever the host answers. It changes the world by nothing
    -- but reads and removals, and removes only directories `iqn.…` of the targets, directories of
    -- the backstores other than `alua`, what lies below these, and `….img` in `/srv`: what reads
    -- and the removals of such paths keep, it keeps. `os.ReadDir` must return names without a
    -- slash that are not `.` or `..`.
    pub play_down_keeps : (w : World) → P w → ((play_down H w).0 ≡ ok tt) × P (play_down H w).1
    unfolding play_down
    play_down_keeps =
        Keeps-next _ _
          (Keeps-next _ _ (Keeps-each_entry iscsi_dir _ Keeps-iqn_round)
            (Keeps-each_entry core_dir _ Keeps-backstore_round))
          (Keeps-each_entry disk_dir _ Keeps-disk_round)
