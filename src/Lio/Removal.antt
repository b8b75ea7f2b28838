-- ===== src/Lio/Removal.antt =====
-- What `DeleteTarget`, `DeletePortal`, `DeleteLUN` and `DeleteBackstore` may touch.
use shortrack.Base.{
  ◌≡◌, refl, sym, subst, inl, inr, Bool-cases, arith, Option, List, [], ◌∷◌, ◌++◌, ℕ, not,
}
use shortrack.Go.Text.{text_eq, Text, bytes, has_prefix, trim_prefix}
use shortrack.Go.Number.{Parsed, parsed, bad_number, parse_uint, format_uint}
use shortrack.Go.Path.{join, slash}
use shortrack.Go.Path.Names.{
  IsBelow, join_names, IsName, AreNames, AreNames-append, rooted, is_name-IsName, prefixed-IsName,
}
use shortrack.Go.Number.Laws.{format_uint-Lacks}
use shortrack.Host.Io.Loops.{All, Returns, Returns-bind}
use shortrack.State.{Target, Backstore}
use shortrack.Host.{Host, DirEntry, FileInfo, Returned, value, failed}
use shortrack.Host.Io.{
  or_return_unless, Outcome, ok, err, panic, Io, call, pure, fail, os_error, for_each, check_unless,
  ◌>>=◌, ◌>>◌, when, collect,
}
use shortrack.Host.Io.Keeping.{
  Keeps, Keeps-bind, Keeps-when, Keeps-check, Keeps-check_unless, Keeps-for_each, Keeps-collect,
  Keeps-listing, Keeps-branch, Keeps-bind_with, Keeps-for_each_with, Keeps-listing_with,
}
use shortrack.Lio.Backstores.{core_dir, backstore_dir_name, delete_backstore}
use shortrack.Lio.Portals.{iscsi_dir, tpgt_name, list_portals, delete_portal, dir_names}
use shortrack.Lio.Tree.{
  config_names, sys, iscsi-AreNames, core-AreNames, iscsi_dir-rooted, core_dir-rooted,
}
use shortrack.Lio.Luns.{
  lun_path, numbered, prefixed_entry, list_luns, remove_link, unlink_entry, delete_lun,
}
use shortrack.Lio.Targets.{delete_target}

abbrev pub target_base : Target → List Text
target_base t = sys ∷ (config_names ++ (bytes "iscsi" ∷ (t.iqn ∷ [])))

abbrev pub backstore_base : Backstore → List Text
backstore_base b = sys ∷ (config_names ++ (bytes "core" ∷ (backstore_dir_name b.kind b.id ∷ [])))

np-IsName : IsName (bytes "np")
unfolding text_eq bytes
np-IsName = is_name-IsName (bytes "np") refl

lun-IsName : IsName (bytes "lun")
unfolding text_eq bytes
lun-IsName = is_name-IsName (bytes "lun") refl

tpgt_name-IsName : (t : Target) → IsName (tpgt_name t)
unfolding bytes
tpgt_name-IsName t =
    prefixed-IsName b't' (b'p' ∷ (b'g' ∷ (b't' ∷ (b'_' ∷ [])))) (format_uint t.id) refl
      (refl, (refl, (refl, (refl, (refl, tt))))) (format_uint-Lacks slash t.id (inl (omega arith)))

entry-IsName : (lun : ℕ) → IsName (bytes "lun_" ++ format_uint lun)
unfolding bytes
entry-IsName lun =
    prefixed-IsName b'l' (b'u' ∷ (b'n' ∷ (b'_' ∷ []))) (format_uint lun) refl
      (refl, (refl, (refl, (refl, tt)))) (format_uint-Lacks slash lun (inl (omega arith)))

-- `os.ReadDir` returns the entries of a directory: their names are names.
abbrev pub AllNamed : List DirEntry → Type 0
AllNamed es = All (λ (e : DirEntry). IsName e.name) es

Returns-any : {E A : Type 0} (x : Outcome E A) → Returns (λ (a : A). Unit {0}) x
Returns-any (ok a) = tt
Returns-any (err e) = tt
Returns-any panic = tt

dir_names-AreNames : (es : List DirEntry) → AllNamed es → All IsName (dir_names es)
unfolding dir_names
dir_names-AreNames [] h = tt
dir_names-AreNames (e ∷ es) h = elim (Bool-cases e.is_dir) [
  | inl there ↦ rw there (h.0, dir_names-AreNames es h.1)
  | inr other ↦ rw other (dir_names-AreNames es h.1)
]

module _ (H : Host) (P : H.World → Type 0) where
  open H use {World, Err, read_dir, lstat, remove, is_not_exist}

  -- Reads keep `P`, and so do the removals of the paths below `base`.
  pub record IsKept (base : List Text) : Type 0 where
    pub reads : (path : Text) (w : World) → P w → P ((read_dir path w).1)
    pub looks : (path : Text) (w : World) → P w → P ((lstat path w).1)
    pub named : (path : Text) (w : World) → AllNamed (read_dir path w).0.0
    pub removals : (path : Text) → IsBelow base path → (w : World) → P w → P ((remove path w).1)

  module _ (base : List Text) (kept : IsKept base) where
    Keeps-remove :
        (path : Text)
        → IsBelow base path
        → Keeps {E = Err} P (check_unless is_not_exist (remove path))
    Keeps-remove path there =
        Keeps-check_unless P is_not_exist (remove path) (kept.removals path there)

    Keeps-remove_link :
        (path : Text) (r : Returned Err FileInfo)
        → IsBelow base path
        → Keeps P (remove_link H path r)
    unfolding remove_link
    Keeps-remove_link path (failed e) there =
        Keeps-branch P (is_not_exist e) (pure tt) (fail (os_error e)) (λ w p. p) (λ w p. p)
    Keeps-remove_link path (value info) there =
        Keeps-when P info.is_symlink _ (Keeps-check P (remove path) (kept.removals path there))

  Keeps-numbered : (r : Parsed ℕ) (text : Text) → Keeps {E = Err} P (numbered {E = Err} r text)
  Keeps-numbered (parsed n) text = λ w p. p
  Keeps-numbered (bad_number e) text = λ w p. p

  Keeps-prefixed_entry :
      (prefix : Text) (e : DirEntry) → Keeps {E = Err} P (prefixed_entry {E = Err} prefix e)
  unfolding prefixed_entry
  Keeps-prefixed_entry prefix e =
      Keeps-branch P (not e.is_dir) _ _ (λ w p. p)
        (Keeps-branch P (not (has_prefix e.name prefix)) _ _ (λ w p. p)
          (Keeps-numbered (parse_uint 16 (trim_prefix e.name prefix)) (trim_prefix e.name prefix)))

  module _ (t : Target) (proper : IsName t.iqn) (kept : IsKept (target_base t)) where
    target_dir :
        (names : List Text)
        → AreNames names
        → join (iscsi_dir ∷ (t.iqn ∷ names)) ≡ rooted (target_base t ++ names)
    target_dir names h =
        join_names sys (config_names ++ (bytes "iscsi" ∷ [])) (t.iqn ∷ names) iscsi_dir
          iscsi-AreNames (proper, h) iscsi_dir-rooted

    there :
        (names : List Text)
        → AreNames names
        → IsBelow (target_base t) (join (iscsi_dir ∷ (t.iqn ∷ names)))
    there names h =
        subst (IsBelow (target_base t)) (sym (target_dir names h)) (IsBelow.below names h)

    Keeps-delete_portal : (portal : Text) → IsName portal → Keeps P (delete_portal H t portal)
    unfolding delete_portal
    Keeps-delete_portal portal named = Keeps-remove (target_base t) kept _ (
        there (tpgt_name t ∷ (bytes "np" ∷ (portal ∷ [])))
          (tpgt_name-IsName t, (np-IsName, (named, tt))))

    abbrev portals_of : List DirEntry → Io World Err (List Text)
    portals_of es = pure (dir_names es)

    Keeps-list_portals : Keeps P (list_portals H t)
    unfolding list_portals
    Keeps-list_portals =
        Keeps-listing P is_not_exist (read_dir _) portals_of (kept.reads _) (λ es w p. p)

    -- The names that `ListPortals` returns are those of directories.
    list_portals-names : (w : World) → Returns (All IsName) (list_portals H t w).0
    unfolding list_portals
    list_portals-names w =
        let path = join (iscsi_dir ∷ (t.iqn ∷ (tpgt_name t ∷ (bytes "np" ∷ [])))) in
        let after =
          λ (r : List DirEntry × Option Err). or_return_unless is_not_exist r.1 >> portals_of r.0 in
        Returns-bind (λ (r : List DirEntry × Option Err). AllNamed r.0) (All IsName)
          (call (read_dir path)) after w (kept.named path w)
          (λ r v named.
            Returns-bind (λ _. Unit) (All IsName) (or_return_unless is_not_exist r.1)
              (λ _. portals_of r.0) v (Returns-any (or_return_unless is_not_exist r.1 v).0)
              (λ a u _. dir_names-AreNames r.0 named))

    Keeps-list_luns : Keeps P (list_luns H t)
    unfolding list_luns
    Keeps-list_luns =
        let number : DirEntry → Io World Err (Option ℕ) = prefixed_entry (bytes "lun_") in
        Keeps-listing P is_not_exist (read_dir _) (collect number) (kept.reads _)
          (λ es. Keeps-collect P number es (Keeps-prefixed_entry (bytes "lun_")))

    abbrev lun_names : ℕ → List Text
    lun_names lun = tpgt_name t ∷ (bytes "lun" ∷ ((bytes "lun_" ++ format_uint lun) ∷ []))

    lun_names-AreNames : (lun : ℕ) → AreNames (lun_names lun)
    lun_names-AreNames lun = (tpgt_name-IsName t, (lun-IsName, (entry-IsName lun, tt)))

    -- An entry of a LUN's directory.
    entry_there :
        (lun : ℕ) (name : Text)
        → IsName name
        → IsBelow (target_base t) (join (lun_path t lun ∷ (name ∷ [])))
    entry_there lun name h =
        let all : AreNames (lun_names lun) = lun_names-AreNames lun in
        let base =
          AreNames-append (sys ∷ (config_names ++ (bytes "iscsi" ∷ []))) (t.iqn ∷ lun_names lun)
            iscsi-AreNames (proper, all) in
        let e =
          join_names sys (config_names ++ (bytes "iscsi" ∷ (t.iqn ∷ lun_names lun))) (name ∷ [])
            (lun_path t lun) base (h, tt) (target_dir (lun_names lun) all) in
        subst (IsBelow (target_base t)) (sym e) (
          IsBelow.below (lun_names lun ++ (name ∷ []))
            (AreNames-append (lun_names lun) (name ∷ []) all (h, tt)))

    Keeps-unlink_entry :
        (lun : ℕ) (e : DirEntry) → IsName e.name → Keeps P (unlink_entry H (lun_path t lun) e)
    unfolding unlink_entry
    Keeps-unlink_entry lun e named =
        let path = join (lun_path t lun ∷ (e.name ∷ [])) in
        Keeps-bind P (call (lstat path)) (remove_link H path) (kept.looks path)
          (λ r. Keeps-remove_link (target_base t) kept path r (entry_there lun e.name named))

    Keeps-delete_lun : (lun : ℕ) → Keeps P (delete_lun H t lun)
    unfolding delete_lun
    Keeps-delete_lun lun =
        let path = lun_path t lun in
        let last = check_unless is_not_exist (remove path) in
        let rest : List DirEntry → Io World Err (Unit {0}) =
          λ es. for_each (unlink_entry H path) es >> last in
        Keeps-listing_with P AllNamed is_not_exist (read_dir path) rest (kept.reads path)
          (kept.named path)
          (λ es named.
            Keeps-bind P (for_each (unlink_entry H path) es) (λ _. last)
              (Keeps-for_each_with P (λ (e : DirEntry). IsName e.name) (unlink_entry H path) es
                named (Keeps-unlink_entry lun))
              (λ _.
                Keeps-remove (target_base t) kept path
                  (there (lun_names lun) (lun_names-AreNames lun))))

    -- The last two removals.
    Keeps-directories : Keeps {E = Err} P (
        check_unless is_not_exist (remove (join (iscsi_dir ∷ t.iqn ∷ tpgt_name t ∷ [])))
        >> check_unless is_not_exist (remove (join (iscsi_dir ∷ t.iqn ∷ []))))
    Keeps-directories =
        Keeps-bind P
          (check_unless is_not_exist (remove (join (iscsi_dir ∷ t.iqn ∷ tpgt_name t ∷ []))))
          (λ _. check_unless is_not_exist (remove (join (iscsi_dir ∷ t.iqn ∷ []))))
          (Keeps-remove (target_base t) kept _ (there (tpgt_name t ∷ []) (tpgt_name-IsName t, tt)))
          (λ _. Keeps-remove (target_base t) kept _ (there [] tt))

    -- `DeleteTarget` of a target whose IQN is the name of a directory, whatever the host answers and
    -- however it ends, changes the world by nothing but reads and removals, and removes only the
    -- target's own directory and what lies below it: what reads and these removals keep, it keeps.
    -- `os.ReadDir` must return names without a slash that are not `.` or `..`.
    pub delete_target_keeps : (w : World) → P w → P (delete_target H t w).1
    unfolding delete_target
    delete_target_keeps =
        let last =
          check_unless is_not_exist (remove (join (iscsi_dir ∷ t.iqn ∷ tpgt_name t ∷ [])))
          >> check_unless is_not_exist (remove (join (iscsi_dir ∷ t.iqn ∷ []))) in
        let luns : List ℕ → Io World Err (Unit {0}) = λ ns. for_each (delete_lun H t) ns >> last in
        let later : Io World Err (Unit {0}) = list_luns H t >>= luns in
        let portals : List Text → Io World Err (Unit {0}) =
          λ ps. for_each (delete_portal H t) ps >> later in
        let luns_kept : (ns : List ℕ) → Keeps P (luns ns) = λ ns.
          Keeps-bind P (for_each (delete_lun H t) ns) (λ _. last)
            (Keeps-for_each P (delete_lun H t) ns Keeps-delete_lun) (λ _. Keeps-directories) in
        Keeps-bind_with P (All IsName) (list_portals H t) portals Keeps-list_portals
          list_portals-names
          (λ ps named.
            Keeps-bind P (for_each (delete_portal H t) ps) (λ _. later)
              (Keeps-for_each_with P IsName (delete_portal H t) ps named Keeps-delete_portal)
              (λ _. Keeps-bind P (list_luns H t) luns Keeps-list_luns luns_kept))

  module _ (b : Backstore) (proper : IsName (backstore_dir_name b.kind b.id))
      (kept : IsKept (backstore_base b)) where
    dir : Text
    dir = join (core_dir ∷ (backstore_dir_name b.kind b.id ∷ []))

    dir-rooted : dir ≡ rooted (backstore_base b)
    unfolding dir
    dir-rooted =
        join_names sys (config_names ++ (bytes "core" ∷ [])) (backstore_dir_name b.kind b.id ∷ [])
          core_dir core-AreNames (proper, tt) core_dir-rooted

    data_there :
        (names : List Text) → AreNames names → IsBelow (backstore_base b) (join (dir ∷ names))
    data_there names h =
        let base =
          AreNames-append (sys ∷ (config_names ++ (bytes "core" ∷ [])))
            (backstore_dir_name b.kind b.id ∷ []) core-AreNames (proper, tt) in
        let e =
          join_names sys (config_names ++ (bytes "core" ∷ (backstore_dir_name b.kind b.id ∷ [])))
            names dir base h dir-rooted in
        subst (IsBelow (backstore_base b)) (sym e) (IsBelow.below names h)

    -- `DeleteBackstore` of a backstore whose type and number make a name, whatever the host answers
    -- and however it ends, changes the world by nothing but reads and removals, and removes only
    -- the backstore's own directory and what lies below it: what reads and these removals keep, it
    -- keeps.
    pub delete_backstore_keeps : (w : World) → P w → P (delete_backstore H b w).1
    unfolding delete_backstore dir
    delete_backstore_keeps =
        let remove_entry : DirEntry → Io World Err (Unit {0}) =
          λ e. when e.is_dir (check_unless is_not_exist (remove (join (dir ∷ (e.name ∷ []))))) in
        let last = check_unless is_not_exist (remove dir) in
        let rest : List DirEntry → Io World Err (Unit {0}) =
          λ es. for_each remove_entry es >> last in
        Keeps-listing_with P AllNamed is_not_exist (read_dir (join (dir ∷ []))) rest (kept.reads _)
          (kept.named _)
          (λ es named.
            Keeps-bind P (for_each remove_entry es) (λ _. last)
              (Keeps-for_each_with P (λ (e : DirEntry). IsName e.name) remove_entry es named
                (λ e n.
                  Keeps-when P e.is_dir _
                    (Keeps-remove (backstore_base b) kept _ (data_there (e.name ∷ []) (n, tt)))))
              (λ _.
                Keeps-remove (backstore_base b) kept dir
                  (subst (IsBelow (backstore_base b)) (sym dir-rooted) (IsBelow.below [] tt))))
