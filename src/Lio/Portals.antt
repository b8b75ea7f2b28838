-- ===== src/Lio/Portals.antt =====
-- The directories of a target, and `ListPortals`, `DeletePortal` and `UpsertPortal`.
use shortrack.Base.{List, [], ◌∷◌, ◌++◌, if◌then◌else◌}
use shortrack.Go.Text.{Text, bytes}
use shortrack.Go.Number.{format_uint}
use shortrack.Go.Path.{join}
use shortrack.State.{Target}
use shortrack.Host.{Host, DirEntry}
use shortrack.Host.Io.{Io, pure, call, ◌>>=◌, ◌>>◌, check, check_unless, or_return_unless}

abbrev pub iscsi_dir : Text
iscsi_dir = bytes "/sys/kernel/config/target/iscsi"

-- `fmt.Sprintf("tpgt_%d", target.ID)`
abbrev pub tpgt_name : Target → Text
tpgt_name t = bytes "tpgt_" ++ format_uint t.id

-- The names of the directories among the entries.
unfoldable pub dir_names : List DirEntry → List Text
dir_names [] = []
dir_names (e ∷ es) = let rest = dir_names es in if e.is_dir then e.name ∷ rest else rest

module _ (H : Host) where
  open H use {World, Err, is_not_exist, read_dir, mkdir_all, remove}

  -- `ListPortals`
  unfoldable pub list_portals : Target → Io World Err (List Text)
  list_portals t = do
    r ← call (read_dir (join (iscsi_dir ∷ t.iqn ∷ tpgt_name t ∷ bytes "np" ∷ [])))
    or_return_unless is_not_exist r.1
    pure (dir_names r.0)

  -- `DeletePortal`
  unfoldable pub delete_portal : Target → Text → Io World Err (Unit {0})
  delete_portal t portal =
      check_unless is_not_exist
        (remove (join (iscsi_dir ∷ t.iqn ∷ tpgt_name t ∷ bytes "np" ∷ portal ∷ [])))

  -- `UpsertPortal`
  unfoldable pub upsert_portal : Target → Text → Io World Err (Unit {0})
  upsert_portal t portal =
      check (mkdir_all (join (iscsi_dir ∷ t.iqn ∷ tpgt_name t ∷ bytes "np" ∷ portal ∷ [])) 0o755)
