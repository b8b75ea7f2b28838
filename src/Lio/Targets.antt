-- ===== src/Lio/Targets.antt =====
-- `ListTargets`, `DeleteTarget` and `UpsertTarget`.
pub mod Listed
use shortrack.Base.{ℕ, not, List, [], ◌∷◌, ◌++◌, map}
use shortrack.Go.Text.{Text, bytes, has_prefix, trim_prefix}
use shortrack.Go.Path.{join}
use shortrack.State.{Target}
use shortrack.Host.{Host, DirEntry}
use shortrack.Host.Io.{
  Io, branch, pure, call, ◌>>=◌, ◌>>◌, check, check_unless, or_return_unless, for_each, collect,
  collect_all,
}
use shortrack.Lio.Config.{set_config}
use shortrack.Lio.Portals.{iscsi_dir, tpgt_name, list_portals, delete_portal}
use shortrack.Lio.Luns.{prefixed_entry, list_luns, delete_lun}

abbrev pub make_target : Text → Text → ℕ → Target
make_target name iqn id = record { id = id; name = name; iqn = iqn }

module _ (H : Host) where
  open H use {World, Err, is_not_exist, read_dir, mkdir_all, remove}

  -- The target portal groups of the directory `iqn`.
  unfoldable pub target_groups : Text → Text → Io World Err (List Target)
  unfolding collect prefixed_entry
  target_groups base_iqn iqn = do
    r ← call (read_dir (join (iscsi_dir ∷ iqn ∷ [])))
    or_return_unless is_not_exist r.1
    ids ← collect (prefixed_entry (bytes "tpgt_")) r.0
    pure (map (make_target (trim_prefix iqn (base_iqn ++ bytes ":")) iqn) ids)

  -- The round of `ListTargets` for one entry of the fabric's directory.
  unfoldable pub target_entry : Text → DirEntry → Io World Err (List Target)
  unfolding target_groups
  target_entry base_iqn e = branch (not e.is_dir) (pure []) (
      branch (not (has_prefix e.name (base_iqn ++ bytes ":"))) (pure [])
        (target_groups base_iqn e.name))

  -- `ListTargets`
  unfoldable pub list_targets : Text → Io World Err (List Target)
  unfolding target_entry collect_all
  list_targets base_iqn = do
    r ← call (read_dir iscsi_dir)
    or_return_unless is_not_exist r.1
    collect_all (target_entry base_iqn) r.0

  -- `DeleteTarget`
  unfoldable pub delete_target : Target → Io World Err (Unit {0})
  unfolding for_each
  delete_target t = do
    portals ← list_portals H t
    for_each (delete_portal H t) portals
    luns ← list_luns H t
    for_each (delete_lun H t) luns
    check_unless is_not_exist (remove (join (iscsi_dir ∷ t.iqn ∷ tpgt_name t ∷ [])))
    check_unless is_not_exist (remove (join (iscsi_dir ∷ t.iqn ∷ [])))

  -- `UpsertTarget`
  unfoldable pub upsert_target : Target → Io World Err (Unit {0})
  upsert_target t = do
    let dir = join (iscsi_dir ∷ t.iqn ∷ tpgt_name t ∷ [])
    check (mkdir_all (join (iscsi_dir ∷ [])) 0o755)
    check (mkdir_all (join (iscsi_dir ∷ t.iqn ∷ [])) 0o755)
    check (mkdir_all dir 0o755)
    set_config H (join (dir ∷ bytes "enable" ∷ [])) (bytes "1")
    set_config H (join (dir ∷ bytes "attrib" ∷ bytes "authentication" ∷ [])) (bytes "0")
    set_config H (join (dir ∷ bytes "attrib" ∷ bytes "generate_node_acls" ∷ [])) (bytes "1")
    set_config H (join (dir ∷ bytes "attrib" ∷ bytes "demo_mode_write_protect" ∷ [])) (bytes "0")
