-- ===== src/Lio/Luns.antt =====
-- `ListLUNs`, `DeleteLUN` and `UpsertLUN`.
use shortrack.Base.{ℕ, not, Option, none, some, List, [], ◌∷◌, ◌++◌}
use shortrack.Go.Text.{Text, bytes, has_prefix, trim_prefix}
use shortrack.Go.Number.{Parsed, parsed, bad_number, format_uint, parse_uint}
use shortrack.Go.Path.{join}
use shortrack.State.{Target, Backstore}
use shortrack.Host.{Host, Returned, value, failed, FileInfo, DirEntry}
use shortrack.Host.Io.{
  Io, os_error, num_error, when, branch, pure, fail, call, ◌>>=◌, ◌>>◌, check, check_unless,
  or_return_unless, for_each, collect,
}
use shortrack.Lio.Backstores.{core_dir, backstore_dir_name}
use shortrack.Lio.Portals.{iscsi_dir, tpgt_name}

-- `fmt.Sprintf("lun_%d", lun)` in the target's directory `lun`.
abbrev pub lun_path : Target → ℕ → Text
lun_path t lun =
    join (iscsi_dir ∷ t.iqn ∷ tpgt_name t ∷ bytes "lun" ∷ (bytes "lun_" ++ format_uint lun) ∷ [])

-- The number behind a prefix of a directory's name: `strconv.ParseUint(strings.TrimPrefix(…))`.
abbrev pub numbered : {W E : Type 0} → Parsed ℕ → Text → Io W E (Option ℕ)
numbered (parsed n) text w = pure (some n) w
numbered (bad_number e) text w = fail (num_error e text) w

-- One round of a loop over entries that carry a number behind a prefix.
unfoldable pub prefixed_entry : {W E : Type 0} → Text → DirEntry → Io W E (Option ℕ)
prefixed_entry prefix e = branch (not e.is_dir) (pure none) (
    branch (not (has_prefix e.name prefix)) (pure none)
      (numbered (parse_uint 16 (trim_prefix e.name prefix)) (trim_prefix e.name prefix)))

module _ (H : Host) where
  open H use {World, Err, is_not_exist, is_exist, read_dir, lstat, mkdir_all, remove, symlink}

  -- `ListLUNs`
  unfoldable pub list_luns : Target → Io World Err (List ℕ)
  unfolding collect prefixed_entry
  list_luns t = do
    r ← call (read_dir (join (iscsi_dir ∷ t.iqn ∷ tpgt_name t ∷ bytes "lun" ∷ [])))
    or_return_unless is_not_exist r.1
    collect (prefixed_entry (bytes "lun_")) r.0

  -- What follows `os.Lstat`: only symbolic links are removed.
  unfoldable pub remove_link : Text → Returned Err FileInfo → Io World Err (Unit {0})
  remove_link path (failed e) w = branch (is_not_exist e) (pure tt) (fail (os_error e)) w
  remove_link path (value info) w = when info.is_symlink (check (remove path)) w

  unfoldable pub unlink_entry : Text → DirEntry → Io World Err (Unit {0})
  unfolding remove_link
  unlink_entry dir e =
      call (lstat (join (dir ∷ e.name ∷ []))) >>= remove_link (join (dir ∷ e.name ∷ []))

  -- `DeleteLUN`
  unfoldable pub delete_lun : Target → ℕ → Io World Err (Unit {0})
  unfolding unlink_entry for_each
  delete_lun t lun = do
    r ← call (read_dir (lun_path t lun))
    or_return_unless is_not_exist r.1
    for_each (unlink_entry (lun_path t lun)) r.0
    check_unless is_not_exist (remove (lun_path t lun))

  -- `UpsertLUN`
  unfoldable pub upsert_lun : Target → ℕ → Backstore → Io World Err (Unit {0})
  upsert_lun t lun b = do
    check (mkdir_all (lun_path t lun) 0o755)
    check_unless is_exist (
        symlink (join (core_dir ∷ backstore_dir_name b.kind b.id ∷ b.name ∷ []))
          (join (lun_path t lun ∷ b.name ∷ [])))
