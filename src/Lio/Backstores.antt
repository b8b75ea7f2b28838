-- ===== src/Lio/Backstores.antt =====
-- `ListBackstores`, `DeleteBackstore` and `UpsertBackstore`.
pub mod Listed
use shortrack.Base.{ℕ, Option, none, some, List, [], ◌∷◌, ◌++◌, if◌then◌else◌, not}
use shortrack.Go.Text.{Text, bytes, text_eq, trim_space, trim_prefix, split}
use shortrack.Go.Number.{Parsed, parsed, bad_number, format_uint, parse_uint}
use shortrack.Go.Path.{join}
use shortrack.State.{Backstore}
use shortrack.Host.{Host, DirEntry}
use shortrack.Host.Io.{
  Io, os_error, num_error, errorf, when, branch, pure, fail, call, ◌>>=◌, ◌>>◌, check, check_unless,
  or_return, or_return_unless, for_each, collect,
}
use shortrack.Lio.Config.{write_config, read_config_string}

abbrev pub core_dir : Text
core_dir = bytes "/sys/kernel/config/target/core"

abbrev pub backstore_block : Text
backstore_block = bytes "block"

abbrev pub backstore_fileio : Text
backstore_fileio = bytes "fileio"

abbrev pub backstore_pscsi : Text
backstore_pscsi = bytes "pscsi"

abbrev pub backstore_ramdisk : Text
backstore_ramdisk = bytes "ramdisk"

-- `fmt.Sprintf("%s_%d", backstore.Type, backstore.ID)`
abbrev pub backstore_dir_name : Text → ℕ → Text
backstore_dir_name kind id = kind ++ bytes "_" ++ format_uint id

-- The two parts that `len(parts) != 2` asks for.
abbrev pub two_parts : List Text → Option (Text × Text)
two_parts (s ∷ (t ∷ [])) = some (s, t)
two_parts _ = none

-- The name of the last directory among the entries, after `name`.
unfoldable pub last_dir : Text → List DirEntry → Text
last_dir name [] = name
last_dir name (e ∷ es) = last_dir (if e.is_dir then e.name else name) es

module _ (H : Host) where
  open H use {World, Err, is_not_exist, read_dir, mkdir_all, remove}

  -- The round of `ListBackstores` once type and number of the entry are known.
  backstore_data : Text → ℕ → List DirEntry × Option Err → Io World Err (Option Backstore)
  backstore_data kind id (entries, some e) w =
      branch (is_not_exist e) (pure none) (fail (os_error e)) w
  backstore_data kind id (entries, none) w =
      let name = last_dir [] entries in
      branch (text_eq name []) (pure none)
        (pure (some (record { kind = kind; id = id; name = name; file_path = []; file_size = 0 })))
        w

  backstore_numbered : Text → Text → Parsed ℕ → Text → Io World Err (Option Backstore)
  unfolding backstore_data
  backstore_numbered entry kind (parsed id) number w =
      (call (read_dir (join (core_dir ∷ entry ∷ []))) >>= backstore_data kind id) w
  backstore_numbered entry kind (bad_number e) number w = fail (num_error e number) w

  backstore_parts : Text → Option (Text × Text) → Io World Err (Option Backstore)
  unfolding backstore_numbered
  backstore_parts entry none w = pure none w
  backstore_parts entry (some (kind, number)) w =
      backstore_numbered entry kind (parse_uint 16 number) number w

  -- One round of the loop of `ListBackstores`.
  unfoldable pub backstore_entry : DirEntry → Io World Err (Option Backstore)
  unfolding backstore_parts
  backstore_entry e = branch (not e.is_dir) (pure none) (
      branch (text_eq e.name (bytes "alua")) (pure none)
        (backstore_parts e.name (two_parts (split e.name b'_'))))

  -- `ListBackstores`
  unfoldable pub list_backstores : Io World Err (List Backstore)
  unfolding backstore_entry collect
  list_backstores = do
    r ← call (read_dir core_dir)
    or_return_unless is_not_exist r.1
    collect backstore_entry r.0

  -- `DeleteBackstore`
  unfoldable pub delete_backstore : Backstore → Io World Err (Unit {0})
  unfolding for_each
  delete_backstore b = do
    let dir = join (core_dir ∷ backstore_dir_name b.kind b.id ∷ [])
    r ← call (read_dir (join (dir ∷ [])))
    or_return_unless is_not_exist r.1
    for_each (λ e. when e.is_dir (check_unless is_not_exist (remove (join (dir ∷ e.name ∷ [])))))
        r.0
    check_unless is_not_exist (remove dir)

  -- The test of `enable`: a missing file counts as "0".
  unfoldable pub enable_text : Text × Option Err → Io World Err Text
  enable_text (text, none) w = pure text w
  enable_text (text, some e) w = branch (is_not_exist e) (pure (bytes "0")) (fail (os_error e)) w

  -- The case `BackstoreFileio` of `UpsertBackstore`.
  unfoldable pub upsert_fileio : Backstore → Io World Err (Unit {0})
  unfolding enable_text
  upsert_fileio b = do
    let dir = join (core_dir ∷ backstore_dir_name b.kind b.id ∷ [])
    let data_dir = join (dir ∷ b.name ∷ [])
    check (mkdir_all data_dir 0o755)
    write_config H (join (data_dir ∷ bytes "control" ∷ [])) (bytes "fd_dev_name=" ++ b.file_path)
    write_config H (join (data_dir ∷ bytes "control" ∷ []))
        (bytes "fd_dev_size=" ++ format_uint b.file_size)
    write_config H (join (data_dir ∷ bytes "attrib" ∷ bytes "emulate_write_cache" ∷ [])) (bytes "1")
    serial ←
        call (read_config_string H (join (data_dir ∷ bytes "wwn" ∷ bytes "vpd_unit_serial" ∷ [])))
    or_return serial.1
    when (text_eq (trim_space (trim_prefix serial.0 (bytes "T10 VPD Unit Serial Number:"))) [])
        (write_config H (join (data_dir ∷ bytes "wwn" ∷ bytes "vpd_unit_serial" ∷ [])) b.name)
    found ← call (read_config_string H (join (data_dir ∷ bytes "enable" ∷ [])))
    enable ← enable_text found
    when (text_eq (trim_space enable) (bytes "0"))
        (write_config H (join (data_dir ∷ bytes "enable" ∷ [])) (bytes "1"))

  -- `UpsertBackstore`
  unfoldable pub upsert_backstore : Backstore → Io World Err (Unit {0})
  upsert_backstore b =
      branch (text_eq b.kind backstore_block)
        (fail (errorf "block backstore is not supported yet" []))
        (branch (text_eq b.kind backstore_fileio) (upsert_fileio b) (
          branch (text_eq b.kind backstore_pscsi)
            (fail (errorf "pscsi backstore is not supported yet" []))
            (branch (text_eq b.kind backstore_ramdisk)
              (fail (errorf "ramdisk backstore is not supported yet" []))
              (fail (errorf "invalid backstore type: %v" (b.kind ∷ []))))))
