-- ===== src/Play/Up.antt =====
-- `PlayUp`. An error is logged and ends the process by `os.Exit(1)`: here it is the outcome.
use shortrack.Base.{ℕ, ◌*◌, ◌-◌, Option, [], ◌∷◌, ◌++◌}
use shortrack.Base.Int.{ℤ, pos}
use shortrack.Go.Text.{Text, bytes}
use shortrack.Go.Number.{format_uint}
use shortrack.Go.Path.{join}
use shortrack.Host.{Host, Returned, value, failed}
use shortrack.Host.Io.{Io, os_error, pure, fail, call, check, ◌>>=◌, ◌>>◌}
use shortrack.Play.{write_config}

abbrev name : Text
name = bytes "test2"

abbrev size : ℕ
size = 2 * (1024 * (1024 * 1024))

abbrev device : Text
device = bytes "/srv/" ++ name ++ bytes ".img"

abbrev kernel_config_dir : Text
kernel_config_dir = bytes "/sys/kernel/config/target"

abbrev iscsi_dir : Text
iscsi_dir = join (kernel_config_dir ∷ bytes "iscsi" ∷ [])

abbrev backstore_data_dir : Text
backstore_data_dir =
    join (join (join (kernel_config_dir ∷ bytes "core" ∷ []) ∷ bytes "fileio_2" ∷ []) ∷ name ∷ [])

abbrev iqn_dir : Text
iqn_dir = join (iscsi_dir ∷ (bytes "iqn.2003-01.xyz.sapslaj.shortrack.iscsi-test:" ++ name) ∷ [])

abbrev tpgt_dir : Text
tpgt_dir = join (iqn_dir ∷ bytes "tpgt_65535" ∷ [])

abbrev lun_dir : Text
lun_dir = join (join (tpgt_dir ∷ bytes "lun" ∷ []) ∷ bytes "lun_0" ∷ [])

-- `fd.Seek` is the parameter.
module _ (H : Host) (seek : H.Fd → ℤ → H.World → Option H.Err × H.World) where
  open H use {World, Err, Fd, create, write, close, mkdir_all, symlink}

  opened : Returned Err Fd → Io World Err Fd
  opened (value fd) w = pure fd w
  opened (failed e) w = fail (os_error e) w

  -- The sparse file: one byte 0 at its end.
  sparse_file : Io World Err (Unit {0})
  unfolding opened
  sparse_file = do
    fd ← call (create device) >>= opened
    check (seek fd (pos (size - 1)))
    check (write fd (0 ∷ []))
    check (close fd)

  -- The backstore.
  backstore_up : Io World Err (Unit {0})
  backstore_up = do
    check (mkdir_all iscsi_dir 0o755)
    check (mkdir_all backstore_data_dir 0o755)
    write_config H (join (backstore_data_dir ∷ bytes "control" ∷ []))
        (bytes "fd_dev_name=" ++ device)
    write_config H (join (backstore_data_dir ∷ bytes "control" ∷ []))
        (bytes "fd_dev_size=" ++ format_uint size)
    write_config H (join (backstore_data_dir ∷ bytes "attrib" ∷ bytes "emulate_write_cache" ∷ []))
        (bytes "1")
    write_config H (join (backstore_data_dir ∷ bytes "wwn" ∷ bytes "vpd_unit_serial" ∷ [])) name
    write_config H (join (backstore_data_dir ∷ bytes "enable" ∷ [])) (bytes "1")

  -- The target portal group with its LUN.
  lun_up : Io World Err (Unit {0})
  lun_up = do
    check (mkdir_all iqn_dir 0o755)
    check (mkdir_all tpgt_dir 0o755)
    check (mkdir_all lun_dir 0o755)
    check (symlink backstore_data_dir (join (lun_dir ∷ name ∷ [])))
    write_config H (join (tpgt_dir ∷ bytes "enable" ∷ [])) (bytes "1")

  -- The portal and the attributes of the group.
  portal_up : Io World Err (Unit {0})
  portal_up = do
    check (mkdir_all (join (tpgt_dir ∷ bytes "np" ∷ bytes "0.0.0.0:3260" ∷ [])) 0o755)
    write_config H (join (tpgt_dir ∷ bytes "attrib" ∷ bytes "authentication" ∷ [])) (bytes "0")
    write_config H (join (tpgt_dir ∷ bytes "attrib" ∷ bytes "generate_node_acls" ∷ [])) (bytes "0")
    write_config H (join (tpgt_dir ∷ bytes "attrib" ∷ bytes "demo_mode_write_protect" ∷ []))
        (bytes "0")

  -- `PlayUp`
  unfoldable pub play_up : Io World Err (Unit {0})
  unfolding sparse_file backstore_up lun_up portal_up
  play_up = sparse_file >> backstore_up >> lun_up >> portal_up
