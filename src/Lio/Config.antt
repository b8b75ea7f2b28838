-- ===== src/Lio/Config.antt =====
-- `ReadConfig` to `SetConfig`, and `SetupLIO`.
pub mod Missing
use shortrack.Base.{not, Option, [], ◌∷◌}
use shortrack.Go.Text.{Text, bytes, text_eq, trim_space}
use shortrack.Go.Path.{join}
use shortrack.Host.{Host, Returned, value, failed, FileInfo}
use shortrack.Host.Io.{
  Io, os_error, when, branch, fail, crash, call, ◌>>=◌, ◌>>◌, check, or_return_unless,
}

module _ (H : Host) where
  open H use {World, Err, is_not_exist, read_file, stat, write_file, mkdir_all}

  -- `ReadConfig` and `ReadConfigString`.
  abbrev pub read_config_string : Text → World → (Text × Option Err) × World
  read_config_string path = read_file path

  -- What follows the call of `os.Stat`. Where the file is missing, `stat` is nil and its `Mode`
  -- is called all the same.
  write_with_mode : Text → Text → Returned Err FileInfo → Io World Err (Unit {0})
  write_with_mode path text (value info) w = check (write_file path text info.mode) w
  write_with_mode path text (failed e) w = branch (is_not_exist e) crash (fail (os_error e)) w

  -- `WriteConfig` and `WriteConfigString`.
  unfoldable pub write_config : Text → Text → Io World Err (Unit {0})
  unfolding write_with_mode
  write_config path text = call (stat path) >>= write_with_mode path text

  -- `SetConfig`
  unfoldable pub set_config : Text → Text → Io World Err (Unit {0})
  set_config path text = do
    r ← call (read_config_string path)
    or_return_unless is_not_exist r.1
    when (not (text_eq (trim_space r.0) (trim_space text))) (write_config path text)

  -- `SetupLIO`
  unfoldable pub setup_lio : Io World Err (Unit {0})
  setup_lio = do
    check (mkdir_all (join (bytes "/sys/kernel/config" ∷ bytes "target" ∷ [])) 0o755)
    check (mkdir_all (join (bytes "/sys/kernel/config" ∷ bytes "target" ∷ bytes "core" ∷ [])) 0o755)
    check
        (mkdir_all (join (bytes "/sys/kernel/config" ∷ bytes "target" ∷ bytes "iscsi" ∷ [])) 0o755)
