-- ===== src/Play.antt =====
-- `play.go`: the commands `play-up` and `play-down`, which set up one target by hand and remove
-- every target. Log lines are left out.
pub mod Up
pub mod Down
pub mod Bounds
use shortrack.Base.{[], ◌∷◌}
use shortrack.Go.Text.{Text, bytes}
use shortrack.Host.{Host, Returned, value, failed, FileInfo}
use shortrack.Host.Io.{Io, os_error, branch, fail, crash, call, check, ◌>>=◌}

module _ (H : Host) where
  open H use {World, Err, is_not_exist, stat, write_file}

  -- What follows `os.Stat` in `WriteConfig`: a missing file leaves `stat` nil.
  write_stated : Text → Text → Returned Err FileInfo → Io World Err (Unit {0})
  write_stated path text (value info) w = check (write_file path text info.mode) w
  write_stated path text (failed e) w = branch (is_not_exist e) crash (fail (os_error e)) w

  -- The package's own `WriteConfig`.
  unfoldable pub write_config : Text → Text → Io World Err (Unit {0})
  unfolding write_stated
  write_config path text = call (stat path) >>= write_stated path text
