-- ===== src/Lio/Disk.antt =====
-- `TouchDiskFile` and `DeleteDiskFile`.
pub mod Growth
use shortrack.Base.{Option, none, some}
use shortrack.Base.Int.{ℤ, pos, leb_ℤ, sub_int64}
use shortrack.Go.Text.{Text}
use shortrack.Host.{Host, Returned, value, failed, FileInfo}
use shortrack.Host.Io.{Io, Error, os_error, joined, branch, pure, fail, call, ◌>>=◌, check_unless}

-- `errors.Join` of two errors that may be nil.
abbrev pub join_errors : {E : Type 0} → Option E → Option E → Option (Error E)
join_errors none none = none
join_errors none (some e) = some (os_error e)
join_errors (some e) none = some (os_error e)
join_errors (some e) (some f) = some (joined (os_error e) (os_error f))

abbrev result_or : {W E A : Type 0} → A → Option (Error E) → Io W E A
result_or a none w = pure a w
result_or a (some e) w = fail e w

module _ (H : Host) where
  open H use {World, Err, Fd, is_not_exist, stat, create, close, fallocate, remove}

  -- `existingSize`: any error of `os.Stat` leaves it 0.
  abbrev pub existing_size : Returned Err FileInfo → ℤ
  existing_size (value info) = info.size
  existing_size (failed e) = pos 0

  -- The bare `return` after the size test hands back the error of `os.Stat`, which was assigned
  -- to the named result.
  abbrev stat_result : Returned Err FileInfo → ℤ → Io World Err ℤ
  stat_result (value info) size w = pure size w
  stat_result (failed e) size w = fail (os_error e) w

  -- `syscall.Fallocate` and the deferred close.
  allocate_at : ℤ → ℤ → Fd → Io World Err ℤ
  allocate_at existing size fd = do
    e ← call (fallocate fd 0 existing (sub_int64 size existing))
    c ← call (close fd)
    result_or size (join_errors e c)

  -- What follows `os.Create`.
  allocate : ℤ → ℤ → Returned Err Fd → Io World Err ℤ
  unfolding allocate_at
  allocate existing size (failed e) w = fail (os_error e) w
  allocate existing size (value fd) w = allocate_at existing size fd w

  -- `TouchDiskFile`
  unfoldable pub touch_disk_file : Text → ℤ → Io World Err ℤ
  unfolding allocate
  touch_disk_file path size = do
    found ← call (stat path)
    let existing = existing_size found
    branch (leb_ℤ size existing) (stat_result found existing)
        (call (create path) >>= allocate existing size)

  -- `DeleteDiskFile`
  unfoldable pub delete_disk_file : Text → Io World Err (Unit {0})
  delete_disk_file path = check_unless is_not_exist (remove path)
