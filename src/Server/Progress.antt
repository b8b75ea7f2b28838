-- ===== src/Server/Progress.antt =====
-- `CreateVolume` succeeds on a host that can do what is asked of it.
use shortrack.Host.{Host}
