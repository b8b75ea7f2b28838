-- ===== src/Lib.antt =====
-- shortrack, a server that manages iSCSI volumes through the kernel's LIO target.
--
-- The server (`sigma/sigma.go`) keeps pools of volumes in memory and in a JSON file, answers eight
-- gRPC calls (`pb/shortrack.proto`), and makes the tree under /sys/kernel/config/target follow its
-- state: a pool is an iSCSI target with one portal group, a volume is a disk file, a backstore on
-- it and a LUN of its pool's target. A ticker calls `ReconcileAll`, which builds the same tree
-- from the state. Its clients are a Kubernetes provisioner (`k8sprovisioner/k8sprovisioner.go`)
-- and the commands of `main.go`.
--
-- Files and code:
--
-- - State: `ServerConfig`, `State` with its pools and volumes, `Backstore`, `Target`.
-- - Host: packages `os` and `syscall` and the JSON codec as a record of functions over a type of
--   worlds; no theorem assumes anything of them but by a named hypothesis. Host/Io is the monad of
--   functions that return an `error`; a nil dereference is the outcome `panic`.
-- - Go: what the code uses of `strings`, `strconv` and `path`. A string is a list of bytes.
-- - Lio/Config, Disk, Backstores, Portals, Luns, Targets: the functions from `ReadConfig` to
--   `UpsertLUN`, one definition each, `ListTargets` as `list_targets` and so on; a loop's round
--   and what follows a call are definitions of their own.
-- - Host/Io/Keeping and Lio/Removal: code that keeps a predicate of the world, and what the
--   functions `DeletePortal` to `DeleteBackstore` remove. Go/Path/Names: what `path.Join` makes of
--   names without separators and dots, and the paths below a directory; Lio/Tree: the names under
--   /sys/kernel/config/target.
-- - Pb: the messages. Server/Call: a handler, which changes state and world, may return early with
--   a partial response and a `status.Errorf`, and may panic.
-- - Server/Persist, Pools, Volumes, CreateVolume, DeleteVolume, Reconcile: `LoadState` and
--   `SaveState`, the handlers, and `ReconcileAll`, in the order of the source's statements.
--   Server/Service runs any list of requests, one after the other; after a panic it goes on with
--   what the panic has left, where the process would end.
-- - Server/Process: `sigma/command.go`, the start of the server and the life of its process, which
--   a panic ends. `os.Hostname` and `net.Listen` are parameters.
-- - Server/Concurrent: calls that run at once, as a step relation on the store and the calls that
--   wait for `StateMutex`. Its child Linear names the call that a step completes.
-- - Server/Order: stores that differ at most in the order of their maps, and the quotient of the
--   stores by that, on which the service runs (Server/Order/Served).
-- - Host/Working, Lio/Working, Server/Progress: a host that can do what is asked of it, where a
--   file may be missing, and `CreateVolume` and the functions from `WriteConfig` to `UpsertLUN`
--   that it calls on it.
-- - Server/Spec: an abstract service, which knows pools and volumes by number and has no order,
--   file or kernel. Server/Durable: what is in the file after a call.
-- - Server/Client: the server as the `SigmaClient` (Pb/Client) of its clients; an error comes
--   without the response.
-- - Provisioner: `k8sprovisioner/k8sprovisioner.go`. Number is `ParseNumber`, Provision and Delete
--   the two operations, Pool what they share. The Kubernetes libraries, `mapstructure` and
--   `grpc.NewClient` are the record `Kube`. Command is `k8sprovisioner/command.go`, over the
--   record `Cluster`.
-- - Cli: the commands of `main.go` that call the service; Cli/Commands has their flags and what
--   their actions read. Play: `play.go`, the commands that set up one target by hand and remove
--   every target; `fd.Seek` is a parameter.
-- - Server/Invariant: what holds of the state between requests. The children of a module hold its
--   theorems. Tests: concrete hosts, a codec for every state (Tests/Codec), and theorems applied
--   at them.
-- - Env, Ptr: `pkg/env/env.go` with the environment as a function and its error types in
--   Env/Errors, and `pkg/ptr/ptr.go` with a pointer as an optional value.
-- - Telemetry: `pkg/telemetry/telemetry.go`. A logger is what it was made with, a context the list
--   of its values; Telemetry/Exporter is `StartTelemetry` and `Shutdown` over the functions of
--   OpenTelemetry.
--
-- Numbers are naturals; `uint16(n)` is `uint16 n`, the remainder modulo 2 ^ 16, and `int64` and
-- `uint64` conversions are `to_int64` and `to_uint64`. A Go map is an association list: iteration
-- takes its order, where Go's is arbitrary, and Server/Order is about what depends on it. Decimal
-- printing runs on fuel one above the number, which the round trip of Go/Number/Laws shows to be
-- enough; the search for a pool's number has its 65535 rounds from the source.
--
-- Not modelled: readers that share the lock, the text of error messages (format and arguments are
-- kept), log lines and traces of the server and its clients, the gRPC transport and generated
-- code, and the parsing of flags, which is the library's; `strings.ToUpper` on text that is not
-- ASCII is a parameter.
pub mod Base
pub mod Go
pub mod State
pub mod Telemetry
pub mod Host
pub mod Lio
pub mod Pb
pub mod Server
pub mod Env
pub mod Ptr
pub mod Provisioner
pub mod Cli
pub mod Play
mod Tests
