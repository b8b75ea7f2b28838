-- ===== src/Server.antt =====
-- `Server` of `sigma/sigma.go`: the gRPC handlers and the reconciliation, over the state and the
-- host's world.
pub mod Call
pub mod Persist
pub mod Pools
pub mod Volumes
pub mod CreateVolume
pub mod DeleteVolume
pub mod Reconcile
pub mod Invariant
pub mod Durable
pub mod Service
pub mod Spec
pub mod Order
pub mod Progress
pub mod Client
pub mod Process
pub mod Concurrent
