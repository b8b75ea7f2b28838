-- ===== src/Tests.antt =====
-- Tests of the components on concrete hosts.
mod Codec
mod Hosts
mod Pools
mod Packages
mod Telemetry
mod Process
mod Provisioner
mod Progress
mod Order
mod Reconcile
mod Play
mod Removal
mod Cli
mod Disk
mod Volumes
