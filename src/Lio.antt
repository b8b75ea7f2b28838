-- ===== src/Lio.antt =====
-- The functions of `sigma/sigma.go` that configure the kernel's LIO subsystem through configfs.
pub mod Config
pub mod Disk
pub mod Backstores
pub mod Portals
pub mod Luns
pub mod Working
pub mod Removal
pub mod Tree
pub mod Targets
