-- ===== src/Actions.antt =====
-- actions/: the CPI's actions, one module each.
pub mod Names
pub mod Volumes
pub mod VolumeManager
pub mod Disks
pub mod Vms
pub mod CreateVm
pub mod Stemcell
pub mod Attached
pub mod Agreement
pub mod History
