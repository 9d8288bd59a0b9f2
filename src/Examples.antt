-- ===== src/Examples.antt =====
-- Runs of the actions on a small cluster, where the conditions of the theorems hold.
mod Fixtures
mod Fakes
mod Clusters
mod Isolation
mod Codec
mod Agreement
mod Attached
mod Failures
mod Deletions
mod Attach
mod Birth
mod Vms
mod Creation
mod Volumes
mod Ids
mod Disks
mod Finding
mod Erasing
mod Watches
mod Requests
mod Program
