-- ===== src/Launch.antt =====
-- src/launch: the confinement of the backend's commands, and the declared mounts of a launch.
pub mod Spec
pub mod Paths
pub mod Checks
pub mod Contract
pub mod Workspace
pub mod Policy
pub mod Mounts
