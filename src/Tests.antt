-- ===== src/Tests.antt =====
-- Runs of the definitions, and the theorems at concrete inputs.
mod Wire
mod Names
mod Retention
mod Guests
mod Gate
mod Rules
mod Profile
mod Guest
mod State
mod Mounts
mod Contract
mod Workspaces
mod Timestamps
mod Host
mod Words
