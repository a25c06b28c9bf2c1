-- ===== src/Config.antt =====
-- src/config: the state that vivarium keeps on the host.
pub mod Files
pub mod Generations
pub mod Timestamps
pub mod Volumes
