-- ===== src/Agent.antt =====
-- src/bin/vivarium-guest-agent: the agent in the guest.
pub mod Control
pub mod Sessions
pub mod Trim
