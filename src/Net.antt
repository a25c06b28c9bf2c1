-- ===== src/Net.antt =====
-- src/net: the egress allowlist, the gating resolver behind it, and the filter it programs.
pub mod Address
pub mod Text
pub mod Allowlist
pub mod Dns
pub mod Resolver
pub mod Nft
pub mod Netns
