-- ===== src/Types.antt =====
-- src/types.rs: what the gateway derives from a network's configuration, and the parsers of WireGuard's
-- statistics.
pub mod Names
pub mod Bridge
pub mod Ports
pub mod Forwarding
pub mod Stats
pub mod Wireguard
