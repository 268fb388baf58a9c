-- ===== src/Gateway.antt =====
-- src/gateway.rs: bringing the system into the state that a configuration describes.
pub mod Iptables
pub mod Interfaces
pub mod Network
pub mod Settled
pub mod Kernel
pub mod Nginx
pub mod Namespaces
pub mod Effects
pub mod Apply
