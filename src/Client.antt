-- ===== src/Client.antt =====
-- client/src/lib.rs: the types that the gateway and its manager exchange, and their operations.
pub mod Traffic
pub mod Config
pub mod Event
