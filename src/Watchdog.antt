-- ===== src/Watchdog.antt =====
-- src/watchdog.rs: the statistics of each network, turned into events and traffic data.
pub mod Peer
pub mod Network
pub mod Runs
