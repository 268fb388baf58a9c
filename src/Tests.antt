-- ===== src/Tests.antt =====
-- The theorems at concrete inputs.
pub mod Data
mod ClientCrate
mod Tables
mod Daemon
mod Runs
mod Applying
pub mod Manager
mod Texts
mod Quiet
mod Again
mod Start
mod Integration
