-- ===== src/Tests.antt =====
-- Concrete nodes, streams and sessions, at which the theorems are applied.
pub mod Demo
pub mod Configs
pub mod Duplexes
pub mod Events
pub mod Streams
pub mod Sessions
pub mod Listeners
pub mod Transports
