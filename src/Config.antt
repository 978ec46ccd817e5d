-- ===== src/Config.antt =====
-- The configuration of sinks and of the manager: typed options kept as texts.
pub mod SinkConfig
pub mod ManagerConfig
pub mod Laws
mod Tests
