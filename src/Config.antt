-- ===== src/Config.antt =====
-- The package conf.
pub mod Types
pub mod Reader
pub mod Http
pub mod Validate
pub mod Startup
pub mod Laws
mod Tests
