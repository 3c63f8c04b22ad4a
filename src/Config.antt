-- ===== src/Config.antt =====
-- The configuration (src/config.rs).
pub mod Types
pub mod Modes
pub mod Env
mod Tests
