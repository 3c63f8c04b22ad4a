-- ===== src/Recovery.antt =====
-- The recovery of the events of one Tron deployment (src/tron_recovery).
pub mod Rpc
pub mod Decode
pub mod Scan
pub mod Command
mod Tests
