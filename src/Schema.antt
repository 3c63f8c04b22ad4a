-- ===== src/Schema.antt =====
-- The legacy schema's events, rows and assignment rules (src/schema).
pub mod Types
pub mod Ids
pub mod Rows
pub mod Assignments
