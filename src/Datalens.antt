-- ===== src/Datalens.antt =====
-- The client of the Datalens service (src/datalens).
pub mod Types
pub mod Query
pub mod Attempts
pub mod Wire
pub mod Client
pub mod Pacer
mod Tests
