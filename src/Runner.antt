-- ===== src/Runner.antt =====
-- The runner (src/runner.rs): one pass over a chain reads the checkpoint, rolls back what a reorg has
-- replaced, and fetches, decodes and writes range after range up to the target block.
pub mod Interfaces
pub mod Anchors
pub mod Range
pub mod Pass
pub mod Reports
mod Tests
