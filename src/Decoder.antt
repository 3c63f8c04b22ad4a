-- ===== src/Decoder.antt =====
-- The decoder of logs (src/decoder): from the text of a log to one of the events.
pub mod Hex
pub mod Topics
pub mod Failures
pub mod Abi
pub mod Events
pub mod Evm
pub mod Zeros
mod Tests
