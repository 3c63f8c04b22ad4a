-- ===== src/Decoder/Events/Typed.antt =====
-- What the functions that decode an event return (src/decoder/abi.rs).
pub mod Message
pub mod Delivery
pub mod Port
