-- ===== src/Decoder/Events.antt =====
-- One function for each event (src/decoder/abi.rs): the fields that the topics do not have are read
-- from the data, in the order of the fields of the source's struct expression.
pub mod Ormp
pub mod Port
pub mod Fields
pub mod Typed
