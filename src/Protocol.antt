-- ===== src/Protocol.antt =====
-- The wire protocol: crates/protocol.
pub mod Ids
pub mod Wire
pub mod Geometry
pub mod Frame
pub mod Message
