-- ===== src/Protocol.antt =====
-- The wire protocol: src/protocol.
pub mod Frame
pub mod Codec
pub mod Streaming
