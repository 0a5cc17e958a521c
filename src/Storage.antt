-- ===== src/Storage.antt =====
-- The message store: src/storage.
pub mod Message
pub mod Topic
pub mod Sweep
pub mod Store
pub mod Ordering
pub mod Drain
pub mod Pulls
pub mod Acks
pub mod DeadLetters
