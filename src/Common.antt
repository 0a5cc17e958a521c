-- ===== src/Common.antt =====
-- The helpers that the server shares: src/common.
pub mod DedupWindow
pub mod ErrorCode
pub mod RateLimiter
pub mod Compression
pub mod Config
pub mod Decimal
pub mod ConfigFile
