-- ===== src/RateLimit.antt =====
-- The rate limits of crates/api/src/rate_limit.rs.
pub mod Redis
pub mod Decimal
pub mod Middleware
pub mod Bound
pub mod Log
pub mod Kept
pub mod Window
pub mod Tests
