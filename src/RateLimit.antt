-- ===== src/RateLimit.antt =====
-- The package internal/ratelimit: a token bucket that a goroutine refills at each tick of a ticker.
mod Examples
pub mod TokenBucket
pub mod Middleware
pub mod Flow
