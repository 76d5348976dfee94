-- ===== src/RateLimit.antt =====
-- The rate limits of the adapter (services/mcp-adapter/src/middleware/rate-limit-strategy.mjs and
-- rate-limit.mjs).
pub mod Buckets
pub mod Strategies
pub mod Counts
pub mod Limiter
pub mod Agreement
mod Tests
