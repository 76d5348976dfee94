-- ===== src/Resilience.antt =====
-- The resolution of trust over an unreliable upstream
-- (services/mcp-adapter/src/client/upstream-resilience.mjs) and the trust cache of state-store.mjs.
pub mod Cache
pub mod Upstream
pub mod Outcome
pub mod Fallback
mod Tests
