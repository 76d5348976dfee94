-- ===== src/Trust.antt =====
-- The decisions of the trust engine (packages/trust-engine/index.mjs): bands, states, policies and
-- events.
pub mod Band
pub mod Policy
pub mod Event
pub mod Safety
pub mod Severity
pub mod Ranges
pub mod Alerts
pub mod Unchanged
mod Tests
