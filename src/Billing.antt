-- ===== src/Billing.antt =====
-- The payment tables through any history of calls: reservations, settlement events, and the writes
-- of metadata and traces (state-store.mjs and reconciliation-service.mjs together).
pub mod History
pub mod Reservations
pub mod Stages
pub mod Evolution
pub mod Growth
pub mod Lifecycle
pub mod Limit
pub mod Replays
pub mod Window
mod Tests
