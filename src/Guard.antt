-- ===== src/Guard.antt =====
-- The guard of paid requests: idempotency keys, in memory
-- (services/mcp-adapter/src/payments/request-guard-store.mjs) and in the state store
-- (services/mcp-adapter/src/storage/state-store.mjs).
pub mod Record
pub mod Memory
pub mod Store
pub mod Spec
pub mod Refines
pub mod Agreement
pub mod Keys
mod Tests
