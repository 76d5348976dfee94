-- ===== src/Reconcile.antt =====
-- The reconciliation of receipts with what the payment verifier reports
-- (services/mcp-adapter/src/payments/reconciliation-service.mjs).
pub mod Mapping
pub mod Apply
pub mod Once
pub mod Orderly
mod Tests
