-- ===== src/Authorize.antt =====
-- `EntitlementService` of payments/entitlements.mjs: the payment that a call carries, the assets and
-- networks that are accepted, and the authorisation that bills it.
pub mod Payment
pub mod Assets
pub mod Diagnostics
pub mod Requests
pub mod Service
pub mod Outcome
pub mod Once
pub mod Grants
mod Tests
