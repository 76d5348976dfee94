-- ===== src/Platform.antt =====
-- The platform behind the API, `TrustPlatform` of apps/api/lib/platform.mjs: webhooks, and passports,
-- evidence and idempotent requests.
pub mod Webhooks
pub mod Deliveries
pub mod Registry
pub mod Passports
pub mod Evidence
pub mod Calls
pub mod Replayed
pub mod Blocked
pub mod Access
pub mod Quota
mod Tests
mod AccessTests
