-- ===== src/Entitlement.antt =====
-- Entitlement tokens and the sessions they open
-- (services/mcp-adapter/src/security/entitlement-token.mjs).
pub mod Scopes
pub mod Token
pub mod Guards
pub mod Sessions
pub mod Admits
pub mod Valid
pub mod Bindings
pub mod Kept
mod Tests
