-- ===== src/Storage.antt =====
-- The adapter's SQLite state store (services/mcp-adapter/src/storage/state-store.mjs).
pub mod Tables
pub mod Replay
pub mod Receipts
pub mod Reserve
pub mod Settlement
pub mod Locks
pub mod Journal
mod Tests
