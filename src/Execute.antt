-- ===== src/Execute.antt =====
-- `McpServer.executeTool` of transport/mcp-server.mjs: how a call of a tool goes through the guard of
-- its idempotency key, its payment and its handler.
pub mod Requests
pub mod Notes
pub mod Cached
pub mod Tool
pub mod Recorded
pub mod Repeat
mod Tests
