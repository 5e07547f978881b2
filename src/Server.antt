-- ===== src/Server.antt =====
-- api/internal/server: the HTTP service.
pub mod Defs
pub mod Retry
pub mod Dlq
pub mod Records
pub mod Interleave
pub mod Accounts
pub mod Kept
pub mod Mint
pub mod Callback
pub mod Health
pub mod Metrics
pub mod Serve
