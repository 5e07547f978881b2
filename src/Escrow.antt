-- ===== src/Escrow.antt =====
-- api/internal/escrow: the interface of the on-chain escrow, and the two clients.
pub mod Defs
pub mod Fake
pub mod Eth
pub mod Receipt
pub use Defs.*
