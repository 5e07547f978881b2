-- ===== src/Contracts.antt =====
-- The contracts under contracts/src, in Solidity.
pub mod MintEscrow
pub mod UserRegistry
pub mod Compliance
