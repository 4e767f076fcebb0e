-- ===== src/Contracts.antt =====
-- The smart contracts of contracts/src.
pub mod Escrow
pub mod TokenFactory
pub mod Dispute
