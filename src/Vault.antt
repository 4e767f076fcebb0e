-- ===== src/Vault.antt =====
-- The wallet's vault of protocol/src/vault: balances and credit lines.
pub mod Balance
pub mod Credit
