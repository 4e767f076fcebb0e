-- ===== src/Network.antt =====
-- protocol/src/network: the consensus among validators, the pool of pending transactions and the
-- production of blocks.
pub mod Consensus
pub mod Mempool
pub mod Producer
