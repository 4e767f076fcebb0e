-- ===== src/Lib.antt =====
-- NOVA protocol: transactions and blocks, the pool, the producer, the database and the consensus, the
-- state tree and its transfers, settlement, the vault and the contracts.
--
-- A transaction is built and signed (Transaction), waits in the pool (Network/Mempool), is executed
-- on the accounts (State) by the producer (Network/Producer), which makes a block (Blocks) and puts
-- it into the database (Database); the validators vote on blocks (Network/Consensus).
--
-- The parts and the files that model them:
--
--   State            protocol/src/storage/state.rs: AccountState, and AccountStore, the interface that
--                    a transfer needs of the tree.
--   State/Codec      one serialisation of account states, for the examples.
--   State/Smt        StateTree, the sparse Merkle tree: get, put, get_proof, verify_proof. Consistency
--                    says when the stored nodes form a Merkle tree, Update what put writes, Proofs
--                    what get_proof proves, Descent, Inclusion and Soundness what an
--                    accepted proof shows, Store makes the tree an AccountStore.
--   State/Transfer   apply_transfer over any AccountStore.
--   Vault/Balance    protocol/src/vault/balance.rs: BalanceSheet.
--   Vault/Credit     protocol/src/vault/credit.rs: CreditLine, and CreditLineManager in
--                    Vault/Credit/Manager.
--   Contracts/Escrow        contracts/src/credit_escrow.rs: CreditEscrow.
--   Contracts/Dispute       contracts/src/dispute_resolution.rs: Dispute.
--   Contracts/TokenFactory  contracts/src/token_factory.rs: TokenFactory.
--   Identity         protocol/src/identity/nova_id.rs: NovaId and its address.
--   Transaction      protocol/src/transaction: types.rs and builder.rs; signing.rs and verification.rs in
--                    Transaction/Verification. Encoding says what the signed bytes determine, Checks
--                    what is accepted, Forgery what others can change.
--   Blocks           protocol/src/storage/block.rs: Block, its hash and Merkle root. Tree, Levels and
--                    Roots are about the root, Headers about the hash.
--   Database         protocol/src/storage/db.rs: NovaDB over maps, with calls of sled that may fail.
--   Network/Mempool  protocol/src/network/mempool.rs: Index has the order of the fee index, Pool
--                    and Counts how the indices follow from the transactions, Operations and Removal what the
--                    operations keep, Eviction and Admission the contract of add, Selection the order.
--   Network/Producer protocol/src/network/producer.rs: Execution of candidates, Production of blocks.
--   Settlement       protocol/src/ntp/settlement.rs: Machine is about the state machine.
--   Handshake        protocol/src/ntp/handshake.rs: the key exchange; Agreement has what the ends share.
--   Network/Consensus       protocol/src/network/consensus.rs: ValidatorSet in Validators, ConsensusEngine;
--                           Votes and Overlap carry the lemmas for Quorum, Rotation and Phases.
--   Common           what the parts share: Boolean tests, lists, 64-bit words, keys, maps as
--                    association lists, and Exec, the results of methods with `&mut self`.
--
-- A method with `&mut self` is a function from the state to a result and the new state; an early
-- return keeps what was written before. The value of the clock at a call, fresh UUIDs and Unicode
-- upper-casing are arguments. Amounts are natural numbers; where the source adds unchecked, the
-- sum is taken modulo 2^64, as in a release build, and where it uses checked arithmetic the bound
-- is tested. The depth 256 of the state tree is a parameter, the depth of the examples is 4.
-- BLAKE3 and the serialisation are parameters with the laws IsLawful: a hash has its length, and
-- an account is read back equal to what was written, where the entries of its map of commitments
-- may come in another order; a theorem that needs the same bytes or the same order says so.
-- bech32 is a parameter that reads back what it wrote for the prefix of the addresses and 32
-- bytes. Loops run over a list or a number of levels, but for the loop over the levels of the
-- Merkle root of a block, whose fuel is the number of transactions after the first: each turn
-- leaves fewer hashes. The operations of the pool, whose maps are concurrent in the source, run
-- one after the other.
--
-- Not modelled: the consensus loop, gossip, sync and RPC and their runtime, the proof requests and
-- receipts, the wallet, the recovery, the cryptography, the zero-knowledge circuits and the node
-- binary, since they are input and output, wrappers of other crates, or parts that have not been
-- reached.
pub mod Common
pub mod Contracts
pub mod Vault
pub mod State
pub mod Blocks
pub mod Database
pub mod Identity
pub mod Transaction
pub mod Network
pub mod Settlement
pub mod Handshake
