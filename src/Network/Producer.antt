-- ===== src/Network/Producer.antt =====
-- `BlockProducer` of protocol/src/network/producer.rs, over any store of accounts. `now_ms` is the
-- value of the system clock. The texts of errors and the log are left out.
pub mod Execution
pub mod Production
mod Tests
use nova_protocol.Common.{ℕ, String, Bool, true, false, Option, none, some, List, [], ◌∷◌, map}
use nova_protocol.Common.Exec.{Result, ok, err, panic, Exec}
use nova_protocol.Transaction.{
  Transaction, TransactionType, transfer, credit_request, credit_settlement, token_mint, token_burn,
  confidential_transfer,
}
use nova_protocol.Blocks
use nova_protocol.Blocks.{Bytes, Block, BlockHeader}
use nova_protocol.Database.{Codec, NovaDb, DbError, put_block}
use nova_protocol.State.{AccountStore}
use nova_protocol.State.Transfer.{StateError, apply_transfer}
use nova_protocol.Network.Consensus.{Keypair}
use nova_protocol.Network.Mempool.{Mempool, select_transactions, remove_batch}

pub data BlockProductionError : Type 0 where
  state_error : StateError → BlockProductionError
  db_error : DbError → BlockProductionError
  empty_mempool no_transactions : BlockProductionError
  signing_error : String → BlockProductionError

pub record TxResult : Type 0 where
  pub tx_id : String
  pub success : Bool
  pub error : Option BlockProductionError

pub record ProducedBlock : Type 0 where
  pub block : Block
  pub tx_results : List TxResult
  pub state_root : Bytes

module _ (store : AccountStore) where
  pub record BlockProducer (B : Type 0) : Type 0 where
    pub db : NovaDb B
    pub state_tree : store.Tree
    pub mempool : Mempool
    pub keypair : Keypair
    pub validator_address : String

  -- `BlockProducer::new`
  abbrev pub new :
      {B : Type 0} → (Bytes → String) → NovaDb B → store.Tree → Mempool → Keypair → BlockProducer B
  new to_hex db state_tree mempool keypair = record {
    db = db;
    state_tree = state_tree;
    mempool = mempool;
    keypair = keypair;
    validator_address = to_hex keypair.public_key;
  }

  -- `apply_transfer(…)?`
  abbrev pub with_state_error :
      Result (Unit {0}) StateError × store.Tree
      → Result (Unit {0}) BlockProductionError × store.Tree
  with_state_error (ok _, t) = (ok tt, t)
  with_state_error (err e, t) = (err (state_error e), t)
  with_state_error (panic, t) = (panic, t)

  unfoldable pub execute_transaction : Transaction → Exec store.Tree (Unit {0}) BlockProductionError
  execute_transaction tx t = elim tx.tx_type [
    | transfer ↦ with_state_error (apply_transfer store tx.sender tx.receiver tx.amount.value t)
    | credit_request ↦ (ok tt, t)
    | credit_settlement ↦ (ok tt, t)
    | token_mint ↦ (ok tt, t)
    | token_burn ↦ (ok tt, t)
    | confidential_transfer ↦ (ok tt, t)
  ]

  -- What the loop over the candidates has at its end.
  pub record Executed : Type 0 where
    pub successful_txs : List Transaction
    pub tx_results : List TxResult
    pub tree : store.Tree

  -- The turn for one candidate, before those of the later ones.
  abbrev pub record_outcome :
      Transaction → Result (Unit {0}) BlockProductionError → Executed → Executed
  record_outcome tx (ok _) x = record x {
    successful_txs = tx ∷ x.successful_txs;
    tx_results = record { tx_id = tx.id; success = true; error = none } ∷ x.tx_results;
  }
  record_outcome tx (err e) x = record x {
    tx_results = record { tx_id = tx.id; success = false; error = some e } ∷ x.tx_results;
  }
  record_outcome tx panic x = x

  unfoldable pub execute_all : List Transaction → store.Tree → Executed
  execute_all [] t = record { successful_txs = []; tx_results = []; tree = t }
  execute_all (tx ∷ txs) t =
      let (r, t') = execute_transaction tx t in record_outcome tx r (execute_all txs t')

  -- `root` is `StateTree::root`.
  unfoldable pub produce_block :
      {B : Type 0}
      → Blocks.Primitives
      → (store.Tree → Bytes)
      → ℕ
      → Block
      → ℕ
      → BlockProducer B
      → Result ProducedBlock BlockProductionError × BlockProducer B
  produce_block p root now_ms parent max_txs s =
      let x : Executed = execute_all (select_transactions max_txs s.mempool) s.state_tree in
      let state_root : Bytes = root x.tree in
      let bare : Block =
        Blocks.new p now_ms parent x.successful_txs s.validator_address state_root in
      let header : BlockHeader = record bare.header {
        signature = s.keypair.sign bare.header.hash;
      } in
      (
        ok (record {
          block = record bare { header = header };
          tx_results = x.tx_results;
          state_root = state_root;
        }),
        record s { state_tree = x.tree },
      )

  unfoldable pub commit_block :
      (codec : Codec)
      → Block
      → BlockProducer codec.Encoded
      → Result (Unit {0}) BlockProductionError × BlockProducer codec.Encoded
  commit_block codec block s =
      let (r, db) = put_block codec block s.db in
      let s' : BlockProducer codec.Encoded = record s { db = db } in
      elim r [
        | err e ↦ (err (db_error e), s')
        | panic ↦ (panic, s')
        | ok _ ↦ (
          ok tt,
          record s' { mempool = remove_batch (map (λ tx. tx.id) block.transactions) s.mempool },
        )
      ]
