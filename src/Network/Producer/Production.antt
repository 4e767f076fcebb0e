-- ===== src/Network/Producer/Production.antt =====
-- The blocks that protocol/src/network/producer.rs makes and commits.
use mathlib.Core.Path.{subst}
use nova_protocol.Common.{
  ℕ, suc, ◌<◌, ◌≡◌, ◌≢◌, refl, sym, ap, String, none, some, List, [], map, arith, length, All,
  count_if, u64_max, string_key,
}
use nova_protocol.Common.Dict.{Dict, lookup}
use nova_protocol.Common.Exec.{ok}
use nova_protocol.Transaction
use nova_protocol.Transaction.{Transaction}
use nova_protocol.Blocks
use nova_protocol.Blocks.{Bytes, Block, BlockHeader, verify, compute_hash}
use nova_protocol.Blocks.Headers.{verify_lem, verify-new}
use nova_protocol.Database.{Codec, IsLawful, NovaDb, tx_batch, put_block}
use nova_protocol.Database.Blocks.{IsReadBack, get_block-put_block}
use nova_protocol.State.{AccountStore}
use nova_protocol.Network.Consensus
use nova_protocol.Network.Consensus.{Keypair}
use nova_protocol.Network.Mempool.{select_transactions, remove_batch}
use nova_protocol.Network.Mempool.Operations.{IsValid, remove_batch-IsValid}
use nova_protocol.Network.Mempool.Removal.{lookup-remove_batch, lookup-remove_batch_other}
use nova_protocol.Network.Producer.{
  BlockProducer, ProducedBlock, Executed, execute_all, produce_block, commit_block,
}
use nova_protocol.Network.Producer.Execution.{AllSucceed, execute_all_lem}

module _ (store : AccountStore) (p : Blocks.Primitives) (root : store.Tree → Bytes) where
  -- A produced block, and the producer after it, fit the producer before.
  pub record IsProduced {B : Type 0} (parent : Block) (max_txs : ℕ) (s : BlockProducer store B)
      (b : ProducedBlock) (s' : BlockProducer store B) : Type 0 where
    pub passes : verify p b.block ≡ ok tt
    pub height : b.block.header.height ≡ suc parent.header.height
    pub parent_link : b.block.header.parent_hash ≡ parent.header.hash
    pub validator : b.block.header.validator ≡ s.validator_address
    pub signature : b.block.header.signature ≡ s.keypair.sign b.block.header.hash
    pub state_root : b.block.header.state_root ≡ root s'.state_tree
    pub replay_tree : (execute_all store b.block.transactions s.state_tree).tree ≡ s'.state_tree
    pub replay_succeeds : AllSucceed store (execute_all store b.block.transactions s.state_tree)
    pub results :
        map (λ r. r.tx_id) b.tx_results ≡ map (λ tx. tx.id) (select_transactions max_txs s.mempool)
    pub successes : count_if (λ r. r.success) b.tx_results ≡ length b.block.transactions
    pub same_mempool : s'.mempool ≡ s.mempool
    pub same_db : s'.db ≡ s.db

  -- On a parent of a height below the maximum a block is always produced. It passes `verify`, is one
  -- higher and names its parent; its state root is that of the producer's tree after it, and to that
  -- tree its transactions lead, all succeeding, when they alone are executed from the tree before. Each
  -- candidate has its result, and those that succeeded are counted by the block. The pool and the
  -- database stay as they are.
  pub produce_block_lem :
      {B : Type 0} (now_ms : ℕ) (parent : Block) (max_txs : ℕ) (s : BlockProducer store B)
      → parent.header.height < u64_max
      → let (r, s') = produce_block store p root now_ms parent max_txs s in
        (b : ProducedBlock) × (r ≡ ok b) × IsProduced parent max_txs s b s'
  unfolding produce_block compute_hash Blocks.new
  produce_block_lem now_ms parent max_txs s h =
      let x : Executed store =
        execute_all store (select_transactions max_txs s.mempool) s.state_tree in
      let (_, tree, all, ids, many) =
        execute_all_lem store (select_transactions max_txs s.mempool) s.state_tree in
      let (_, good, higher, linked) =
        verify-new p now_ms parent x.successful_txs s.validator_address (root x.tree) h in
      let bare : Block =
        Blocks.new p now_ms parent x.successful_txs s.validator_address (root x.tree) in
      let header : BlockHeader = record bare.header {
        signature = s.keypair.sign bare.header.hash;
      } in
      let b : Block = record bare { header = header } in
      (
        record { block = b; tx_results = x.tx_results; state_root = root x.tree },
        refl,
        record {
          passes = (verify_lem p b).1 ((verify_lem p bare).0 good);
          height = higher;
          parent_link = linked;
          validator = refl;
          signature = refl;
          state_root = refl;
          replay_tree = tree;
          replay_succeeds = all;
          results = ids;
          successes = many;
          same_mempool = refl;
          same_db = refl;
        },
      )

  -- Where the database takes the block, `commit_block` stores it and takes its transactions, and no
  -- others, out of the pool, which stays valid; the state tree stays as it is.
  pub commit_block_lem :
      (t : Transaction.Primitives) (codec : Codec) (b : Block) (bytes : codec.Encoded)
      (batch : Dict String codec.Encoded) (s : BlockProducer store codec.Encoded)
      → IsLawful codec
      → s.db.faults ≡ []
      → codec.from_block b ≡ some bytes
      → tx_batch codec b.transactions ≡ some batch
      → IsValid t s.mempool
      → let (r, s') = commit_block store codec b s in
        (r ≡ ok tt)
        × IsReadBack codec b s.db (ok tt, s'.db)
        × All (λ id. lookup id s'.mempool.transactions ≡ none) (map (λ tx. tx.id) b.transactions)
        × ((id : String)
            → All (λ other. id ≢ other) (map (λ tx. tx.id) b.transactions)
            → lookup id s'.mempool.transactions ≡ lookup id s.mempool.transactions)
        × IsValid t s'.mempool
        × (s'.state_tree ≡ s.state_tree)
  unfolding commit_block
  commit_block_lem t codec b bytes batch s law calm h k v =
      let ids : List String = map (λ tx. tx.id) b.transactions in
      let db' : NovaDb codec.Encoded = (put_block codec b s.db).1 in
      let read = get_block-put_block codec b bytes batch s.db law calm h k in
      let (_, read₂, read₃, read₄, read₅, read₆) = read in
      let read' : IsReadBack codec b s.db (ok tt, db') =
        (refl, read₂, read₃, read₄, read₅, read₆) in
      let done : put_block codec b s.db ≡ (ok tt, db') = ap (λ r. (r, db')) read.0 in
      let out : BlockProducer store codec.Encoded = record s {
        db = db';
        mempool = remove_batch ids s.mempool;
      } in
      let g : commit_block store codec b s ≡ (ok tt, out) = ground (arith, done) in
      subst
        (λ o.
          (o.0 ≡ ok tt)
          × IsReadBack codec b s.db (ok tt, o.1.db)
          × All (λ id. lookup id o.1.mempool.transactions ≡ none) ids
          × ((id : String)
              → All (λ other. id ≢ other) ids
              → lookup id o.1.mempool.transactions ≡ lookup id s.mempool.transactions)
          × IsValid t o.1.mempool
          × (o.1.state_tree ≡ s.state_tree))
        (sym g)
        (
          refl,
          read',
          lookup-remove_batch ids s.mempool,
          (λ id a. lookup-remove_batch_other id ids s.mempool a),
          remove_batch-IsValid t ids s.mempool v,
          refl,
        )
