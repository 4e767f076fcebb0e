-- ===== src/Network/Consensus/Proposals.antt =====
-- The blocks that `propose_block` of protocol/src/network/consensus.rs makes.
use nova_protocol.Common.{
  ℕ, ◌≤◌, ◌≡◌, ◌≢◌, inl, inr, refl, sym, ap, ◌∙◌, true, some, List, [], ◌∷◌, In, arith, length,
  same_iff, string_key, bits_key, Option-cases, Nat-cases,
}
use nova_protocol.Common.Exec.{ok, err}
use nova_protocol.Transaction.{Transaction}
use nova_protocol.Blocks
use nova_protocol.Blocks.{
  Bytes, Block, BlockHeader, BlockFault, tx_root_mismatch, compute_merkle_root, compute_hash,
}
use nova_protocol.Blocks.Headers.{verify-tx_root_mismatch}
use nova_protocol.Network.Consensus.{
  Primitives, Keypair, ConsensusEngine, compute_transactions_root, bare_header, sign_header,
  propose_block, validate_block,
}
use nova_protocol.Network.Consensus.Validators.{
  ValidatorInfo, ValidatorSet, contains, active_count, proposer_for_round,
}
use nova_protocol.Network.Consensus.Rotation.{proposer_for_round_lem}
use nova_protocol.Network.Consensus.Phases.{validate_block_lem}

module _ (p : Primitives) where
  -- What a key pair of the Ed25519 crate does, and the codec on its key.
  pub record IsKeypair (keypair : Keypair) : Type 0 where
    pub verify-sign : (m : Bytes) → p.verify keypair.public_key m (keypair.sign m) ≡ true
    pub length-sign : (m : Bytes) → length (keypair.sign m) ≡ 512
    pub from-to : p.from_hex (p.to_hex keypair.public_key) ≡ some keypair.public_key

  -- What has been proposed names the proposer of the round and has no more transactions than allowed.
  propose_block-sign_header :
      (now_ms : ℕ) (txs : List Transaction) (keypair : Keypair) (e : ConsensusEngine) (b : Block)
      → propose_block p now_ms txs keypair e ≡ ok b
      → (b ≡ sign_header p now_ms txs keypair e)
        × (length txs ≤ e.config.max_block_transactions)
        × ((v : ValidatorInfo) × (proposer_for_round e.current_round e.validator_set
              ≡ some (some v))
            × (v.address ≡ p.to_hex keypair.public_key))
  unfolding propose_block
  propose_block-sign_header now_ms txs keypair e b h =
      elim (Option-cases (proposer_for_round e.current_round e.validator_set)) [
        | inl q ↦ absurd (ground (arith, q))
        | inr (o, q) ↦ elim (Option-cases o) [
          | inl r ↦ absurd (ground (arith, q, r))
          | inr (v, r) ↦
              let s = same_iff v.address (p.to_hex keypair.public_key) in
              (
                ground (arith, q, r, s),
                ground (arith, q, r, s),
                (v, q ∙ ap some r, ground (arith, q, r, s)),
              )
        ]
      ]

  contains-In :
      (v : ValidatorInfo) (s : ValidatorSet)
      → In v s
      → v.active ≡ true
      → contains v.address s ≡ true
  unfolding contains
  contains-In v [] m a = absurd m
  contains-In v (w ∷ s) (inl e) a =
      let named : w.address ≡ v.address = ap (λ v. v.address) (sym e) in
      let on : w.active ≡ true = ap (λ v. v.active) (sym e) ∙ a in
      ground (arith, named, on, same_iff w.address v.address)
  contains-In v (w ∷ s) (inr m) a = ground (arith, contains-In v s m a)

  contains-proposer_for_round :
      (round : ℕ) (s : ValidatorSet) (v : ValidatorInfo)
      → proposer_for_round round s ≡ some (some v)
      → contains v.address s ≡ true
  contains-proposer_for_round round s v h =
      let (alone, turns) = proposer_for_round_lem round s in
      elim (Nat-cases (active_count s)) [
        | inl q ↦ absurd (let none_left = alone q in ground arith)
        | inr q ↦
            let (w, e, m, on, _) = turns q in
            let same : w ≡ v = cc in rw (sym same) (contains-In w s m on)
      ]

  -- A block that the proposer of the round makes is accepted by every engine in the same state: it
  -- has the next height and the last block as its parent, and its signature is good.
  pub validate_block-propose_block :
      (now_ms : ℕ) (txs : List Transaction) (keypair : Keypair) (e : ConsensusEngine) (b : Block)
      → IsKeypair keypair
      → propose_block p now_ms txs keypair e ≡ ok b
      → (validate_block p b e ≡ ok true)
        × (b.transactions ≡ txs)
        × (b.header.hash ≡ compute_hash p.blocks b)
  unfolding sign_header bare_header compute_hash
  validate_block-propose_block now_ms txs keypair e b k h =
      let (made, few, (v, turn, address)) = propose_block-sign_header now_ms txs keypair e b h in
      let c : Block = sign_header p now_ms txs keypair e in
      let member : contains (p.to_hex keypair.public_key) e.validator_set ≡ true =
        rw (sym address) (contains-proposer_for_round e.current_round e.validator_set v turn) in
      let good : validate_block p c e ≡ ok true = (validate_block_lem p c e).1 (
        refl,
        refl,
        member,
        few,
        k.length-sign _,
        (keypair.public_key, k.from-to, k.verify-sign _),
      ) in
      (rw made good, ap (λ b. b.transactions) made, rw made refl)

  -- What `validate_block` accepts it accepts with any other transactions in place of the block's,
  -- as long as they are not too many: it never refuses a root of the transactions.
  pub validate_block_swapped :
      (b : Block) (txs : List Transaction) (e : ConsensusEngine)
      → validate_block p b e ≡ ok true
      → length txs ≤ e.config.max_block_transactions
      → validate_block p (record b { transactions = txs }) e ≡ ok true
  validate_block_swapped b txs e h few =
      let (height, parent, member, _, signature, good) = (validate_block_lem p b e).0 h in
      (validate_block_lem p (record b { transactions = txs }) e).1
        (height, parent, member, few, signature, good)

  -- A proposed block does not pass the `verify` of the block store, which takes the root of the
  -- transactions for a Merkle root, unless the hash of the joined ids is that Merkle root.
  pub verify-propose_block :
      (now_ms : ℕ) (txs : List Transaction) (keypair : Keypair) (e : ConsensusEngine) (b : Block)
      → propose_block p now_ms txs keypair e ≡ ok b
      → compute_transactions_root p txs ≢ compute_merkle_root p.blocks txs
      → Blocks.verify p.blocks b ≡ err tx_root_mismatch
  unfolding sign_header bare_header compute_hash
  verify-propose_block now_ms txs keypair e b h differ =
      let (made, _, _) = propose_block-sign_header now_ms txs keypair e b h in
      rw made (verify-tx_root_mismatch p.blocks (sign_header p now_ms txs keypair e) refl differ)
