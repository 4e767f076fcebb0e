-- ===== src/Network/Consensus.antt =====
-- `ConsensusEngine` of protocol/src/network/consensus.rs. Byte strings are lists of bits, the most
-- significant of each byte first.
--
-- Not under src/: the key format and the signature check (`from_hex`, `to_hex`, `verify`), the
-- JSON form of a header and `blake3`.
pub mod Validators
pub mod Votes
pub mod Overlap
pub mod Quorum
pub mod Phases
pub mod Rotation
pub mod Proposals
pub mod Tests
use nova_protocol.Common.{
  ℕ, zero, suc, ◌+◌, ◌*◌, ◌/◌, ◌%◌, String, Bool, true, false, not, ◌&&◌, Option, none, some, List,
  [], ◌∷◌, ◌++◌, ltb, ◌==◌, ◌=?◌, string_key, bits_key, length, replicate, wrap64, if◌then◌else◌,
}
use nova_protocol.Common.Dict
use nova_protocol.Common.Dict.{Dict, insert}
use nova_protocol.Common.Exec.{
  Result, ok, err, panic, Exec, ◌>>=◌, ◌>>◌, get, put, pure, lift, raise_if,
}
use nova_protocol.Transaction.{Transaction}
use nova_protocol.Blocks
use nova_protocol.Blocks.{Bytes, BlockHeader, Block, to_le_bytes, zero_hash, compute_hash}
use nova_protocol.Network.Consensus.Validators.{
  ValidatorInfo, ValidatorSet, contains, quorum_threshold, proposer_for_round,
}

pub data ConsensusRound : Type 0 where
  propose prevote precommit commit : ConsensusRound

abbrev pub next : ConsensusRound → Option ConsensusRound
next propose = some prevote
next prevote = some precommit
next precommit = some commit
next commit = none

pub record ConsensusConfig : Type 0 where
  pub block_time_ms : ℕ
  pub min_validators : ℕ
  pub max_validators : ℕ
  pub stake_requirement : ℕ
  pub epoch_length : ℕ
  pub max_block_transactions : ℕ
  pub round_timeout_ms : ℕ

pub record Vote : Type 0 where
  pub validator : String
  pub block_hash : Bytes
  pub signature : Bytes
  pub round : ℕ

pub record FinalizedBlock : Type 0 where
  pub block : Block
  pub votes : List Vote
  pub round : ℕ

pub data ConsensusError : Type 0 where
  insufficient_validators : ℕ → ℕ → ConsensusError
  unauthorized_proposer : String → ConsensusError
  unexpected_height : ℕ → ℕ → ConsensusError
  invalid_parent_hash : ConsensusError
  too_many_transactions : ℕ → ConsensusError
  invalid_timestamp : ℕ → ConsensusError
  insufficient_votes : ℕ → ℕ → ConsensusError
  invalid_vote vote_from_non_validator duplicate_vote : String → ConsensusError

pub record ConsensusEngine : Type 0 where
  pub config : ConsensusConfig
  pub validator_set : ValidatorSet
  pub current_round : ℕ
  pub current_phase : ConsensusRound
  pub next_height : ℕ
  pub last_block_hash : Bytes

-- What the engine uses of other crates.
pub record Primitives : Type 0 where
  pub from_hex : String → Option Bytes
  pub verify : Bytes → Bytes → Bytes → Bool
  pub header_bytes : BlockHeader → Bytes
  pub to_hex : Bytes → String
  pub blocks : Blocks.Primitives

-- The key pair of a validator.
pub record Keypair : Type 0 where
  pub public_key : Bytes
  pub sign : Bytes → Bytes

-- `ConsensusEngine::new`
pub new : ConsensusConfig → ValidatorSet → ConsensusEngine
new config validator_set = record {
  config = config;
  validator_set = validator_set;
  current_round = 0;
  current_phase = propose;
  next_height = 0;
  last_block_hash = replicate 256 false;
}

module _ (p : Primitives) where
  -- `Vote::verify`
  pub verify_vote : Vote → Bool
  verify_vote v = elim (p.from_hex v.validator) [
    | none ↦ false
    | some key ↦ p.verify key (v.block_hash ++ to_le_bytes 8 v.round) v.signature
  ]

  abbrev pub ids : List Transaction → Bytes
  ids [] = []
  ids (tx ∷ txs) = p.blocks.utf8 tx.id ++ ids txs

  unfoldable pub compute_transactions_root : List Transaction → Bytes
  compute_transactions_root transactions = p.blocks.blake3 (ids transactions)

  -- The header of `propose_block` before its hash and its signature.
  unfoldable pub bare_header : ℕ → List Transaction → Keypair → ConsensusEngine → BlockHeader
  bare_header now_ms transactions keypair e = record {
    height = e.next_height;
    hash = zero_hash;
    parent_hash = e.last_block_hash;
    timestamp = now_ms;
    validator = p.to_hex keypair.public_key;
    state_root = zero_hash;
    tx_root = compute_transactions_root transactions;
    signature = [];
  }

  -- The end of `propose_block`: the hash, then the signature on the header with the hash.
  unfoldable pub sign_header : ℕ → List Transaction → Keypair → ConsensusEngine → Block
  sign_header now_ms transactions keypair e =
      let bare : BlockHeader = bare_header now_ms transactions keypair e in
      let header : BlockHeader = record bare {
        hash = compute_hash p.blocks (record { header = bare; transactions = transactions });
      } in
      record {
        header = record header { signature = keypair.sign (p.header_bytes header) };
        transactions = transactions;
      }

  -- `now_ms` is the time of the system clock. An index out of range panics.
  unfoldable pub propose_block :
      ℕ → List Transaction → Keypair → ConsensusEngine → Result Block ConsensusError
  propose_block now_ms transactions keypair e =
      let proposer_address = p.to_hex keypair.public_key in
      elim (proposer_for_round e.current_round e.validator_set) [
        | none ↦ err (insufficient_validators (length e.validator_set) e.config.min_validators)
        | some none ↦ panic
        | some (some expected) ↦
            if not (expected.address =? proposer_address)
            then err (unauthorized_proposer proposer_address)
            else if ltb e.config.max_block_transactions (length transactions)
            then err (too_many_transactions (length transactions))
            else ok (sign_header now_ms transactions keypair e)
      ]

  unfoldable pub validate_block : Block → ConsensusEngine → Result Bool ConsensusError
  validate_block b e =
      let h = b.header in
      if not (h.height == e.next_height)
      then err (unexpected_height e.next_height h.height)
      else if not (h.parent_hash =? e.last_block_hash)
      then err invalid_parent_hash
      else if not (contains h.validator e.validator_set)
      then err (unauthorized_proposer h.validator)
      else if ltb e.config.max_block_transactions (length b.transactions)
      then err (too_many_transactions (length b.transactions))
      else elim (p.from_hex h.validator) [
        | none ↦ err (unauthorized_proposer h.validator)
        | some key ↦
            if not (length h.signature == 512)
            then err (unauthorized_proposer h.validator)
            else if not (p.verify key (p.header_bytes (record h { signature = [] })) h.signature)
            then err (unauthorized_proposer h.validator)
            else ok true
      ]

  -- One turn of the loop over the votes: `none` is `continue`.
  pub check_vote :
      ValidatorSet → Bytes → Dict String Bool → Vote → Option (Result Vote ConsensusError)
  check_vote s block_hash seen v =
      if not (v.block_hash =? block_hash)
      then none
      else if Dict.contains v.validator seen
      then some (err (duplicate_vote v.validator))
      else if not (contains v.validator s)
      then some (err (vote_from_non_validator v.validator))
      else if not (verify_vote v)
      then some (err (invalid_vote v.validator))
      else some (ok v)

  pub collect_votes :
      ValidatorSet
      → Bytes
      → List Vote
      → Dict String Bool
      → List Vote
      → Result (List Vote) ConsensusError
  collect_votes s block_hash [] seen valid = ok valid
  collect_votes s block_hash (v ∷ vs) seen valid = elim (check_vote s block_hash seen v) [
    | none ↦ collect_votes s block_hash vs seen valid
    | some (err x) ↦ err x
    | some panic ↦ panic
    | some (ok w) ↦ collect_votes s block_hash vs (insert w.validator true seen) (valid ++ w ∷ [])
  ]

  pub finalize_block : Block → List Vote → Exec ConsensusEngine FinalizedBlock ConsensusError
  finalize_block block votes = do
    e ← get
    let quorum = quorum_threshold e.validator_set
    valid ← lift (collect_votes e.validator_set block.header.hash votes [] [])
    raise_if (ltb (length valid) quorum) (insufficient_votes (length valid) quorum)
    put (record e {
      last_block_hash = block.header.hash;
      next_height = wrap64 (e.next_height + 1);
      current_round = wrap64 (e.current_round + 1);
      current_phase = propose;
    })
    pure (record { block = block; votes = valid; round = e.current_round })

pub advance_round : ConsensusEngine → ConsensusEngine
advance_round e = record e { current_round = wrap64 (e.current_round + 1); current_phase = propose }

pub advance_phase : ConsensusEngine → Option ConsensusRound × ConsensusEngine
advance_phase e = elim (next e.current_phase) [
  | none ↦ (none, e)
  | some phase ↦ (some phase, record e { current_phase = phase })
]

pub update_validator_set : ValidatorSet → ConsensusEngine → ConsensusEngine
update_validator_set new_set e = record e { validator_set = new_set }

pub set_chain_state : ℕ → Bytes → ConsensusEngine → ConsensusEngine
set_chain_state height last_hash e = record e { next_height = height; last_block_hash = last_hash }
