-- ===== src/Network/Consensus/Tests.antt =====
-- The theorems about protocol/src/network/consensus.rs at four validators, three of whom vote.
use nova_protocol.Common.{
  ℕ, ◌*◌, ◌≤◌, ◌<◌, ◌≡◌, ◌≢◌, refl, ap, String, Bool, true, false, some, List, [], ◌∷◌, arith, All,
  ◌=?◌, same_iff, string_key, replicate, bits_key,
}
use nova_protocol.Common.Exec.{ok, err}
use nova_protocol.Transaction.Tests.{here}
use nova_protocol.Blocks.Tests.{toy as toy_blocks, toy_hash}
use nova_protocol.Blocks.{Block, verify, compute_merkle_root, climb, tx_root_mismatch}
use nova_protocol.Network.Consensus.{
  Keypair, sign_header, propose_block, compute_transactions_root, Primitives, Vote, FinalizedBlock,
  ConsensusConfig, ConsensusEngine, propose, verify_vote, finalize_block, validate_block,
}
use nova_protocol.Network.Consensus.Validators.{
  ValidatorInfo, ValidatorSet, contains, quorum_threshold, proposer_for_round,
}
use nova_protocol.Network.Consensus.Votes.{voters, Counts, moved_on}
use nova_protocol.Network.Consensus.Overlap.{common}
use nova_protocol.Network.Consensus.Quorum.{finalize_block_lem, finalize_block-ok, quorums_overlap}
use nova_protocol.Network.Consensus.Proposals.{
  IsKeypair, validate_block-propose_block, validate_block_swapped, verify-propose_block,
}

-- Every name is a key, and a signature is good if its first bit is set.
abbrev first_bit : List Bool → Bool
first_bit [] = false
first_bit (b ∷ bits) = b

abbrev toy : Primitives
toy = record {
  from_hex = λ name. some [];
  verify = λ key message signature. first_bit signature;
  header_bytes = λ h. [];
  to_hex = λ key. "d";
  blocks = toy_blocks;
}

abbrev member : String → ℕ → ValidatorInfo
member name stake = record {
  address = name;
  stake = stake;
  active = true;
  blocks_proposed = 0;
  blocks_voted = 0;
}

abbrev four : ValidatorSet
four = member "a" 40 ∷ member "b" 30 ∷ member "c" 20 ∷ member "d" 10 ∷ []

abbrev config : ConsensusConfig
config = record {
  block_time_ms = 2000;
  min_validators = 4;
  max_validators = 100;
  stake_requirement = 1;
  epoch_length = 100;
  max_block_transactions = 1000;
  round_timeout_ms = 5000;
}

abbrev pub engine : ConsensusEngine
engine = record {
  config = config;
  validator_set = four;
  current_round = 7;
  current_phase = propose;
  next_height = 3;
  last_block_hash = false ∷ [];
}

abbrev vote_of : String → Vote
vote_of name = record { validator = name; block_hash = true ∷ []; signature = true ∷ []; round = 7 }

abbrev block : Block
block = record {
  header = record {
    height = 3;
    hash = true ∷ [];
    parent_hash = false ∷ [];
    timestamp = 9;
    validator = "a";
    state_root = [];
    tx_root = [];
    signature = [];
  };
  transactions = here ∷ [];
}

abbrev signed : Block
signed = record block { header = record block.header { signature = replicate 512 true } }

abbrev left : List Vote
left = vote_of "a" ∷ vote_of "b" ∷ vote_of "c" ∷ []

abbrev right : List Vote
right = vote_of "b" ∷ vote_of "c" ∷ vote_of "d" ∷ []

abbrev empty_engine : ConsensusEngine
empty_engine = record engine { validator_set = [] }

abbrev final : List Vote → FinalizedBlock
final votes = record { block = block; votes = votes; round = 7 }

differ : (a b : String) → (a =? b) ≡ false → a ≢ b
differ a b e h = ground (arith, same_iff a b)

left-Counts : All (Counts toy four (true ∷ [])) left
unfolding contains verify_vote
left-Counts = ((refl, refl, refl), ((refl, refl, refl), ((refl, refl, refl), tt)))

right-Counts : All (Counts toy four (true ∷ [])) right
unfolding contains verify_vote
right-Counts = ((refl, refl, refl), ((refl, refl, refl), ((refl, refl, refl), tt)))

enough : quorum_threshold four ≤ 3
unfolding quorum_threshold
enough = omega arith

accepted_left :
    finalize_block toy block left engine ≡ (ok (final left), moved_on toy (true ∷ []) engine)
accepted_left =
    finalize_block-ok toy block left engine left-Counts
      ((differ "a" "b" refl, (differ "a" "c" refl, tt)), ((differ "b" "c" refl, tt), (tt, tt)))
      enough

accepted_right :
    finalize_block toy block right engine ≡ (ok (final right), moved_on toy (true ∷ []) engine)
accepted_right =
    finalize_block-ok toy block right engine right-Counts
      ((differ "b" "c" refl, (differ "b" "d" refl, tt)), ((differ "c" "d" refl, tt), (tt, tt)))
      enough

finalize_block_lem_example :
    (finalize_block toy block left engine).1 ≡ moved_on toy (true ∷ []) engine
finalize_block_lem_example =
    ((finalize_block_lem toy block left engine).0 (final left) (rw accepted_left refl)).5

quorums_overlap_example : 4 < 3 * common (voters left) (voters right)
quorums_overlap_example =
    quorums_overlap toy block block left right engine engine (final left) (final right) refl
      (omega arith) (rw accepted_left refl) (rw accepted_right refl)

abbrev pub keys : Keypair
keys = record { public_key = []; sign = λ m. replicate 512 true }

keys-IsKeypair : IsKeypair toy keys
keys-IsKeypair = record { verify-sign = λ m. refl; length-sign = λ m. refl; from-to = refl }

abbrev proposal : Block
proposal = sign_header toy 9 (here ∷ []) keys engine

proposed : propose_block toy 9 (here ∷ []) keys engine ≡ ok proposal
unfolding propose_block proposer_for_round
proposed = refl

validate_block-propose_block_example : validate_block toy proposal engine ≡ ok true
validate_block-propose_block_example =
    (validate_block-propose_block toy 9 (here ∷ []) keys engine proposal keys-IsKeypair proposed).0

accepted : validate_block toy proposal engine ≡ ok true
accepted =
    (validate_block-propose_block toy 9 (here ∷ []) keys engine proposal keys-IsKeypair proposed).0

validate_block_swapped_example :
    validate_block toy (record proposal { transactions = here ∷ here ∷ [] }) engine ≡ ok true
validate_block_swapped_example =
    validate_block_swapped toy proposal (here ∷ here ∷ []) engine accepted (omega arith)

roots_differ :
    compute_transactions_root toy (here ∷ []) ≢ compute_merkle_root toy_blocks (here ∷ [])
unfolding compute_transactions_root compute_merkle_root climb toy_hash
roots_differ e = let b : false ≡ true = ap first_bit e in absurd (ground (arith, b))

verify-propose_block_example : verify toy_blocks proposal ≡ err tx_root_mismatch
verify-propose_block_example =
    verify-propose_block toy 9 (here ∷ []) keys engine proposal proposed roots_differ
