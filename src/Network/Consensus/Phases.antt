-- ===== src/Network/Consensus/Phases.antt =====
-- The phases of a round and the checks on a proposed block of protocol/src/network/consensus.rs.
use nova_protocol.Common.{
  ◌≤◌, ◌≡◌, ◌≢◌, ◌↔◌, refl, inl, inr, true, none, some, [], arith, same_iff, bits_key, string_key,
  length, Option-cases,
}
use nova_protocol.Common.Exec.{ok}
use nova_protocol.Blocks.{Bytes, Block}
use nova_protocol.Network.Consensus.{
  Primitives, ConsensusEngine, ConsensusRound, propose, prevote, precommit, commit, validate_block,
  advance_phase, advance_round,
}
use nova_protocol.Network.Consensus.Validators.{contains}

-- A block is accepted exactly when it has the next height and the last block as its parent, its
-- validator is active in the set and has a key, it has no more transactions than allowed, and its
-- signature has 64 bytes and is the key's on the header without it.
pub validate_block_lem :
    (p : Primitives) (b : Block) (e : ConsensusEngine)
    → (validate_block p b e ≡ ok true) ↔ (
        (b.header.height ≡ e.next_height)
        × (b.header.parent_hash ≡ e.last_block_hash)
        × (contains b.header.validator e.validator_set ≡ true)
        × (length b.transactions ≤ e.config.max_block_transactions)
        × (length b.header.signature ≡ 512)
        × ((key : Bytes) × (p.from_hex b.header.validator ≡ some key)
            × (p.verify key (p.header_bytes (record b.header { signature = [] })) b.header.signature
                ≡ true)))
unfolding validate_block
validate_block_lem p b e = elim (Option-cases (p.from_hex b.header.validator)) [
  | inl q ↦ ground (arith, q, same_iff b.header.parent_hash e.last_block_hash)
  | inr (key, q) ↦ (
    ground (arith, q, same_iff b.header.parent_hash e.last_block_hash),
    λ (h, pa, c, n, sig, (k, qk, v)).
        ground (arith, q, same_iff b.header.parent_hash e.last_block_hash),
  )
]

-- A step through the phases of a round.
infix 40 ◌⟶◌
pub data ◌⟶◌ : ConsensusRound → ConsensusRound → Type 0 where
  vote : propose ⟶ prevote
  lock : prevote ⟶ precommit
  decide : precommit ⟶ commit

-- Advancing the phase takes the one step there is and returns the new phase, or, in the last phase,
-- changes nothing and returns none; it keeps the round. A new round begins with the proposal.
pub advance_phase_lem :
    (e : ConsensusEngine)
    → let (r, e') = advance_phase e in
      ((e.current_phase ≡ commit) → (r ≡ none) × (e' ≡ e))
      × (e.current_phase ≢ commit
          → (e.current_phase ⟶ e'.current_phase) × (r ≡ some e'.current_phase))
      × (e'.current_round ≡ e.current_round)
      × ((advance_round e').current_phase ≡ propose)
unfolding advance_phase advance_round
advance_phase_lem e =
    (λ h. ground arith, λ h. grind (arith, vote, lock, decide), ground arith, refl)
