-- ===== src/Network/Consensus/Quorum.antt =====
-- What a final block of protocol/src/network/consensus.rs shows about the validators.
use nova_protocol.Common.{
  ℕ, ◌+◌, ◌*◌, ◌/◌, ◌≤◌, ◌<◌, ◌≡◌, ◌≢◌, refl, sym, inl, inr, Bool, false, List, [], ◌∷◌, arith,
  string_key, length, All, IsDistinct,
}
use nova_protocol.Common.Dict
use nova_protocol.Common.Exec.{Result, ok}
use nova_protocol.Blocks.{Block}
use nova_protocol.Network.Consensus.{
  Primitives, Vote, FinalizedBlock, ConsensusEngine, ConsensusError, finalize_block,
}
use nova_protocol.Network.Consensus.Validators.{ValidatorSet, active_count, quorum_threshold}
use nova_protocol.Network.Consensus.Votes.{
  voters, Counts, moved_on, finalize_block-cases, collect_votes-Counts, collect_votes-ok,
}
use nova_protocol.Network.Consensus.Overlap.{overlap, voters-Among, length-voters, common}

reached :
    (s : ValidatorSet) (vs : List Vote)
    → 0 < active_count s
    → quorum_threshold s ≤ length vs
    → 2 * active_count s / 3 < length vs
unfolding quorum_threshold
reached s vs h q = ground arith

thirds : (n a b c : ℕ) → 0 < n → 2 * n / 3 < a → 2 * n / 3 < b → a + b ≤ n + c → n < 3 * c
thirds n a b c h i j k = omega arith

module _ (p : Primitives) where
  -- When a block is final, its votes are all for its hash, signed, and of active validators that
  -- differ, they reach the quorum, and the engine has moved on by a height and a round. When it is
  -- refused, the engine is unchanged.
  pub finalize_block_lem :
      (b : Block) (votes : List Vote) (e : ConsensusEngine)
      → let (r, e') = finalize_block p b votes e in
        ((f : FinalizedBlock)
          → r ≡ ok f
          → (f.block ≡ b)
            × (f.round ≡ e.current_round)
            × All (Counts p e.validator_set b.header.hash) f.votes
            × IsDistinct (voters f.votes)
            × (quorum_threshold e.validator_set ≤ length f.votes)
            × (e' ≡ moved_on p b.header.hash e))
        × (((f : FinalizedBlock) → r ≢ ok f) → e' ≡ e)
  finalize_block_lem b votes e = elim (finalize_block-cases p b votes e) [
    | inr (refused, same) ↦ ((λ f q. absurd (refused f q)), λ _. same)
    | inl (out, q, enough, done) ↦
        let s = e.validator_set in
        let (counts, distinct) =
          collect_votes-Counts p s b.header.hash votes [] [] out (tt, tt, λ a _. tt) q in
        rw done ((λ f same. accepted f out counts distinct enough same), λ no_. absurd (no_ _ refl))
  ]
    where
      finalized : List Vote → Result FinalizedBlock ConsensusError
      finalized out = ok (record { block = b; votes = out; round = e.current_round })

      accepted :
          (f : FinalizedBlock) (out : List Vote)
          → All (Counts p e.validator_set b.header.hash) out
          → IsDistinct (voters out)
          → quorum_threshold e.validator_set ≤ length out
          → finalized out ≡ ok f
          → (f.block ≡ b)
            × (f.round ≡ e.current_round)
            × All (Counts p e.validator_set b.header.hash) f.votes
            × IsDistinct (voters f.votes)
            × (quorum_threshold e.validator_set ≤ length f.votes)
            × (moved_on p b.header.hash e ≡ moved_on p b.header.hash e)
      accepted f out c d n same =
          let g : ◌≡◌ {A = FinalizedBlock}
              (record { block = b; votes = out; round = e.current_round }) f =
            cc in
          rw (sym g) (refl, refl, c, d, n, refl)

  -- A block whose votes are signed, for its hash, of different active validators and no fewer than
  -- the quorum is made final, with exactly these votes.
  pub finalize_block-ok :
      (b : Block) (votes : List Vote) (e : ConsensusEngine)
      → All (Counts p e.validator_set b.header.hash) votes
      → IsDistinct (voters votes)
      → quorum_threshold e.validator_set ≤ length votes
      → finalize_block p b votes e ≡ (
        ok (record { block = b; votes = votes; round = e.current_round }),
        moved_on p b.header.hash e,
      )
  unfolding finalize_block Dict.contains
  finalize_block-ok b votes e c d n =
      let all_counted =
        collect_votes-ok p e.validator_set b.header.hash votes [] [] c d (unseen votes) in
      rw (all_counted, finalize_block) (ground arith)
    where
      unseen : (vs : List Vote) → All (λ v. Dict.contains {V = Bool} v.validator [] ≡ false) vs
      unseen [] = tt
      unseen (v ∷ vs) = (refl, unseen vs)

  -- With no active validator every block is made final without a vote.
  pub empty_set_finalizes :
      (b : Block) (e : ConsensusEngine)
      → active_count e.validator_set ≡ 0
      → finalize_block p b [] e ≡ (
        ok (record { block = b; votes = []; round = e.current_round }),
        moved_on p b.header.hash e,
      )
  unfolding quorum_threshold
  empty_set_finalizes b e none_active = finalize_block-ok b [] e tt tt (ground arith)

  -- Two blocks that engines with one set of validators, of which some is active, make final, in
  -- whatever rounds, have votes of more than a third of the active validators in common.
  pub quorums_overlap :
      (b c : Block) (votes votes' : List Vote) (e e' : ConsensusEngine) (f g : FinalizedBlock)
      → e.validator_set ≡ e'.validator_set
      → 0 < active_count e.validator_set
      → (finalize_block p b votes e).0 ≡ ok f
      → (finalize_block p c votes' e').0 ≡ ok g
      → active_count e.validator_set < 3 * common (voters f.votes) (voters g.votes)
  unfolding quorum_threshold
  quorums_overlap b c votes votes' e e' f g same some_active p₁ p₂ =
      let s = e.validator_set in
      let (_, _, counts, distinct, enough, _) = (finalize_block_lem b votes e).0 f p₁ in
      let (_, _, counts', distinct', enough', _) = (finalize_block_lem c votes' e').0 g p₂ in
      let shared =
        overlap s (voters f.votes) (voters g.votes) (voters-Among p s b.header.hash f.votes counts)
          (voters-Among p s c.header.hash g.votes (rw same counts')) distinct distinct' in
      let enough'' : quorum_threshold s ≤ length g.votes = rw same enough' in
      thirds (active_count s) (length f.votes) (length g.votes)
        (common (voters f.votes) (voters g.votes)) some_active
        (reached s f.votes some_active enough) (reached s g.votes some_active enough'')
        (omega (arith, shared, length-voters f.votes, length-voters g.votes))
