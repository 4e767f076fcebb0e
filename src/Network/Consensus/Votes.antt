-- ===== src/Network/Consensus/Votes.antt =====
-- Which votes `finalize_block` of protocol/src/network/consensus.rs counts.
use mathlib.Core.List.{append-nil, append_assoc}
use native.Mathlib.Decide.{dec_le}
use nova_protocol.Common.{
  ap, ◌∙◌, ◌+◌, ◌≤◌, ◌≡◌, ◌≢◌, ◌⊎◌, refl, sym, inl, inr, String, Bool, true, false, none, some,
  List, [], ◌∷◌, ◌++◌, map, arith, same_iff, string_key, bits_key, length, All, All-append,
  IsDistinct, wrap64,
}
use nova_protocol.Common.Dict
use nova_protocol.Common.Dict.{Dict, lookup, insert, lookup-insert}
use nova_protocol.Common.Exec.{Result-cases, ok, err}
use nova_protocol.Blocks.{Bytes, Block}
use nova_protocol.Network.Consensus.{
  Primitives, Vote, FinalizedBlock, ConsensusEngine, ConsensusError, propose, verify_vote,
  check_vote, collect_votes, finalize_block,
}
use nova_protocol.Network.Consensus.Validators.{ValidatorSet, contains, quorum_threshold}

abbrev pub voters : List Vote → List String
voters votes = map (λ v. v.validator) votes

module _ (p : Primitives) where
  -- A vote for the hash that a validator of the set has signed.
  abbrev pub Counts : ValidatorSet → Bytes → Vote → Type 0
  Counts s block_hash v =
      (v.block_hash ≡ block_hash) × (contains v.validator s ≡ true) × (verify_vote p v ≡ true)

  -- Every name among the votes is marked as seen.
  abbrev Seen : Dict String Bool → List Vote → Type 0
  Seen seen votes = (a : String) → Dict.contains a seen ≡ false → All (λ b. b ≢ a) (voters votes)

  check_vote-cases :
      (s : ValidatorSet) (h : Bytes) (seen : Dict String Bool) (v : Vote)
      → (check_vote p s h seen v ≡ none)
        ⊎ ((x : ConsensusError) × (check_vote p s h seen v ≡ some (err x)))
        ⊎ ((check_vote p s h seen v ≡ some (ok v))
            × Counts s h v
            × (Dict.contains v.validator seen ≡ false))
  unfolding check_vote
  check_vote-cases s h seen v = ground (arith, same_iff v.block_hash h)

  contains-insert :
      (a b : String) (seen : Dict String Bool)
      → Dict.contains a (insert b true seen) ≡ false
      → (b ≢ a) × (Dict.contains a seen ≡ false)
  unfolding Dict.contains
  contains-insert a b seen e = ground (arith, lookup-insert a b true seen, same_iff a b)

  IsDistinct-snoc :
      (xs : List String) (a : String)
      → IsDistinct xs
      → All (λ b. b ≢ a) xs
      → IsDistinct (xs ++ a ∷ [])
  IsDistinct-snoc [] a d h = (tt, tt)
  IsDistinct-snoc (x ∷ xs) a d h =
      (All-append (λ y. x ≢ y) xs (a ∷ []) d.0 (h.0, tt), IsDistinct-snoc xs a d.1 h.1)

  voters-snoc : (vs : List Vote) (w : Vote) → voters (vs ++ w ∷ []) ≡ voters vs ++ w.validator ∷ []
  voters-snoc [] w = refl
  voters-snoc (v ∷ vs) w = rw (voters-snoc vs w) refl

  -- The loop keeps what it has: votes that count, of validators that differ and are marked as seen.
  abbrev Kept : ValidatorSet → Bytes → Dict String Bool → List Vote → Type 0
  Kept s h seen valid = All (Counts s h) valid × IsDistinct (voters valid) × Seen seen valid

  Kept-snoc :
      (s : ValidatorSet) (h : Bytes) (seen : Dict String Bool) (valid : List Vote) (w : Vote)
      → Kept s h seen valid
      → Counts s h w
      → Dict.contains w.validator seen ≡ false
      → Kept s h (insert w.validator true seen) (valid ++ w ∷ [])
  Kept-snoc s h seen valid w (counts, distinct, marked) c fresh = (
    All-append (Counts s h) valid (w ∷ []) counts (c, tt),
    rw (voters-snoc valid w)
        (IsDistinct-snoc (voters valid) w.validator distinct (marked w.validator fresh)),
    λ a e.
        let (ne, unseen) = contains-insert a w.validator seen e in
        rw (voters-snoc valid w)
          (All-append (λ b. b ≢ a) (voters valid) _ (marked a unseen) (ne, tt)),
  )

  err_ok : (x : ConsensusError) (out : List Vote) → err x ≢ ok out
  err_ok x out e = cc

  pub collect_votes-Counts :
      (s : ValidatorSet) (h : Bytes) (vs : List Vote) (seen : Dict String Bool)
      (valid out : List Vote)
      → Kept s h seen valid
      → collect_votes p s h vs seen valid ≡ ok out
      → All (Counts s h) out × IsDistinct (voters out)
  unfolding collect_votes
  collect_votes-Counts s h [] seen valid out k e =
      let same : valid ≡ out = cc in rw (sym same) (k.0, k.1)
  collect_votes-Counts s h (v ∷ vs) seen valid out k e = elim (check_vote-cases s h seen v) [
    | inl skip ↦ collect_votes-Counts s h vs seen valid out k (rw (skip, collect_votes) at e)
    | inr (inl (x, refuse)) ↦ absurd (err_ok x out (rw (refuse, collect_votes) at e))
    | inr (inr (accept, c, fresh)) ↦
        collect_votes-Counts s h vs (insert v.validator true seen) (valid ++ v ∷ []) out
          (Kept-snoc s h seen valid v k c fresh) (rw (accept, collect_votes) at e)
  ]

  unseen_after :
      (v : Vote) (vs : List Vote) (seen : Dict String Bool)
      → All (λ b. v.validator ≢ b) (voters vs)
      → All (λ w. Dict.contains w.validator seen ≡ false) vs
      → All (λ w. Dict.contains w.validator (insert v.validator true seen) ≡ false) vs
  unfolding Dict.contains
  unseen_after v [] seen d u = tt
  unseen_after v (w ∷ vs) seen d u = (
    ground (
      arith,
      d.0,
      u.0,
      lookup-insert w.validator v.validator true seen,
      same_iff w.validator v.validator,
    ),
    unseen_after v vs seen d.1 u.1,
  )

  check_vote-ok :
      (s : ValidatorSet) (h : Bytes) (seen : Dict String Bool) (v : Vote)
      → Counts s h v
      → Dict.contains v.validator seen ≡ false
      → check_vote p s h seen v ≡ some (ok v)
  unfolding check_vote
  check_vote-ok s h seen v c fresh = ground (arith, c, same_iff v.block_hash h)

  pub collect_votes-ok :
      (s : ValidatorSet) (h : Bytes) (vs : List Vote) (seen : Dict String Bool) (valid : List Vote)
      → All (Counts s h) vs
      → IsDistinct (voters vs)
      → All (λ v. Dict.contains v.validator seen ≡ false) vs
      → collect_votes p s h vs seen valid ≡ ok (valid ++ vs)
  unfolding collect_votes
  collect_votes-ok s h [] seen valid c d u = ap ok (sym (append-nil valid))
  collect_votes-ok s h (v ∷ vs) seen valid c d u =
      rw (check_vote-ok s h seen v c.0 u.0, collect_votes)
        (collect_votes-ok s h vs (insert v.validator true seen) (valid ++ v ∷ []) c.1 d.1
            (unseen_after v vs seen d.0 u.1)
          ∙ ap ok (append_assoc valid (v ∷ []) vs))

  -- The engine after a block with the given hash is final.
  abbrev pub moved_on : Bytes → ConsensusEngine → ConsensusEngine
  moved_on h e = record e {
    last_block_hash = h;
    next_height = wrap64 (e.next_height + 1);
    current_round = wrap64 (e.current_round + 1);
    current_phase = propose;
  }

  pub finalize_block-cases :
      (b : Block) (votes : List Vote) (e : ConsensusEngine)
      → ((out : List Vote) × (collect_votes p e.validator_set b.header.hash votes [] [] ≡ ok out)
          × (quorum_threshold e.validator_set ≤ length out)
          × (finalize_block p b votes e ≡ (
            ok (record { block = b; votes = out; round = e.current_round }),
            moved_on b.header.hash e,
          )))
        ⊎ (((f : FinalizedBlock) → (finalize_block p b votes e).0 ≢ ok f)
            × ((finalize_block p b votes e).1 ≡ e))
  unfolding finalize_block
  finalize_block-cases b votes e =
      elim (Result-cases (collect_votes p e.validator_set b.header.hash votes [] [])) [
        | inl (out, q) ↦ elim (dec_le (quorum_threshold e.validator_set) (length out)) [
          | yes enough ↦ inl (out, q, enough, rw (q, finalize_block) (ground arith))
          | no few ↦ inr (rw (q, finalize_block) (ground arith))
        ]
        | inr stopped ↦ inr (ground arith)
      ]
