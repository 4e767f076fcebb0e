-- ===== src/Network/Consensus/Rotation.antt =====
-- How `ValidatorSet` of protocol/src/network/consensus.rs changes, and who proposes.
use native.Mathlib.Nat.{mod-lt, add-mod_right}
use nova_protocol.Common.{
  ℕ, zero, suc, ◌+◌, ◌%◌, ◌≤◌, ◌<◌, ◌≡◌, refl, ◌∙◌, inl, inr, String, Bool, true, none, some, List,
  [], ◌∷◌, ◌++◌, arith, ltb, string_key, length, length-keep, get_elem?, All, All-map, In, In-keep,
  count_if, Bool-cases,
}
use nova_protocol.Network.Consensus.Validators.{
  ValidatorInfo, ValidatorSet, place, sort_by_stake, add_validator, active_validators, active_count,
  proposer_for_round,
}

-- By falling stake.
abbrev pub IsSorted : ValidatorSet → Type 0
IsSorted [] = Unit
IsSorted (v ∷ vs) = All (λ w. w.stake ≤ v.stake) vs × IsSorted vs

All-place :
    (P : ValidatorInfo → Type 0) (v : ValidatorInfo) (ws : ValidatorSet)
    → P v
    → All P ws
    → All P (place v ws)
unfolding place
All-place P v [] h hs = (h, tt)
All-place P v (w ∷ ws) h hs = elim (Bool-cases (ltb v.stake w.stake)) [
  | inl e ↦ rw e (hs.0, All-place P v ws h hs.1)
  | inr e ↦ rw e (h, hs)
]

place-IsSorted : (v : ValidatorInfo) (ws : ValidatorSet) → IsSorted ws → IsSorted (place v ws)
unfolding place
place-IsSorted v [] h = (tt, tt)
place-IsSorted v (w ∷ ws) h = elim (Bool-cases (ltb v.stake w.stake)) [
  | inl e ↦
      rw e (All-place (λ u. u.stake ≤ w.stake) v ws (ground arith) h.0, place-IsSorted v ws h.1)
  | inr e ↦ rw e (
    (
      ground arith,
      All-map (λ u. u.stake ≤ w.stake) (λ u. u.stake ≤ v.stake) ws (λ u k. ground arith) h.0,
    ),
    h,
  )
]

sort_by_stake-IsSorted : (s : ValidatorSet) → IsSorted (sort_by_stake s)
unfolding sort_by_stake
sort_by_stake-IsSorted [] = tt
sort_by_stake-IsSorted (v ∷ s) = place-IsSorted v (sort_by_stake s) (sort_by_stake-IsSorted s)

-- What a count and the test of membership see of a set does not depend on its order.
count_if-place :
    (q : ValidatorInfo → Bool) (v : ValidatorInfo) (ws : ValidatorSet)
    → count_if q (place v ws) ≡ count_if q (v ∷ ws)
unfolding place
count_if-place q v [] = refl
count_if-place q v (w ∷ ws) = ground (arith, count_if-place q v ws)

count_if-sort_by_stake :
    (q : ValidatorInfo → Bool) (s : ValidatorSet) → count_if q (sort_by_stake s) ≡ count_if q s
unfolding sort_by_stake
count_if-sort_by_stake q [] = refl
count_if-sort_by_stake q (v ∷ s) =
    ground (arith, count_if-place q v (sort_by_stake s), count_if-sort_by_stake q s)

count_if-snoc :
    (q : ValidatorInfo → Bool) (s : ValidatorSet) (v : ValidatorInfo)
    → count_if q (s ++ v ∷ []) ≡ count_if q s + count_if q (v ∷ [])
count_if-snoc q [] v = ground arith
count_if-snoc q (w ∷ s) v = ground (arith, count_if-snoc q s v)

-- Adding a validator gives a set by falling stake, with one active validator more; for every test,
-- it has as many validators that pass as before and the new one.
pub add_validator_lem :
    (address : String) (stake : ℕ) (s : ValidatorSet)
    → let s' = add_validator address stake s in
      let v : ValidatorInfo = record {
        address = address;
        stake = stake;
        active = true;
        blocks_proposed = 0;
        blocks_voted = 0;
      } in
      IsSorted s'
      × (active_count s' ≡ suc (active_count s))
      × ((q : ValidatorInfo → Bool) → count_if q s' ≡ count_if q s + count_if q (v ∷ []))
unfolding add_validator
add_validator_lem address stake s =
    let v : ValidatorInfo = record {
      address = address;
      stake = stake;
      active = true;
      blocks_proposed = 0;
      blocks_voted = 0;
    } in
    (
      sort_by_stake-IsSorted (s ++ v ∷ []),
      omega (
        arith,
        count_if-sort_by_stake (λ w. w.active) (s ++ v ∷ []),
        count_if-snoc (λ w. w.active) s v,
      ),
      λ q. count_if-sort_by_stake q (s ++ v ∷ []) ∙ count_if-snoc q s v,
    )

get_elem?-In :
    (xs : List ValidatorInfo) (i : ℕ)
    → i < length xs
    → (v : ValidatorInfo) × (get_elem? xs i ≡ some v) × In v xs
get_elem?-In [] i h = absurd (omega arith)
get_elem?-In (x ∷ xs) zero h = (x, refl, inl refl)
get_elem?-In (x ∷ xs) (suc i) h = let (v, e, m) = get_elem?-In xs i (omega arith) in (v, e, inr m)

-- With no active validator there is no proposer. Otherwise, in every round, the index is in range,
-- the proposer is an active validator of the set, and the turns repeat after one round for each
-- active validator.
pub proposer_for_round_lem :
    (round : ℕ) (s : ValidatorSet)
    → (active_count s ≡ 0 → proposer_for_round round s ≡ none)
      × (0 < active_count s
          → (v : ValidatorInfo) × (proposer_for_round round s ≡ some (some v))
            × In v s
            × (v.active ≡ true)
            × (proposer_for_round (round + active_count s) s ≡ some (some v)))
unfolding proposer_for_round
proposer_for_round_lem round s =
    let size = length-keep (λ v. v.active) s in (λ h. ground (arith, size), λ h. turn h size)
  where
    turn :
        0 < active_count s
        → length (active_validators s) ≡ active_count s
        → (v : ValidatorInfo) × (proposer_for_round round s ≡ some (some v))
          × In v s
          × (v.active ≡ true)
          × (proposer_for_round (round + active_count s) s ≡ some (some v))
    turn h size =
        let (v, e, m) =
          get_elem?-In (active_validators s) (round % length (active_validators s))
            (mod-lt round (omega arith)) in
        let (member, on) = In-keep (λ w. w.active) v s m in
        let again : (round + active_count s) % length (active_validators s)
            ≡ round % length (active_validators s) =
          rw size (add-mod_right round (active_count s)) in
        (v, ground (arith, e), member, on, ground (arith, e, again))
