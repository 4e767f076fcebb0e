-- ===== src/Network/Consensus/Validators.antt =====
-- `ValidatorSet` of protocol/src/network/consensus.rs: the validators, by falling stake.
use nova_protocol.Common.{
  ℕ, ◌+◌, ◌*◌, ◌/◌, ◌%◌, String, Bool, true, false, not, ◌&&◌, ◌||◌, Option, none, some, List, [],
  ◌∷◌, ◌++◌, ltb, ◌==◌, ◌=?◌, string_key, length, get_elem?, keep, count_if, sum_of, wrap64,
  if◌then◌else◌,
}

pub record ValidatorInfo : Type 0 where
  pub address : String
  pub stake : ℕ
  pub active : Bool
  pub blocks_proposed : ℕ
  pub blocks_voted : ℕ

abbrev pub ValidatorSet : Type 0
ValidatorSet = List ValidatorInfo

-- `sort_by` with the larger stake first; it keeps the order of equal stakes.
unfoldable pub place : ValidatorInfo → ValidatorSet → ValidatorSet
place v [] = v ∷ []
place v (w ∷ ws) = let rest = place v ws in if ltb v.stake w.stake then w ∷ rest else v ∷ w ∷ ws

unfoldable pub sort_by_stake : ValidatorSet → ValidatorSet
sort_by_stake [] = []
sort_by_stake (v ∷ vs) = place v (sort_by_stake vs)

unfoldable pub add_validator : String → ℕ → ValidatorSet → ValidatorSet
add_validator address stake s = sort_by_stake (
    s
    ++ (record {
      address = address;
      stake = stake;
      active = true;
      blocks_proposed = 0;
      blocks_voted = 0;
    })
      ∷ [])

unfoldable pub remove_validator : String → ValidatorSet → ValidatorSet
remove_validator address s = keep (λ v. not (v.address =? address)) s

abbrev pub active_validators : ValidatorSet → List ValidatorInfo
active_validators s = keep (λ v. v.active) s

-- The outer `none` is the source's `None`; an index out of range would panic.
unfoldable pub proposer_for_round : ℕ → ValidatorSet → Option (Option ValidatorInfo)
proposer_for_round round s =
    if length (active_validators s) == 0
    then none
    else some (get_elem? (active_validators s) (round % length (active_validators s)))

abbrev pub active_count : ValidatorSet → ℕ
active_count s = count_if (λ v. v.active) s

unfoldable pub quorum_threshold : ValidatorSet → ℕ
quorum_threshold s = if active_count s == 0 then 0 else 2 * active_count s / 3 + 1

pub total_stake : ValidatorSet → ℕ
total_stake s = wrap64 (sum_of (λ v. v.stake) (active_validators s))

unfoldable pub contains : String → ValidatorSet → Bool
contains address [] = false
contains address (v ∷ vs) = v.address =? address && v.active || contains address vs
