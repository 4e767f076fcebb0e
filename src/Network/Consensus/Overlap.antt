-- ===== src/Network/Consensus/Overlap.antt =====
-- How much two lists of validators of protocol/src/network/consensus.rs have in common.
use nova_protocol.Common.{
  ℕ, suc, ◌+◌, ◌≤◌, ◌≡◌, ◌≢◌, refl, inl, inr, not, ◌||◌, String, Bool, true, false, List, [], ◌∷◌,
  ◌++◌, arith, ◌=?◌, same_iff, string_key, length, length-append, All, All-append, IsDistinct,
  Bool-cases, keep, count_if,
}
use nova_protocol.Blocks.{Bytes}
use nova_protocol.Network.Consensus.{Primitives, Vote}
use nova_protocol.Network.Consensus.Validators.{ValidatorInfo, ValidatorSet, contains, active_count}
use nova_protocol.Network.Consensus.Votes.{voters, Counts}

-- The elements other than one, of a list without repetition, are one fewer at most.
others : String → List String → List String
others a xs = keep (λ b. not (a =? b)) xs

keep-All : (a : String) (xs : List String) → All (λ b. a ≢ b) xs → length (others a xs) ≡ length xs
unfolding others
keep-All a [] h = refl
keep-All a (x ∷ xs) h = ground (arith, same_iff a x, keep-All a xs h.1)

length-others :
    (a : String) (xs : List String) → IsDistinct xs → length xs ≤ suc (length (others a xs))
unfolding others
length-others a [] d = omega arith
length-others a (x ∷ xs) d = elim (Bool-cases (a =? x)) [
  | inl e ↦
      let same : a ≡ x = (same_iff a x).0 e in
      let rest : length (others a xs) ≡ length xs = keep-All a xs (rw same d.0) in
      ground (arith, rest)
  | inr e ↦ ground (arith, length-others a xs d.1)
]

All-filter :
    (P : String → Type 0) (q : String → Bool) (xs : List String) → All P xs → All P (keep q xs)
All-filter P q [] h = tt
All-filter P q (x ∷ xs) h = elim (Bool-cases (q x)) [
  | inl e ↦ rw e (h.0, All-filter P q xs h.1)
  | inr e ↦ rw e (All-filter P q xs h.1)
]

IsDistinct-keep : (q : String → Bool) (xs : List String) → IsDistinct xs → IsDistinct (keep q xs)
IsDistinct-keep q [] d = tt
IsDistinct-keep q (x ∷ xs) d = elim (Bool-cases (q x)) [
  | inl e ↦ rw e (All-filter _ q xs d.0, IsDistinct-keep q xs d.1)
  | inr e ↦ rw e (IsDistinct-keep q xs d.1)
]

abbrev pub Among : ValidatorSet → List String → Type 0
Among s xs = All (λ a. contains a s ≡ true) xs

others-Among :
    (v : ValidatorInfo) (s : ValidatorSet) (xs : List String)
    → Among (v ∷ s) xs
    → Among s (others v.address xs)
unfolding others contains
others-Among v s [] h = tt
others-Among v s (x ∷ xs) h = elim (Bool-cases (v.address =? x)) [
  | inl e ↦ rw e (others-Among v s xs h.1)
  | inr e ↦ rw e (ground (arith, h.0), others-Among v s xs h.1)
]

idle-Among :
    (v : ValidatorInfo) (s : ValidatorSet) (xs : List String)
    → v.active ≡ false
    → Among (v ∷ s) xs
    → Among s xs
unfolding contains
idle-Among v s [] i h = tt
idle-Among v s (x ∷ xs) i h = (ground (arith, h.0), idle-Among v s xs i h.1)

-- No more names than there are active validators.
length-Among :
    (s : ValidatorSet) (xs : List String) → Among s xs → IsDistinct xs → length xs ≤ active_count s
unfolding contains
length-Among [] [] h d = omega arith
length-Among [] (x ∷ xs) h d = absurd (ground (arith, h.0))
length-Among (v ∷ s) xs h d = elim (Bool-cases v.active) [
  | inl e ↦
      let ih =
        length-Among s (others v.address xs) (others-Among v s xs h)
          (unfold others in IsDistinct-keep _ xs d) in
      ground (arith, ih, length-others v.address xs d)
  | inr e ↦ ground (arith, length-Among s xs (idle-Among v s xs e h) d)
]

abbrev pub is_in : String → List String → Bool
is_in a [] = false
is_in a (x ∷ xs) = a =? x || is_in a xs

-- The names of the second list that are in the first.
abbrev pub common : List String → List String → ℕ
common xs ys = count_if (λ a. is_in a xs) ys

not_in-differs : (a : String) (xs : List String) → is_in a xs ≡ false → All (λ x. a ≢ x) xs
not_in-differs a [] e = tt
not_in-differs a (x ∷ xs) e = (ground (arith, same_iff a x), not_in-differs a xs (ground arith))

IsDistinct-append :
    (xs ys : List String)
    → IsDistinct xs
    → IsDistinct ys
    → All (λ y. All (λ x. y ≢ x) xs) ys
    → IsDistinct (ys ++ xs)
IsDistinct-append xs [] dx dy h = dx
IsDistinct-append xs (y ∷ ys) dx dy h =
    (All-append (λ z. y ≢ z) ys xs dy.0 h.0, IsDistinct-append xs ys dx dy.1 h.1)

news-differ :
    (xs ys : List String) → All (λ y. All (λ x. y ≢ x) xs) (keep (λ a. not (is_in a xs)) ys)
news-differ xs [] = tt
news-differ xs (y ∷ ys) = elim (Bool-cases (is_in y xs)) [
  | inl e ↦ rw e (news-differ xs ys)
  | inr e ↦ rw e (not_in-differs y xs e, news-differ xs ys)
]

length-news :
    (xs ys : List String) → length (keep (λ a. not (is_in a xs)) ys) + common xs ys ≡ length ys
length-news xs [] = refl
length-news xs (y ∷ ys) = ground (arith, length-news xs ys)

-- Two lists of active validators without repetition overlap in what they have beyond the set.
pub overlap :
    (s : ValidatorSet) (xs ys : List String)
    → Among s xs
    → Among s ys
    → IsDistinct xs
    → IsDistinct ys
    → length xs + length ys ≤ active_count s + common xs ys
overlap s xs ys ax ay dx dy =
    let news = keep (λ a. not (is_in a xs)) ys in
    let small =
      length-Among s (news ++ xs)
        (All-append (λ a. contains a s ≡ true) news xs (All-filter _ (λ a. not (is_in a xs)) ys ay)
          ax)
        (IsDistinct-append xs news dx (IsDistinct-keep _ ys dy) (news-differ xs ys)) in
    omega (arith, small, length-append news xs, length-news xs ys)

pub voters-Among :
    (p : Primitives) (s : ValidatorSet) (h : Bytes) (vs : List Vote)
    → All (Counts p s h) vs
    → Among s (voters vs)
voters-Among p s h [] c = tt
voters-Among p s h (v ∷ vs) c = (c.0.1, voters-Among p s h vs c.1)

pub length-voters : (vs : List Vote) → length (voters vs) ≡ length vs
length-voters [] = refl
length-voters (v ∷ vs) = omega (arith, length-voters vs)
