-- ===== src/Blocks/Tree.antt =====
-- The loop of `compute_merkle_root` of protocol/src/storage/block.rs: that it ends, and the tree
-- that it computes.
use nova_protocol.Common.{
  ℕ, zero, suc, ◌+◌, ◌≤◌, ◌<◌, ◌≡◌, ◌⊎◌, refl, ap, ◌∙◌, List, [], ◌∷◌, ◌++◌, map, arith, length,
  take, drop, length-take, length-map,
}
use nova_protocol.Transaction.{Transaction}
use nova_protocol.Blocks.{
  Bytes, Primitives, zero_hash, next_level, climb, leaf, compute_merkle_root,
}

abbrev pub double : ℕ → ℕ
double zero = zero
double (suc n) = suc (suc (double n))

-- `2 ^ k`
abbrev pub width : ℕ → ℕ
width zero = 1
width (suc k) = double (width k)

pub double_lem : (n : ℕ) → double n ≡ n + n
double_lem zero = omega arith
double_lem (suc n) = omega (arith, double_lem n)

pub width-pos : (k : ℕ) → 1 ≤ width k
width-pos zero = omega arith
width-pos (suc k) = omega (arith, width-pos k, double_lem (width k))

abbrev pub first : List Bytes → Bytes
first [] = []
first (a ∷ rest) = a

module _ (p : Primitives) where
  -- A node over its left half and its right one: where the right half is empty, the left stands
  -- for it.
  abbrev pub node : (List Bytes → Bytes) → Bytes → List Bytes → Bytes
  node sub left [] = p.blake3 (left ++ left)
  node sub left (b ∷ rest) = p.blake3 (left ++ sub (b ∷ rest))

  -- The tree of depth `k` over at most `2 ^ k` hashes, from the root down.
  unfoldable pub subtree : ℕ → List Bytes → Bytes
  subtree zero xs = first xs
  subtree (suc k) xs = node (subtree k) (subtree k (take (width k) xs)) (drop (width k) xs)

  -- The loop from a first hash and the others on: with which hash it ends.
  pub data Climbs : Bytes → List Bytes → Bytes → Type 0 where
    done : (a : Bytes) → Climbs a [] a
    turn :
        (a b root : Bytes) (rest : List Bytes)
        → Climbs (p.blake3 (a ++ b)) (next_level p rest) root
        → Climbs a (b ∷ rest) root

  pub length-next_level :
      (xs : List Bytes)
      → double (length (next_level p xs)) ≡ length xs
        ⊎ double (length (next_level p xs)) ≡ suc (length xs)
  unfolding next_level
  length-next_level [] = omega arith
  length-next_level (a ∷ []) = omega arith
  length-next_level (a ∷ b ∷ rest) = omega (arith, length-next_level rest)

  climb-Climbs :
      (fuel : ℕ) (a : Bytes) (rest : List Bytes)
      → length rest ≤ fuel
      → Climbs a rest (climb p fuel a rest)
  unfolding climb
  climb-Climbs fuel a [] h = done a
  climb-Climbs zero a (b ∷ rest) h = absurd (omega arith)
  climb-Climbs (suc fuel) a (b ∷ rest) h = turn a b _ rest (
      climb-Climbs fuel (p.blake3 (a ++ b)) (next_level p rest)
        (omega (arith, length-next_level rest, double_lem (length (next_level p rest)))))

  take-next_level :
      (n : ℕ) (xs : List Bytes) → take n (next_level p xs) ≡ next_level p (take (double n) xs)
  unfolding next_level
  take-next_level zero xs = refl
  take-next_level (suc n) [] = refl
  take-next_level (suc zero) (a ∷ []) = refl
  take-next_level (suc (suc n)) (a ∷ []) = refl
  take-next_level (suc n) (a ∷ b ∷ rest) = ap (λ l. p.blake3 (a ++ b) ∷ l) (take-next_level n rest)

  drop-next_level :
      (n : ℕ) (xs : List Bytes) → drop n (next_level p xs) ≡ next_level p (drop (double n) xs)
  unfolding next_level
  drop-next_level zero xs = refl
  drop-next_level (suc n) [] = refl
  drop-next_level (suc zero) (a ∷ []) = refl
  drop-next_level (suc (suc n)) (a ∷ []) = refl
  drop-next_level (suc n) (a ∷ b ∷ rest) = drop-next_level n rest

  node-next_level :
      (k : ℕ)
      → ((ys : List Bytes) → 1 ≤ length ys → subtree k (next_level p ys) ≡ subtree (suc k) ys)
      → (l : Bytes) (ys : List Bytes)
      → node (subtree k) l (next_level p ys) ≡ node (subtree (suc k)) l ys
  unfolding next_level
  node-next_level k lower l [] = refl
  node-next_level k lower l (a ∷ []) = ap (λ r. p.blake3 (l ++ r)) (lower (a ∷ []) (omega arith))
  node-next_level k lower l (a ∷ b ∷ rest) =
      ap (λ r. p.blake3 (l ++ r)) (lower (a ∷ b ∷ rest) (omega arith))

  -- One level of the loop takes the lowest level off the tree.
  subtree-next_level :
      (k : ℕ) (xs : List Bytes) → 1 ≤ length xs → subtree k (next_level p xs) ≡ subtree (suc k) xs
  unfolding subtree next_level
  subtree-next_level zero [] h = absurd (omega arith)
  subtree-next_level zero (a ∷ []) h = refl
  subtree-next_level zero (a ∷ b ∷ rest) h = refl
  subtree-next_level (suc k) xs h =
      let half : ℕ = width k in
      let left : subtree k (next_level p (take (double half) xs))
          ≡ subtree (suc k) (take (double half) xs) =
        subtree-next_level k (take (double half) xs)
          (omega (arith, length-take (double half) xs, width-pos k, double_lem half)) in
      let right : (l : Bytes)
          → node (subtree k) l (next_level p (drop (double half) xs))
            ≡ node (subtree (suc k)) l (drop (double half) xs) =
        λ l. node-next_level k (λ ys n. subtree-next_level k ys n) l (drop (double half) xs) in
      ap (λ l. node (subtree k) (subtree k l) (drop half (next_level p xs)))
        (take-next_level half xs)
      ∙ ap (λ r. node (subtree k) (subtree k (next_level p (take (double half) xs))) r)
          (drop-next_level half xs)
      ∙ ap (λ l. node (subtree k) l (next_level p (drop (double half) xs))) left
      ∙ right (subtree (suc k) (take (double half) xs))

  -- With enough fuel the loop computes the tree, of the least depth that has room for the hashes.
  climb-subtree :
      (k fuel : ℕ) (a : Bytes) (rest : List Bytes)
      → length rest ≤ fuel
      → width k ≤ length rest
      → suc (length rest) ≤ width (suc k)
      → climb p fuel a rest ≡ subtree (suc k) (a ∷ rest)
  unfolding climb next_level subtree
  climb-subtree k fuel a [] f h h' = absurd (omega (arith, width-pos k))
  climb-subtree k zero a (b ∷ rest) f h h' = absurd (omega arith)
  climb-subtree zero (suc fuel) a (b ∷ []) f h h' = refl
  climb-subtree zero (suc fuel) a (b ∷ c ∷ rest) f h h' = absurd (omega arith)
  climb-subtree (suc k) (suc fuel) a (b ∷ rest) f h h' =
      climb-subtree k fuel (p.blake3 (a ++ b)) (next_level p rest)
        (omega (arith, length-next_level rest, double_lem (length (next_level p rest))))
        (omega (
          arith,
          length-next_level rest,
          double_lem (length (next_level p rest)),
          double_lem (width k),
        ))
        (omega (
          arith,
          length-next_level rest,
          double_lem (length (next_level p rest)),
          double_lem (width k),
          double_lem (double (width k)),
        ))
      ∙ subtree-next_level (suc k) (a ∷ b ∷ rest) (omega arith)

  none_more : (txs : List Transaction) → length txs ≡ 0 → txs ≡ []
  none_more [] e = refl
  none_more (tx ∷ txs) e = absurd (omega (arith, e))

  single_leaf :
      (tx : Transaction) (txs : List Transaction)
      → txs ≡ []
      → compute_merkle_root p (tx ∷ txs) ≡ subtree 0 (map (leaf p) (tx ∷ txs))
  unfolding compute_merkle_root climb subtree
  single_leaf tx [] e = refl
  single_leaf tx (ty ∷ txs) e = absurd (omega (arith, ap length e))

  -- The loop over the levels ends, for any list of transactions that is not empty: the fuel, the
  -- number of transactions after the first, does not run out, and the root is what the loop ends
  -- with.
  pub compute_merkle_root_ends :
      (tx : Transaction) (txs : List Transaction)
      → Climbs (leaf p tx) (map (leaf p) txs) (compute_merkle_root p (tx ∷ txs))
  unfolding compute_merkle_root
  compute_merkle_root_ends tx txs =
      climb-Climbs (length txs) (leaf p tx) (map (leaf p) txs)
        (omega (arith, length-map (leaf p) txs))

  -- The root that the loop computes from the leaves up is that of the tree from the root down: no
  -- transaction gives zeros, one gives its leaf, and more give the tree of the least depth that has
  -- room for them.
  pub compute_merkle_root_lem :
      (txs : List Transaction)
      → (length txs ≡ 0 → compute_merkle_root p txs ≡ zero_hash)
        × (length txs ≡ 1 → compute_merkle_root p txs ≡ subtree 0 (map (leaf p) txs))
        × ((k : ℕ)
            → width k < length txs
            → length txs ≤ width (suc k)
            → compute_merkle_root p txs ≡ subtree (suc k) (map (leaf p) txs))
  unfolding compute_merkle_root
  compute_merkle_root_lem [] =
      (λ e. refl, λ e. absurd (omega (arith, e)), λ k h h'. absurd (omega (arith, h)))
  compute_merkle_root_lem (tx ∷ txs) =
      let n = length-map (leaf p) txs in
      (
        λ e. absurd (omega (arith, e)),
        λ e. single_leaf tx txs (none_more txs (omega (arith, e))),
        λ k h h'.
            climb-subtree k (length txs) (leaf p tx) (map (leaf p) txs) (omega (arith, n))
              (omega (arith, n)) (omega (arith, n)),
      )
