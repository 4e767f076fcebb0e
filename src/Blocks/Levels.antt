-- ===== src/Blocks/Levels.antt =====
-- What the levels of the Merkle tree of protocol/src/storage/block.rs determine below them.
use nova_protocol.Common.{
  In, ℕ, zero, suc, ◌≤◌, ◌≡◌, ◌≢◌, ◌⊎◌, inl, inr, refl, sym, ap, ◌∙◌, List, [], ◌∷◌, ◌++◌, map,
  arith, length, All, append_parts, same_iff, bits_key, ◌=?◌, Bool-cases,
}
use nova_protocol.Transaction.{Transaction}
use nova_protocol.Blocks.{Bytes, Primitives, IsLawful, next_level, climb, leaf}
use nova_protocol.Blocks.Tree.{double_lem, length-next_level}

module _ (p : Primitives) where
  -- Two different texts with one hash.
  abbrev pub Collide : Bytes → Bytes → Type 0
  Collide x y = (x ≢ y) × (p.blake3 x ≡ p.blake3 y)

  -- A collision between a text of one kind and a text of another.
  abbrev pub CollisionIn : (Bytes → Type 0) → (Bytes → Type 0) → Type 0
  CollisionIn X Y = (x : Bytes) × (y : Bytes) × X x × Y y × Collide x y

  pub widen :
      (X Y X' Y' : Bytes → Type 0)
      → ((x : Bytes) → X x → X' x)
      → ((y : Bytes) → Y y → Y' y)
      → CollisionIn X Y
      → CollisionIn X' Y'
  widen X Y X' Y' f g (x, y, given, given', c) = (x, y, f x given, g y given', c)

  pub blake3_inj : (x y : Bytes) → p.blake3 x ≡ p.blake3 y → (x ≡ y) ⊎ Collide x y
  blake3_inj x y e = elim (Bool-cases (x =? y)) [
    | inl same ↦ inl ((same_iff x y).0 same)
    | inr other ↦ inr ((λ q. ground (arith, same_iff x y)), e)
  ]

  -- The texts that `next_level`, `climb` and `compute_merkle_root` hash.
  abbrev pub PairHashed : List Bytes → Bytes → Type 0
  PairHashed [] x = ⊥
  PairHashed (a ∷ []) x = x ≡ a ++ a
  PairHashed (a ∷ b ∷ rest) x = (x ≡ a ++ b) ⊎ PairHashed rest x

  abbrev pub ClimbHashed : ℕ → Bytes → List Bytes → Bytes → Type 0
  ClimbHashed fuel a [] x = ⊥
  ClimbHashed zero a (b ∷ rest) x = ⊥
  ClimbHashed (suc fuel) a (b ∷ rest) x =
      PairHashed (a ∷ b ∷ rest) x ⊎ ClimbHashed fuel (p.blake3 (a ++ b)) (next_level p rest) x

  abbrev pub LeafHashed : List Transaction → Bytes → Type 0
  LeafHashed txs x = In x (map p.json txs)

  abbrev pub Hashed : List Transaction → Bytes → Type 0
  Hashed [] x = ⊥
  Hashed (tx ∷ txs) x =
      LeafHashed (tx ∷ txs) x ⊎ ClimbHashed (length txs) (leaf p tx) (map (leaf p) txs) x

  abbrev pub AreHashes : List Bytes → Type 0
  AreHashes = All (λ h. length h ≡ 256)

  next_level-AreHashes : (xs : List Bytes) → IsLawful p → AreHashes (next_level p xs)
  unfolding next_level
  next_level-AreHashes [] law = tt
  next_level-AreHashes (a ∷ []) law = (law.length-blake3 (a ++ a), tt)
  next_level-AreHashes (a ∷ b ∷ rest) law =
      (law.length-blake3 (a ++ b), next_level-AreHashes rest law)

  pairs_inj :
      (a b c d : Bytes)
      → length a ≡ 256
      → length c ≡ 256
      → p.blake3 (a ++ b) ≡ p.blake3 (c ++ d)
      → ((a ≡ c) × (b ≡ d)) ⊎ Collide (a ++ b) (c ++ d)
  pairs_inj a b c d h h' e = elim (blake3_inj (a ++ b) (c ++ d) e) [
    | inl q ↦ inl (append_parts a c b d (h ∙ sym h') q)
    | inr k ↦ inr k
  ]

  next_level_inj :
      (xs ys : List Bytes)
      → AreHashes xs
      → AreHashes ys
      → length xs ≡ length ys
      → next_level p xs ≡ next_level p ys
      → (xs ≡ ys) ⊎ CollisionIn (PairHashed xs) (PairHashed ys)
  unfolding next_level
  next_level_inj [] [] h h' n e = inl refl
  next_level_inj [] (c ∷ ys) h h' n e = absurd (omega arith)
  next_level_inj (a ∷ xs) [] h h' n e = absurd (omega arith)
  next_level_inj (a ∷ []) (c ∷ []) h h' n e = elim (pairs_inj a a c c h.0 h'.0 (cc)) [
    | inl (q, _) ↦ inl (cc)
    | inr k ↦ inr (a ++ a, c ++ c, refl, refl, k)
  ]
  next_level_inj (a ∷ []) (c ∷ d ∷ ys) h h' n e = absurd (omega arith)
  next_level_inj (a ∷ b ∷ xs) (c ∷ []) h h' n e = absurd (omega arith)
  next_level_inj (a ∷ b ∷ xs) (c ∷ d ∷ ys) h h' n e = elim (pairs_inj a b c d h.0 h'.0 (cc)) [
    | inr k ↦ inr (a ++ b, c ++ d, inl refl, inl refl, k)
    | inl (q, r) ↦ elim (next_level_inj xs ys h.1.1 h'.1.1 (omega arith) (cc)) [
      | inr k ↦ inr (
          widen (PairHashed xs) (PairHashed ys) (PairHashed (a ∷ b ∷ xs)) (PairHashed (c ∷ d ∷ ys))
            (λ x i. inr i) (λ y i. inr i) k)
      | inl s ↦ inl (cc)
    ]
  ]

  pub climb_inj :
      (fuel : ℕ) (a c : Bytes) (xs ys : List Bytes)
      → length xs ≤ fuel
      → IsLawful p
      → AreHashes (a ∷ xs)
      → AreHashes (c ∷ ys)
      → length xs ≡ length ys
      → climb p fuel a xs ≡ climb p fuel c ys
      → (a ∷ xs ≡ c ∷ ys) ⊎ CollisionIn (ClimbHashed fuel a xs) (ClimbHashed fuel c ys)
  unfolding climb next_level
  climb_inj fuel a c [] [] f law h h' n e = inl (cc)
  climb_inj fuel a c [] (d ∷ ys) f law h h' n e = absurd (omega arith)
  climb_inj fuel a c (b ∷ xs) [] f law h h' n e = absurd (omega arith)
  climb_inj zero a c (b ∷ xs) (d ∷ ys) f law h h' n e = absurd (omega arith)
  climb_inj (suc fuel) a c (b ∷ xs) (d ∷ ys) f law h h' n e =
      let X = ClimbHashed (suc fuel) a (b ∷ xs) in
      let Y = ClimbHashed (suc fuel) c (d ∷ ys) in
      let low = p.blake3 (a ++ b) in
      let low' = p.blake3 (c ++ d) in
      let up = next_level p xs in
      let up' = next_level p ys in
      elim (climb_inj fuel low low' up up'
        (omega (arith, length-next_level p xs, double_lem (length (next_level p xs)))) law
        (next_level-AreHashes (a ∷ b ∷ xs) law) (next_level-AreHashes (c ∷ d ∷ ys) law)
        (omega (
          arith,
          length-next_level p xs,
          length-next_level p ys,
          double_lem (length (next_level p xs)),
          double_lem (length (next_level p ys)),
        ))
        e) [
          | inr k ↦ inr (
              widen (ClimbHashed fuel low up) (ClimbHashed fuel low' up') X Y (λ x i. inr i)
                (λ y i. inr i) k)
          | inl q ↦ elim (next_level_inj (a ∷ b ∷ xs) (c ∷ d ∷ ys) h h' (omega (arith, n)) q) [
            | inl same ↦ inl same
            | inr k ↦ inr (
                widen (PairHashed (a ∷ b ∷ xs)) (PairHashed (c ∷ d ∷ ys)) X Y (λ x i. inl i)
                  (λ y i. inl i) k)
          ]
        ]

  pub leaves-AreHashes : (txs : List Transaction) → IsLawful p → AreHashes (map (leaf p) txs)
  leaves-AreHashes [] law = tt
  leaves-AreHashes (tx ∷ txs) law = (law.length-blake3 (p.json tx), leaves-AreHashes txs law)

  pub leaves_inj :
      (txs tys : List Transaction)
      → map (leaf p) txs ≡ map (leaf p) tys
      → (map p.json txs ≡ map p.json tys) ⊎ CollisionIn (LeafHashed txs) (LeafHashed tys)
  leaves_inj [] [] e = inl refl
  leaves_inj [] (ty ∷ tys) e = absurd (omega (arith, ap length e))
  leaves_inj (tx ∷ txs) [] e = absurd (omega (arith, ap length e))
  leaves_inj (tx ∷ txs) (ty ∷ tys) e = elim (blake3_inj (p.json tx) (p.json ty) (cc)) [
    | inr k ↦ inr (p.json tx, p.json ty, inl refl, inl refl, k)
    | inl q ↦ elim (leaves_inj txs tys (cc)) [
      | inr k ↦ inr (
          widen (LeafHashed txs) (LeafHashed tys) (LeafHashed (tx ∷ txs)) (LeafHashed (ty ∷ tys))
            (λ x i. inr i) (λ y i. inr i) k)
      | inl r ↦ inl (cc)
    ]
  ]
