-- ===== src/Blocks/Roots.antt =====
-- Which lists of transactions have one Merkle root, in protocol/src/storage/block.rs.
use mathlib.Core.Path.{subst}
use nova_protocol.Common.{
  ℕ, zero, suc, ◌+◌, ◌≤◌, ◌≡◌, ◌⊎◌, inl, inr, refl, sym, ap, ◌∙◌, List, [], ◌∷◌, ◌++◌, map, arith,
  length, length-map, length-append, bits_key,
}
use nova_protocol.Common.Exec.{ok}
use nova_protocol.Transaction.{Transaction}
use nova_protocol.Blocks.{
  Bytes, Block, Primitives, IsLawful, next_level, climb, leaf, compute_merkle_root, compute_hash,
  verify,
}
use nova_protocol.Blocks.Tree.{double_lem, double, length-next_level}
use nova_protocol.Blocks.Levels.{
  CollisionIn, widen, ClimbHashed, LeafHashed, Hashed, leaves-AreHashes, climb_inj, leaves_inj,
}

module _ (p : Primitives) where
  -- For a hash of 32 bytes, two lists of as many transactions that have one root have the same JSON
  -- forms in the same order, or a text that is hashed for the root of the one list and a different
  -- text that is hashed for the root of the other have one hash.
  pub compute_merkle_root_inj :
      (txs tys : List Transaction)
      → IsLawful p
      → length txs ≡ length tys
      → compute_merkle_root p txs ≡ compute_merkle_root p tys
      → (map p.json txs ≡ map p.json tys) ⊎ CollisionIn p (Hashed p txs) (Hashed p tys)
  unfolding compute_merkle_root
  compute_merkle_root_inj [] [] law n e = inl refl
  compute_merkle_root_inj [] (ty ∷ tys) law n e = absurd (omega arith)
  compute_merkle_root_inj (tx ∷ txs) [] law n e = absurd (omega arith)
  compute_merkle_root_inj (tx ∷ txs) (ty ∷ tys) law n e =
      let same : length txs ≡ length tys = omega arith in
      let X = ClimbHashed p (length txs) (leaf p tx) (map (leaf p) txs) in
      let Y = ClimbHashed p (length txs) (leaf p ty) (map (leaf p) tys) in
      let fuel = λ (m : ℕ). ClimbHashed p m (leaf p ty) (map (leaf p) tys) in
      elim (climb_inj p (length txs) (leaf p tx) (leaf p ty) (map (leaf p) txs) (map (leaf p) tys)
        (omega (arith, length-map (leaf p) txs)) law (leaves-AreHashes p (tx ∷ txs) law)
        (leaves-AreHashes p (ty ∷ tys) law)
        (omega (arith, length-map (leaf p) txs, length-map (leaf p) tys))
        (e ∙ ap (λ f. climb p f (leaf p ty) (map (leaf p) tys)) (sym same))) [
          | inr k ↦ inr (
              widen p X Y (Hashed p (tx ∷ txs)) (Hashed p (ty ∷ tys)) (λ x i. inr i)
                (λ y i. inr (subst (λ m. fuel m y) same i)) k)
          | inl q ↦ elim (leaves_inj p (tx ∷ txs) (ty ∷ tys) q) [
            | inl forms ↦ inl forms
            | inr k ↦ inr (
                widen p (LeafHashed p (tx ∷ txs)) (LeafHashed p (ty ∷ tys)) (Hashed p (tx ∷ txs))
                  (Hashed p (ty ∷ tys)) (λ x i. inl i) (λ y i. inl i) k)
          ]
        ]

  next_level_duplicate :
      (m : ℕ) (xs : List Bytes) (a : Bytes)
      → length xs ≡ double m
      → next_level p (xs ++ a ∷ []) ≡ next_level p (xs ++ a ∷ a ∷ [])
  unfolding next_level
  next_level_duplicate m [] a e = refl
  next_level_duplicate zero (x ∷ xs) a e = absurd (omega arith)
  next_level_duplicate (suc m) (x ∷ []) a e = absurd (omega arith)
  next_level_duplicate (suc m) (x ∷ y ∷ xs) a e =
      ap (λ l. p.blake3 (x ++ y) ∷ l) (next_level_duplicate m xs a (omega arith))

  climb_fuel :
      (fuel more : ℕ) (a : Bytes) (xs : List Bytes)
      → length xs ≤ fuel
      → length xs ≤ more
      → climb p fuel a xs ≡ climb p more a xs
  unfolding climb
  climb_fuel fuel more a [] h h' = refl
  climb_fuel zero more a (b ∷ xs) h h' = absurd (omega arith)
  climb_fuel (suc fuel) zero a (b ∷ xs) h h' = absurd (omega arith)
  climb_fuel (suc fuel) (suc more) a (b ∷ xs) h h' =
      let n = length-next_level p xs in
      let d = double_lem (length (next_level p xs)) in
      climb_fuel fuel more (p.blake3 (a ++ b)) (next_level p xs) (omega (arith, n, d))
        (omega (arith, n, d))

  map-append :
      (f : Transaction → Bytes) (txs tys : List Transaction)
      → map f (txs ++ tys) ≡ map f txs ++ map f tys
  map-append f [] tys = refl
  map-append f (tx ∷ txs) tys = ap (λ l. f tx ∷ l) (map-append f txs tys)

  -- After an even number of transactions, two at least, one more and the same one twice more give
  -- the same root.
  pub last_twice :
      (m : ℕ) (t u : Transaction) (txs : List Transaction) (tx : Transaction)
      → length txs ≡ m + m
      → compute_merkle_root p (t ∷ u ∷ txs ++ tx ∷ tx ∷ [])
        ≡ compute_merkle_root p (t ∷ u ∷ txs ++ tx ∷ [])
  unfolding compute_merkle_root climb
  last_twice m t u txs tx e =
      let a : Bytes = p.blake3 (leaf p t ++ leaf p u) in
      let one : List Bytes = next_level p (map (leaf p) (txs ++ tx ∷ [])) in
      let two : List Bytes = next_level p (map (leaf p) (txs ++ tx ∷ tx ∷ [])) in
      let same : one ≡ two =
        ap (next_level p) (map-append (leaf p) txs (tx ∷ []))
        ∙ next_level_duplicate m (map (leaf p) txs) (leaf p tx)
            (omega (arith, length-map (leaf p) txs, double_lem m))
        ∙ ap (next_level p) (sym (map-append (leaf p) txs (tx ∷ tx ∷ []))) in
      let n = length-next_level p (map (leaf p) (txs ++ tx ∷ [])) in
      let k = length-map (leaf p) (txs ++ tx ∷ []) in
      let long = length-append txs (tx ∷ tx ∷ []) in
      let short = length-append txs (tx ∷ []) in
      ap (climb p (length (txs ++ tx ∷ tx ∷ [])) a) (sym same)
      ∙ climb_fuel (length (txs ++ tx ∷ tx ∷ [])) (length (txs ++ tx ∷ [])) a one
          (omega (arith, n, k, long, short, double_lem (length one)))
          (omega (arith, n, k, long, short, double_lem (length one)))

  -- A block that passes `verify`, with an odd number of transactions, three at least, still passes
  -- it when its last transaction is repeated, with the same header and so the same hash.
  pub verify_repeated :
      (m : ℕ) (b : Block) (t u : Transaction) (txs : List Transaction) (tx : Transaction)
      → length txs ≡ m + m
      → b.transactions ≡ t ∷ u ∷ txs ++ tx ∷ []
      → verify p b ≡ ok tt
      → verify p (record b { transactions = t ∷ u ∷ txs ++ tx ∷ tx ∷ [] }) ≡ ok tt
  unfolding verify compute_hash
  verify_repeated m b t u txs tx e q h =
      let same : compute_merkle_root p (t ∷ u ∷ txs ++ tx ∷ tx ∷ [])
          ≡ compute_merkle_root p b.transactions =
        last_twice m t u txs tx e ∙ ap (compute_merkle_root p) (sym q) in
      rw same h
