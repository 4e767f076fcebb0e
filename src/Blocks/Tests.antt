-- ===== src/Blocks/Tests.antt =====
-- The theorems about protocol/src/storage/block.rs with a toy hash that keeps the first bits.
use nova_protocol.Common.{
  ◌++◌, ◌==◌, ℕ, zero, suc, ◌<◌, ◌≡◌, ◌⊎◌, refl, true, false, List, [], ◌∷◌, map, arith, length,
  replicate,
}
use nova_protocol.Common.Exec.{ok}
use nova_protocol.Transaction.{Transaction}
use nova_protocol.Transaction.Tests.{here}
use nova_protocol.Blocks.{
  Bytes, Block, Primitives, IsLawful, leaf, compute_merkle_root, compute_header_hash, climb,
  next_level, genesis, new, verify, zero_hash,
}
use nova_protocol.Blocks.Tree.{Climbs, subtree, compute_merkle_root_ends, compute_merkle_root_lem}
use nova_protocol.Blocks.Levels.{Collide, CollisionIn, Hashed}
use nova_protocol.Blocks.Roots.{compute_merkle_root_inj, verify_repeated}
use nova_protocol.Blocks.Headers.{IsWellFormed, SameContent, preimage, verify_binds, verify-new}

-- The first 256 bits, filled up.
abbrev fill : ℕ → Bytes → Bytes
fill zero m = []
fill (suc n) [] = false ∷ fill n []
fill (suc n) (b ∷ m) = b ∷ fill n m

length-fill : (n : ℕ) (m : Bytes) → length (fill n m) ≡ n
length-fill zero m = refl
length-fill (suc n) [] = omega (arith, length-fill n [])
length-fill (suc n) (b ∷ m) = omega (arith, length-fill n m)

unfoldable pub toy_hash : Bytes → Bytes
toy_hash m = fill 256 m

abbrev pub toy : Primitives
toy = record {
  blake3 = toy_hash;
  json = λ tx. replicate 256 true ++ (tx.nonce == 3) ∷ [];
  utf8 = λ s. [];
}

pub toy-IsLawful : IsLawful toy
unfolding toy_hash
toy-IsLawful = record { length-blake3 = λ m. length-fill 256 m }

abbrev three : List Transaction
three = here ∷ here ∷ here ∷ []

abbrev pub first_block : Block
first_block = new toy 1000 (genesis toy) three "v" (replicate 256 true)

genesis_low : (genesis toy).header.height < 18446744073709551615
unfolding genesis
genesis_low = omega arith

pub passes : verify toy first_block ≡ ok tt
passes = (verify-new toy 1000 (genesis toy) three "v" (replicate 256 true) genesis_low).1

compute_merkle_root_ends_example :
    Climbs toy (leaf toy here) (leaf toy here ∷ leaf toy here ∷ []) (compute_merkle_root toy three)
compute_merkle_root_ends_example = compute_merkle_root_ends toy here (here ∷ here ∷ [])

compute_merkle_root_lem_example :
    compute_merkle_root toy three ≡ subtree toy 2 (map (leaf toy) three)
compute_merkle_root_lem_example =
    (compute_merkle_root_lem toy three).2 1 (omega arith) (omega arith)

-- The toy hash does not see the nonce, with which the JSON form ends.
abbrev three_others : List Transaction
three_others = here ∷ record here { nonce = 4 } ∷ here ∷ []

same_roots : compute_merkle_root toy three ≡ compute_merkle_root toy three_others
unfolding compute_merkle_root climb next_level toy_hash
same_roots = refl

compute_merkle_root_inj_example :
    (map toy.json three ≡ map toy.json three_others)
    ⊎ CollisionIn toy (Hashed toy three) (Hashed toy three_others)
compute_merkle_root_inj_example =
    compute_merkle_root_inj toy three three_others toy-IsLawful refl same_roots

verify_repeated_example :
    verify toy (record first_block { transactions = here ∷ here ∷ here ∷ here ∷ [] }) ≡ ok tt
unfolding new
verify_repeated_example =
    verify_repeated toy 0 first_block here here [] here (omega arith) refl passes

first-IsWellFormed : IsWellFormed first_block.header
unfolding new genesis compute_header_hash compute_merkle_root climb next_level
first-IsWellFormed = record {
  height_fits = omega arith;
  timestamp_fits = omega arith;
  parent_length = toy-IsLawful.length-blake3 _;
  state_length = refl;
  tx_length = toy-IsLawful.length-blake3 _;
}

-- The toy hash of a header ends before the time of the block.
abbrev later_block : Block
later_block = new toy 2000 (genesis toy) three "v" (replicate 256 true)

later_passes : verify toy later_block ≡ ok tt
later_passes = (verify-new toy 2000 (genesis toy) three "v" (replicate 256 true) genesis_low).1

later-IsWellFormed : IsWellFormed later_block.header
unfolding new genesis compute_header_hash compute_merkle_root climb next_level
later-IsWellFormed = record {
  height_fits = omega arith;
  timestamp_fits = omega arith;
  parent_length = toy-IsLawful.length-blake3 _;
  state_length = refl;
  tx_length = toy-IsLawful.length-blake3 _;
}

same_hashes : first_block.header.hash ≡ later_block.header.hash
unfolding new genesis compute_header_hash toy_hash zero_hash
same_hashes = refl

verify_binds_example :
    SameContent toy first_block.header later_block.header
    ⊎ Collide toy (preimage toy first_block.header) (preimage toy later_block.header)
verify_binds_example =
    verify_binds toy first_block later_block first-IsWellFormed later-IsWellFormed passes
      later_passes same_hashes
