-- ===== src/State/Smt.antt =====
-- The sparse Merkle tree of protocol/src/storage/state.rs. The constants 256 (the depth of the tree
-- and the bits of a key and of a hash) are one number `depth`, for which everything is proved. A
-- byte string is the list of its bits, the most significant of the first byte first. The sled tree
-- is a map; its keys begin with two bytes, kept as the number that they encode.
--
-- Not under src/: `blake3` and the serialisation of account states, `encode` and `decode`. `utf8`
-- stands for `str::as_bytes`.
pub mod Bits
pub mod Consistency
pub mod Update
pub mod Proofs
pub mod Soundness
pub mod Paths
pub mod Descent
pub mod Inclusion
pub mod Store
mod Tests
use nova_protocol.Common.{
  ℕ, zero, suc, ◌+◌, ◌-◌, ◌%◌, ◌≤◌, ◌≡◌, String, Bool, true, false, not, ◌&&◌, Option, none, some,
  List, [], ◌∷◌, ◌++◌, ◌==◌, ◌=?◌, bits_key, tagged_key, if◌then◌else◌, length, take, replicate,
  get_or, flip,
}
use nova_protocol.Common.Dict.{Dict, lookup, insert}
use nova_protocol.State.{AccountState, SameAccount}

abbrev pub Bytes : Type 0
Bytes = List Bool

-- What the tree uses of other crates.
pub record Primitives : Type 0 where
  pub depth : ℕ
  pub blake3 : Bytes → Bytes
  pub utf8 : String → Bytes
  pub encode : AccountState → Bytes
  pub decode : Bytes → Option AccountState

-- The documented behaviour of the hash and of the serialisation: what is read back is equal to what
-- was written, but its map of commitments may have another order.
pub record IsLawful (p : Primitives) : Type 0 where
  pub hash_length : (x : Bytes) → length (p.blake3 x) ≡ p.depth
  pub depth_small : p.depth ≤ 256
  pub decode-encode :
      (s : AccountState)
      → (s' : AccountState) × (p.decode (p.encode s) ≡ some s') × SameAccount s s'

abbrev pub StorageKey : Type 0
StorageKey = ℕ × Bytes

pub record StateTree : Type 0 where
  pub db : Dict StorageKey Bytes
  pub root : Bytes

pub record MerkleProof : Type 0 where
  pub siblings : List Bytes
  pub path_bits : List Bool

module _ (p : Primitives) where
  open p use {depth, blake3, utf8, encode, decode}

  -- `compute_default_hashes`: entry `level` of the table.
  pub default_hash : ℕ → Bytes
  default_hash zero = replicate depth false
  default_hash (suc level) = let below = default_hash level in blake3 (below ++ below)

  pub get_bit : Bytes → ℕ → Bool
  get_bit key bit_index = get_or key bit_index false

  pub bit_at_level : Bytes → ℕ → Bool
  bit_at_level key level = get_bit key (depth - level)

  -- The prefix of the key, padded with zero bits to whole bytes.
  pub storage_key_for_node : Bytes → ℕ → StorageKey
  storage_key_for_node key level =
      (level, take (depth - level) key ++ replicate ((8 - (depth - level) % 8) % 8) false)

  pub storage_key_for_sibling : Bytes → ℕ → StorageKey
  storage_key_for_sibling key level = storage_key_for_node (flip key (depth - level)) (level - 1)

  -- The prefix `v:` is the bytes 118 and 58.
  pub leaf_value_key : Bytes → StorageKey
  leaf_value_key key = (30266, key)

  pub leaf_hash : Bytes → Bytes → Bytes
  leaf_hash key value_bytes = blake3 (key ++ value_bytes)

  pub combine_hashes : Bytes → Bytes → Bytes
  combine_hashes left right = blake3 (left ++ right)

  pub address_to_key : String → Bytes
  address_to_key address = blake3 (utf8 address)

  -- The body of the match in `put` and `get_proof`, and the loops over the levels.
  pub sibling_hash : Dict StorageKey Bytes → Bytes → ℕ → Bytes
  sibling_hash db key level = elim (lookup (storage_key_for_sibling key level) db) [
    | none ↦ default_hash (level - 1)
    | some bytes ↦ if length bytes == depth then bytes else default_hash (level - 1)
  ]

  pub siblings_from : Dict StorageKey Bytes → Bytes → ℕ → ℕ → List Bytes
  siblings_from db key level zero = []
  siblings_from db key level (suc n) =
      sibling_hash db key level ∷ siblings_from db key (suc level) n

  pub path_from : Bytes → ℕ → ℕ → List Bool
  path_from key level zero = []
  path_from key level (suc n) = bit_at_level key level ∷ path_from key (suc level) n

  -- One step up: the node's hash from that of a child and its sibling.
  pub parent_hash : Bool → Bytes → Bytes → Bytes
  parent_hash bit sibling current =
      if bit then combine_hashes sibling current else combine_hashes current sibling

  -- `StateTree::new`: the nodes of the database stay, also where it is not empty.
  pub new : Dict StorageKey Bytes → StateTree
  new db = record { db = db; root = default_hash depth }

  pub from_root : Dict StorageKey Bytes → Bytes → StateTree
  from_root db root = record { db = db; root = root }

  pub get : String → StateTree → Option AccountState
  get address t = elim (lookup (leaf_value_key (address_to_key address)) t.db) [
    | none ↦ none
    | some bytes ↦ decode bytes
  ]

  -- Step 4 of `put`: from `level` up, one level for each sibling.
  pub walk_up : Bytes → ℕ → List Bytes → Bytes → Dict StorageKey Bytes → StateTree
  walk_up key level [] current db = record { db = db; root = current }
  walk_up key level (sibling ∷ siblings) current db =
      let parent = parent_hash (bit_at_level key level) sibling current in
      walk_up key (suc level) siblings parent (insert (storage_key_for_node key level) parent db)

  pub put : String → AccountState → StateTree → StateTree
  put address state t =
      let key = address_to_key address in
      let siblings = siblings_from t.db key 1 depth in
      let value_bytes = encode state in
      let db' = insert (leaf_value_key key) value_bytes t.db in
      let current = leaf_hash key value_bytes in
      walk_up key 1 siblings current (insert (storage_key_for_node key 0) current db')

  pub get_proof : String → StateTree → MerkleProof
  get_proof address t =
      let key = address_to_key address in
      record { siblings = siblings_from t.db key 1 depth; path_bits = path_from key 1 depth }

  pub fold_proof : List Bool → List Bytes → Bytes → Bytes
  fold_proof (bit ∷ bits) (sibling ∷ siblings) current =
      fold_proof bits siblings (parent_hash bit sibling current)
  fold_proof [] _ current = current
  fold_proof _ [] current = current

  pub start_hash : String → Option AccountState → Bytes
  start_hash address none = default_hash 0
  start_hash address (some state) = leaf_hash (address_to_key address) (encode state)

  pub verify_proof : Bytes → String → Option AccountState → MerkleProof → Bool
  verify_proof root address value proof =
      length proof.siblings == depth
      && (length proof.path_bits == depth
          && fold_proof proof.path_bits proof.siblings (start_hash address value) =? root)
