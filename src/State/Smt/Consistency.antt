-- ===== src/State/Smt/Consistency.antt =====
-- When the nodes stored by the tree of protocol/src/storage/state.rs form a Merkle tree.
use nova_protocol.Common.{
  ℕ, suc, ◌-◌, ◌<◌, ◌≡◌, ◌⊎◌, refl, sym, ap, inl, Bool, true, false, Option, none, some, [], ◌++◌,
  arith, length, flip, ◌==◌, tagged_key, if◌then◌else◌,
}
use nova_protocol.Common.Dict.{Dict, lookup}
use nova_protocol.State.{AccountState}
use nova_protocol.State.Smt.{
  Primitives, Bytes, StorageKey, StateTree, default_hash, storage_key_for_node,
  storage_key_for_sibling, leaf_value_key, leaf_hash, bit_at_level, parent_hash, combine_hashes,
  sibling_hash, new,
}

module _ (p : Primitives) where
  open p use {depth, blake3, encode}

  -- What is read for a node: the stored hash, or the default of its level.
  abbrev pub read : ℕ → Option Bytes → Bytes
  read level none = default_hash p level
  read level (some bytes) = if length bytes == depth then bytes else default_hash p level

  abbrev pub node : Dict StorageKey Bytes → Bytes → ℕ → Bytes
  node db key level = read level (lookup (storage_key_for_node p key level) db)

  pub sibling_hash-eq-node :
      (db : Dict StorageKey Bytes) (key : Bytes) (l : ℕ)
      → sibling_hash p db key (suc l) ≡ node db (flip key (depth - suc l)) l
  unfolding sibling_hash storage_key_for_sibling
  sibling_hash-eq-node db key l =
      let e : suc l - 1 ≡ l = omega arith in
      ap (λ n. read n (lookup (storage_key_for_node p (flip key (depth - suc l)) n) db)) e

  -- The hash of the leaf of a key, from the stored value.
  abbrev pub leaf_of : Bytes → Option Bytes → Bytes
  leaf_of key none = default_hash p 0
  leaf_of key (some bytes) = leaf_hash p key bytes

  pub record IsConsistent (t : StateTree) : Type 0 where
    pub parents :
        (key : Bytes) (l : ℕ)
        → length key ≡ depth
        → l < depth
        → node t.db key (suc l)
          ≡ parent_hash p
              (bit_at_level p key (suc l))
              (sibling_hash p t.db key (suc l))
              (node t.db key l)
    pub top : (key : Bytes) → length key ≡ depth → node t.db key depth ≡ t.root
    pub leaves :
        (key : Bytes)
        → length key ≡ depth
        → node t.db key 0 ≡ leaf_of key (lookup (leaf_value_key p key) t.db)
    pub stored :
        (key : Bytes)
        → (lookup (leaf_value_key p key) t.db ≡ none)
          ⊎ ((s : AccountState) × (lookup (leaf_value_key p key) t.db ≡ some (encode s)))

  -- On two equal children the side does not matter.
  parent_hash_same : (bit : Bool) (x : Bytes) → parent_hash p bit x x ≡ blake3 (x ++ x)
  unfolding parent_hash combine_hashes
  parent_hash_same true x = refl
  parent_hash_same false x = refl

  -- A new tree on an empty database is a Merkle tree.
  pub new-IsConsistent : IsConsistent (new p [])
  unfolding new lookup default_hash
  new-IsConsistent = record {
    parents = λ key l h small.
        rw (sibling_hash-eq-node [] key l)
          (sym (parent_hash_same (bit_at_level p key (suc l)) (default_hash p l)));
    top = λ key h. refl;
    leaves = λ key h. refl;
    stored = λ key. inl refl;
  }
