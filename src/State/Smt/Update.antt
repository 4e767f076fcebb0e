-- ===== src/State/Smt/Update.antt =====
-- `put` of protocol/src/storage/state.rs writes the nodes on one path, and the tree stays a Merkle
-- tree.
pub mod Preservation
pub mod Reading
pub mod Lookup
use nova_protocol.Common.{
  ℕ, zero, suc, ◌+◌, ◌-◌, ◌≤◌, ◌<◌, ◌≡◌, ◌≢◌, ◌⊎◌, refl, sym, ap, inl, inr, Bool, true, false, not,
  String, Option, none, some, List, [], ◌∷◌, arith, length, take, flip, get_or, ◌==◌, ==_iff, ◌=?◌,
  same_iff, bits_key, tagged_key, Bool-cases, if◌then◌else◌, ◌∙◌,
}
use native.Mathlib.Decide.{ℕ_discrete}
use nova_protocol.Common.Dict.{Dict, lookup, insert, lookup-insert}
use nova_protocol.State.{AccountState}
use nova_protocol.State.Smt.{
  Primitives, IsLawful, Bytes, StorageKey, StateTree, address_to_key, default_hash,
  storage_key_for_node, leaf_value_key, leaf_hash, get_bit, bit_at_level, combine_hashes,
  parent_hash, sibling_hash, siblings_from, walk_up, put,
}
use nova_protocol.State.Smt.Bits.{
  length-flip, take-flip, get_or-flip, take_extend, take_shorten, get_or_of_take, take-length,
  storage_key_of_take, take_of_storage_key, storage_key-ne-level, storage_key-ne-value,
  value_key_inj,
}
use nova_protocol.State.Smt.Consistency.{read, node, leaf_of, IsConsistent, sibling_hash-eq-node}

module _ (p : Primitives) (law : IsLawful p) (old : Dict StorageKey Bytes) (key : Bytes)
    (value : Bytes) where
  open p use {depth}

  -- The hash of the node of the key at a level, after the write.
  pub path_hash : ℕ → Bytes
  path_hash zero = leaf_hash p key value
  path_hash (suc l) =
      parent_hash p (bit_at_level p key (suc l)) (sibling_hash p old key (suc l)) (path_hash l)

  pub length-path_hash : (l : ℕ) → length (path_hash l) ≡ depth
  unfolding path_hash leaf_hash parent_hash combine_hashes
  length-path_hash zero = law.hash_length _
  length-path_hash (suc l) = elim (Bool-cases (bit_at_level p key (suc l))) [
    | inl b ↦ rw (b, path_hash) (law.hash_length _)
    | inr b ↦ rw (b, path_hash) (law.hash_length _)
  ]

  abbrev walk : ℕ → ℕ → Dict StorageKey Bytes → StateTree
  walk l n db = walk_up p key (suc l) (siblings_from p old key (suc l) n) (path_hash l) db

  abbrev next_db : ℕ → Dict StorageKey Bytes → Dict StorageKey Bytes
  next_db l db = insert (storage_key_for_node p key (suc l)) (path_hash (suc l)) db

  walk-suc :
      (l n : ℕ) (db : Dict StorageKey Bytes) → walk l (suc n) db ≡ walk (suc l) n (next_db l db)
  unfolding walk_up siblings_from path_hash
  walk-suc l n db = refl

  walk-root : (l n : ℕ) (db : Dict StorageKey Bytes) → (walk l n db).root ≡ path_hash (l + n)
  walk-root l zero db = let e : l + 0 ≡ l = omega arith in unfold walk_up siblings_from in rw e refl
  walk-root l (suc n) db =
      let e : l + suc n ≡ suc l + n = omega arith in
      rw (walk-suc l n db, e) (walk-root (suc l) n (next_db l db))

  -- Entries that are not of the path above the level stay.
  walk-other :
      (j : StorageKey) (l n : ℕ) (db : Dict StorageKey Bytes)
      → ((m : ℕ) → l < m → m ≤ l + n → j ≢ storage_key_for_node p key m)
      → lookup j (walk l n db).db ≡ lookup j db
  walk-other j l zero db h = unfold walk_up siblings_from in refl
  walk-other j l (suc n) db h = rw (walk-suc l n db) (
      walk-other j (suc l) n (next_db l db) (λ m lo hi. h m (omega arith) (omega arith))
      ∙ ground (
        arith,
        lookup-insert j (storage_key_for_node p key (suc l)) (path_hash (suc l)) db,
        same_iff j (storage_key_for_node p key (suc l)),
        h (suc l) (omega arith) (omega arith),
      ))

  walk_self :
      (m l n : ℕ) (db : Dict StorageKey Bytes)
      → l < m
      → m ≤ l + n
      → lookup (storage_key_for_node p key m) (walk l n db).db ≡ some (path_hash m)
  walk_self m l zero db lo hi = absurd (omega arith)
  walk_self m l (suc n) db lo hi = rw (walk-suc l n db) (elim (ℕ_discrete m (suc l)) [
    | yes e ↦ rw e (
        walk-other (storage_key_for_node p key (suc l)) (suc l) n (next_db l db)
          (λ k less _. storage_key-ne-level p key key (suc l) k (omega arith))
        ∙ ground (
          arith,
          lookup-insert (storage_key_for_node p key (suc l)) (storage_key_for_node p key (suc l))
              (path_hash (suc l)) db,
          same_iff (storage_key_for_node p key (suc l)) (storage_key_for_node p key (suc l)),
        ))
    | no ne ↦ walk_self m (suc l) n (next_db l db) (omega arith) (omega arith)
  ])

  abbrev start : Dict StorageKey Bytes
  start =
      insert (storage_key_for_node p key 0) (path_hash 0) (insert (leaf_value_key p key) value old)

  abbrev written : StateTree
  written = walk 0 depth start

  start-other :
      (j : StorageKey)
      → j ≢ storage_key_for_node p key 0
      → j ≢ leaf_value_key p key
      → lookup j start ≡ lookup j old
  start-other j ne ne' = ground (
    arith,
    lookup-insert j (storage_key_for_node p key 0) (path_hash 0)
        (insert (leaf_value_key p key) value old),
    lookup-insert j (leaf_value_key p key) value old,
    same_iff j (storage_key_for_node p key 0),
    same_iff j (leaf_value_key p key),
  )

  written_self :
      (m : ℕ) → m ≤ depth → lookup (storage_key_for_node p key m) written.db ≡ some (path_hash m)
  written_self zero h =
      walk-other (storage_key_for_node p key 0) 0 depth start
        (λ m less _. storage_key-ne-level p key key 0 m (omega arith))
      ∙ ground (
        arith,
        lookup-insert (storage_key_for_node p key 0) (storage_key_for_node p key 0) (path_hash 0)
            (insert (leaf_value_key p key) value old),
        same_iff (storage_key_for_node p key 0) (storage_key_for_node p key 0),
      )
  written_self (suc m) h = walk_self (suc m) 0 depth start (omega arith) (omega arith)

  written-other :
      (j : StorageKey)
      → ((m : ℕ) → m ≤ depth → j ≢ storage_key_for_node p key m)
      → j ≢ leaf_value_key p key
      → lookup j written.db ≡ lookup j old
  written-other j h ne =
      walk-other j 0 depth start (λ m less hi. h m (omega arith))
      ∙ start-other j (h 0 (omega arith)) ne

  value-ne : (k : Bytes) (m : ℕ) → m ≤ depth → leaf_value_key p k ≢ storage_key_for_node p key m
  value-ne k m h e = storage_key-ne-value p key k m (omega (arith, law.depth_small)) (sym e)

  written-value : lookup (leaf_value_key p key) written.db ≡ some value
  written-value =
      walk-other (leaf_value_key p key) 0 depth start (λ m less hi. value-ne key m (omega arith))
      ∙ ground (
        arith,
        lookup-insert (leaf_value_key p key) (storage_key_for_node p key 0) (path_hash 0)
            (insert (leaf_value_key p key) value old),
        lookup-insert (leaf_value_key p key) (leaf_value_key p key) value old,
        same_iff (leaf_value_key p key) (leaf_value_key p key),
        same_iff (leaf_value_key p key) (storage_key_for_node p key 0),
        value-ne key 0 (omega arith),
      )

  written-other_value :
      (k : Bytes)
      → k ≢ key
      → lookup (leaf_value_key p k) written.db ≡ lookup (leaf_value_key p k) old
  written-other_value k ne =
      written-other (leaf_value_key p k) (value-ne k) (λ e. ne (value_key_inj p k key e))

  node-on :
      (k : Bytes) (l : ℕ)
      → l ≤ depth
      → take (depth - l) k ≡ take (depth - l) key
      → node p written.db k l ≡ path_hash l
  node-on k l h e =
      rw (storage_key_of_take p k key l e, written_self l h, (==_iff _ _).1 (length-path_hash l))
        refl

  node-off :
      (k : Bytes) (l : ℕ)
      → l ≤ depth
      → take (depth - l) k ≢ take (depth - l) key
      → node p written.db k l ≡ node p old k l
  node-off k l h ne = ap (read p l) (
      written-other (storage_key_for_node p k l) other
        (storage_key-ne-value p k key l (omega (arith, law.depth_small))))
    where
      other : (m : ℕ) → m ≤ depth → storage_key_for_node p k l ≢ storage_key_for_node p key m
      other m hm e = elim (ℕ_discrete l m) [
        | yes same ↦ ne (take_of_storage_key p k key l (rw (← same) at e))
        | no differ ↦ storage_key-ne-level p k key l m differ e
      ]
