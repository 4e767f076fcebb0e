-- ===== src/State/Smt/Proofs.antt =====
-- `get_proof` and `verify_proof` of protocol/src/storage/state.rs agree on every Merkle tree.
use nova_protocol.Common.{
  ℕ, zero, suc, ◌+◌, ◌≤◌, ◌≡◌, refl, ap, some, inl, inr, true, String, arith, length, ==_iff,
  same_iff, bits_key, tagged_key, ◌∙◌,
}
use nova_protocol.Common.Dict.{Dict, lookup}
use nova_protocol.State.{AccountState}
use nova_protocol.State.Smt.{
  Primitives, IsLawful, Bytes, StorageKey, StateTree, address_to_key, siblings_from, path_from,
  leaf_value_key, fold_proof, start_hash, get, get_proof, verify_proof,
}
use nova_protocol.State.Smt.Consistency.{node, IsConsistent}

module _ (p : Primitives) where
  open p use {depth, decode, encode}

  pub length-siblings_from :
      (db : Dict StorageKey Bytes) (key : Bytes) (l n : ℕ) → length (siblings_from p db key l n) ≡ n
  unfolding siblings_from
  length-siblings_from db key l zero = refl
  length-siblings_from db key l (suc n) = ap suc (length-siblings_from db key (suc l) n)

  pub length-path_from : (key : Bytes) (l n : ℕ) → length (path_from p key l n) ≡ n
  unfolding path_from
  length-path_from key l zero = refl
  length-path_from key l (suc n) = ap suc (length-path_from key (suc l) n)

  -- From a node up: folding the path gives the node `n` levels above.
  fold_proof-node :
      (t : StateTree) (key : Bytes) (l n : ℕ)
      → IsConsistent p t
      → length key ≡ depth
      → l + n ≤ depth
      → fold_proof p
          (path_from p key (suc l) n)
          (siblings_from p t.db key (suc l) n)
          (node p t.db key l)
        ≡ node p t.db key (l + n)
  unfolding fold_proof path_from siblings_from
  fold_proof-node t key l zero c h fits = let e : l + 0 ≡ l = omega arith in rw e refl
  fold_proof-node t key l (suc n) c h fits =
      let e : l + suc n ≡ suc l + n = omega arith in
      rw (← c.parents key l h (omega arith), e) (fold_proof-node t key (suc l) n c h (omega arith))

  pub key-length : (address : String) → IsLawful p → length (address_to_key p address) ≡ depth
  unfolding address_to_key
  key-length address law = law.hash_length _

  -- Bytes that are read as a state which is written as the same bytes.
  abbrev pub ReadsBack : Bytes → Type 0
  ReadsBack bytes = (s : AccountState) × (decode bytes ≡ some s) × (encode s ≡ bytes)

  -- So are the bytes that are stored under a key, if there are any.
  abbrev pub ReadsBackAt : Bytes → StateTree → Type 0
  ReadsBackAt key t =
      (bytes : Bytes) → lookup (leaf_value_key p key) t.db ≡ some bytes → ReadsBack bytes

  start_hash-eq-node :
      (address : String) (t : StateTree)
      → IsLawful p
      → IsConsistent p t
      → ReadsBackAt (address_to_key p address) t
      → start_hash p address (get p address t) ≡ node p t.db (address_to_key p address) 0
  unfolding get start_hash
  start_hash-eq-node address t law c restores =
      let key = address_to_key p address in
      elim (c.stored key) [
        | inl e ↦ rw (c.leaves key (key-length address law), e, get) refl
        | inr (s, e) ↦
            let (s', read, same) = restores (encode s) e in
            rw (c.leaves key (key-length address law), e, get, read, same) refl
      ]

  -- In a Merkle tree the proof of an address verifies against the root, with the state stored for
  -- the address, or with no state if there is none, where re-serialisation gives the stored bytes.
  pub verify_proof-get_proof :
      (address : String) (t : StateTree)
      → IsLawful p
      → IsConsistent p t
      → ReadsBackAt (address_to_key p address) t
      → verify_proof p t.root address (get p address t) (get_proof p address t) ≡ true
  unfolding verify_proof get_proof
  verify_proof-get_proof address t law c restores =
      let key = address_to_key p address in
      let h = key-length address law in
      let folded =
        ap (fold_proof p (path_from p key 1 depth) (siblings_from p t.db key 1 depth))
          (start_hash-eq-node address t law c restores)
        ∙ fold_proof-node t key 0 depth c h (omega arith)
        ∙ (let e : 0 + depth ≡ depth = omega arith in rw e (c.top key h)) in
      rw
        (
          (==_iff _ _).1 (length-siblings_from t.db key 1 depth),
          (==_iff _ _).1 (length-path_from key 1 depth),
        )
        ((same_iff _ _).1 folded)
