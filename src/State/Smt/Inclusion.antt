-- ===== src/State/Smt/Inclusion.antt =====
-- What a proof of an account accepted by `verify_proof` of protocol/src/storage/state.rs shows.
use mathlib.Core.List.{append-nil}
use mathlib.Core.Path.{subst}
use nova_protocol.Common.{
  ℕ, zero, suc, ◌+◌, ◌≡◌, ◌⊎◌, refl, sym, ap, inl, inr, ◌∙◌, true, String, some, List, [], ◌∷◌,
  arith, length, All, All-map, In, ==_iff, same_iff, bits_key, tagged_key, &&-eq-true,
}
use nova_protocol.Common.Dict.{lookup}
use nova_protocol.State.{AccountState}
use nova_protocol.State.Smt.{
  Primitives, IsLawful, Bytes, StateTree, MerkleProof, address_to_key, leaf_value_key,
  siblings_from, path_from, start_hash, get, get_proof, verify_proof,
}
use nova_protocol.State.Smt.Paths.{key_of, length-key_of, path_from-key_of}
use nova_protocol.State.Smt.Descent.{
  inputs, Broken, descend, leaf_is, length-read, length-start_hash, get-stored,
}
use nova_protocol.State.Smt.Consistency.{node, IsConsistent, sibling_hash-eq-node}

All-In : (xs : List Bytes) → All (λ x. In x xs) xs
All-In [] = tt
All-In (x ∷ xs) =
    (inl refl, All-map (λ y. In y xs) (λ y. In y (x ∷ xs)) xs (λ y m. inr m) (All-In xs))

module _ (p : Primitives) (law : IsLawful p) where
  open p use {depth}

  All-siblings_from :
      (t : StateTree) (key : Bytes) (l n : ℕ)
      → All (λ x. length x ≡ depth) (siblings_from p t.db key (suc l) n)
  unfolding siblings_from
  All-siblings_from t key l zero = tt
  All-siblings_from t key l (suc n) = (
    ap length (sibling_hash-eq-node p t.db key l) ∙ length-read p law l _,
    All-siblings_from t key (suc l) n,
  )

  -- The siblings of the proofs that the tree gives have the length of a hash.
  pub get_proof-All :
      (t : StateTree) (address : String)
      → All (λ x. length x ≡ depth) (get_proof p address t).siblings
  unfolding get_proof
  get_proof-All t address = All-siblings_from t (address_to_key p address) 0 depth

-- An accepted proof of a state shows that the tree stores the bytes of the state for the address,
-- unless the hash is broken.
pub verify_proof_stored :
    (p : Primitives) (t : StateTree) (address : String) (s : AccountState) (proof : MerkleProof)
    → IsLawful p
    → IsConsistent p t
    → All (λ x. length x ≡ p.depth) proof.siblings
    → verify_proof p t.root address (some s) proof ≡ true
    → (lookup (leaf_value_key p (address_to_key p address)) t.db ≡ some (p.encode s))
      ⊎ Broken p (λ x. In x (inputs p address s proof)) t
unfolding verify_proof
verify_proof_stored p t address s proof law c all accepted =
    let (count, rest) = &&-eq-true _ _ accepted in
    let (size, reached) = &&-eq-true _ _ rest in
    let n : length proof.path_bits ≡ p.depth = (==_iff _ _).0 size in
    let key = key_of p proof.path_bits in
    let hk : length key ≡ p.depth = length-key_of p proof.path_bits ∙ n in
    let path : path_from p key 1 (length proof.path_bits) ≡ proof.path_bits =
      subst (λ k. path_from p k 1 (length proof.path_bits) ≡ proof.path_bits) (append-nil key)
        (path_from-key_of p proof.path_bits [] 0 (omega (arith, n))) in
    let whole : p.depth ≡ 0 + p.depth = omega arith in
    let Given : Bytes → Type 0 = λ x. In x (inputs p address s proof) in
    let given : All Given (inputs p address s proof) = All-In (inputs p address s proof) in
    elim (descend p law Given t key 0 p.depth proof.path_bits proof.siblings
      (start_hash p address (some s)) c hk (omega arith) ((==_iff _ _).0 count) all
      (length-start_hash p law address s) given.1
      (subst (λ m. path_from p key 1 m ≡ proof.path_bits) n path)
      ((same_iff _ _).0 reached ∙ sym (c.top key hk) ∙ ap (node p t.db key) whole)) [
        | inr broken ↦ inr broken
        | inl here ↦ leaf_is p law Given t address s key c hk here given.0
      ]

-- With a lawful hash, in a Merkle tree, a proof whose siblings have the length of a hash and that is
-- accepted for an address and a state, which its serialisation gives back, shows that the tree holds
-- this state for the address, whatever path the proof claims, unless an input hashed in the
-- verification has the hash of a different input hashed in the tree, or the hash that stands for an
-- empty leaf.
pub verify_proof_sound :
    (p : Primitives) (t : StateTree) (address : String) (s : AccountState) (proof : MerkleProof)
    → IsLawful p
    → p.decode (p.encode s) ≡ some s
    → IsConsistent p t
    → All (λ x. length x ≡ p.depth) proof.siblings
    → verify_proof p t.root address (some s) proof ≡ true
    → (get p address t ≡ some s) ⊎ Broken p (λ x. In x (inputs p address s proof)) t
verify_proof_sound p t address s proof law restored c all accepted =
    elim (verify_proof_stored p t address s proof law c all accepted) [
      | inr broken ↦ inr broken
      | inl stored ↦ inl (get-stored p law t address (p.encode s) stored ∙ restored)
    ]
