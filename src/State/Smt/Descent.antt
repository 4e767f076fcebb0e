-- ===== src/State/Smt/Descent.antt =====
-- What the nodes on a path through the tree of protocol/src/storage/state.rs determine, from the root
-- down to the leaf.
use nova_protocol.Common.{
  ℕ, zero, suc, ◌+◌, ◌-◌, ◌<◌, ◌≡◌, ◌≢◌, ◌⊎◌, refl, sym, ap, inl, inr, ◌∙◌, Bool, true, false,
  String, Option, none, some, List, [], ◌∷◌, ◌++◌, arith, length, replicate, flip, All, ◌==◌,
  ==_iff, ◌=?◌, same_iff, bits_key, tagged_key, Bool-cases, if◌then◌else◌,
}
use nova_protocol.Common.Dict.{lookup}
use nova_protocol.State.{AccountState}
use nova_protocol.State.Smt.{
  Primitives, IsLawful, Bytes, StateTree, MerkleProof, address_to_key, default_hash, leaf_value_key,
  leaf_hash, bit_at_level, combine_hashes, parent_hash, sibling_hash, path_from, fold_proof,
  start_hash, get,
}
use nova_protocol.State.Smt.Bits.{append_split}
use nova_protocol.State.Smt.Consistency.{read, node, leaf_of, IsConsistent, sibling_hash-eq-node}

module _ (p : Primitives) where
  open p use {depth, blake3, encode, decode}

  -- What `parent_hash` hashes.
  abbrev joined : Bool → Bytes → Bytes → Bytes
  joined bit sibling x = if bit then sibling ++ x else x ++ sibling

  parent_hash-joined : (bit : Bool) (s x : Bytes) → parent_hash p bit s x ≡ blake3 (joined bit s x)
  unfolding parent_hash combine_hashes
  parent_hash-joined true s x = refl
  parent_hash-joined false s x = refl

  -- What the verification of a proof hashes, from the given hash up.
  abbrev pub inputs_from : List Bool → List Bytes → Bytes → List Bytes
  inputs_from (b ∷ bits) (s ∷ siblings) x =
      joined b s x ∷ inputs_from bits siblings (parent_hash p b s x)
  inputs_from _ _ x = []

  abbrev pub inputs : String → AccountState → MerkleProof → List Bytes
  inputs address s proof =
      (address_to_key p address ++ encode s)
      ∷ inputs_from proof.path_bits proof.siblings (start_hash p address (some s))

  -- What a tree has hashed: two children, and a key with its value.
  pub data Hashed (t : StateTree) : Bytes → Type 0 where
    pair :
        (key : Bytes) (l : ℕ)
        → length key ≡ depth
        → l < depth
        → Hashed t (
            joined
              (bit_at_level p key (suc l))
              (sibling_hash p t.db key (suc l))
              (node p t.db key l))
    leaf :
        (key bytes : Bytes)
        → length key ≡ depth
        → lookup (leaf_value_key p key) t.db ≡ some bytes
        → Hashed t (key ++ bytes)

  -- A hash that is broken by the inputs at hand: one of `Given` and another one that the tree hashed
  -- have one hash, or one of `Given` has the hash of the empty leaf.
  pub data Broken (Given : Bytes → Type 0) (t : StateTree) : Type 0 where
    collision : (x y : Bytes) → Given x → Hashed t y → x ≢ y → blake3 x ≡ blake3 y → Broken Given t
    preimage : (x : Bytes) → Given x → blake3 x ≡ default_hash p 0 → Broken Given t

  hash_inj :
      (Given : Bytes → Type 0) (t : StateTree) (x y : Bytes)
      → Given x
      → Hashed t y
      → blake3 x ≡ blake3 y
      → (x ≡ y) ⊎ Broken Given t
  hash_inj Given t x y g h e = elim (Bool-cases (x =? y)) [
    | inl same ↦ inl ((same_iff x y).0 same)
    | inr differ ↦ inr (collision x y g h (λ k. ground (arith, same_iff x y, k)) e)
  ]

  joined_inj :
      (bit : Bool) (s s' x x' : Bytes)
      → length s ≡ length s'
      → length x ≡ length x'
      → joined bit s x ≡ joined bit s' x'
      → x ≡ x'
  joined_inj true s s' x x' hs hx e = (append_split s x s' x' hs e).1
  joined_inj false s s' x x' hs hx e = (append_split x s x' s' hx e).0

  -- Hashes and the nodes that are read are all of one length.
  module _ (law : IsLawful p) where
    length-replicate : (n : ℕ) (b : Bool) → length (replicate n b) ≡ n
    length-replicate zero b = refl
    length-replicate (suc n) b = ap suc (length-replicate n b)

    length-default_hash : (level : ℕ) → length (default_hash p level) ≡ depth
    unfolding default_hash
    length-default_hash zero = length-replicate depth false
    length-default_hash (suc level) = law.hash_length (default_hash p level ++ default_hash p level)

    pub length-read : (level : ℕ) (o : Option Bytes) → length (read p level o) ≡ depth
    length-read level none = length-default_hash level
    length-read level (some bytes) = elim (Bool-cases (length bytes == depth)) [
      | inl e ↦ rw e ((==_iff (length bytes) depth).0 e)
      | inr e ↦ rw e (length-default_hash level)
    ]

    length-parent_hash : (bit : Bool) (s x : Bytes) → length (parent_hash p bit s x) ≡ depth
    unfolding parent_hash combine_hashes
    length-parent_hash true s x = law.hash_length (s ++ x)
    length-parent_hash false s x = law.hash_length (x ++ s)

    -- A fold of a proof that ends at a node of the tree begins at the node below on the path, unless
    -- the hash is broken.
    pub descend :
        (Given : Bytes → Type 0) (t : StateTree) (key : Bytes) (l n : ℕ) (bits : List Bool)
        (siblings : List Bytes) (x : Bytes)
        → IsConsistent p t
        → length key ≡ depth
        → l + n ≡ depth
        → length siblings ≡ n
        → All (λ s. length s ≡ depth) siblings
        → length x ≡ depth
        → All Given (inputs_from bits siblings x)
        → path_from p key (suc l) n ≡ bits
        → fold_proof p bits siblings x ≡ node p t.db key (l + n)
        → (x ≡ node p t.db key l) ⊎ Broken Given t
    unfolding path_from fold_proof
    descend Given t key l zero [] siblings x c hk hl hs all hx given path e =
        let same : l + 0 ≡ l = omega arith in inl (e ∙ ap (node p t.db key) same)
    descend Given t key l zero (b ∷ bits) siblings x c hk hl hs all hx given path e =
        absurd (ground arith)
    descend Given t key l (suc n) bits [] x c hk hl hs all hx given path e = absurd (omega arith)
    descend Given t key l (suc n) [] (s ∷ siblings) x c hk hl hs all hx given path e = absurd (cc)
    descend Given t key l (suc n) (b ∷ bits) (s ∷ siblings) x c hk hl hs all hx given path e =
        let up : l + suc n ≡ suc l + n = omega arith in
        let bit : bit_at_level p key (suc l) ≡ b = cc in
        let rest : path_from p key (suc (suc l)) n ≡ bits = cc in
        let sibling : sibling_hash p t.db key (suc l) ≡ node p t.db (flip key (depth - suc l)) l =
          sibling_hash-eq-node p t.db key l in
        elim (descend Given t key (suc l) n bits siblings (parent_hash p b s x) c hk (omega arith)
          (omega arith) all.1 (length-parent_hash b s x) given.1 rest
          (e ∙ ap (node p t.db key) up)) [
            | inr broken ↦ inr broken
            | inl here ↦
                let bit' = bit_at_level p key (suc l) in
                let sib = sibling_hash p t.db key (suc l) in
                let old = node p t.db key l in
                let hashes : blake3 (joined b s x) ≡ blake3 (joined bit' sib old) =
                  sym (parent_hash-joined b s x)
                  ∙ here
                  ∙ c.parents key l hk (omega arith)
                  ∙ parent_hash-joined bit' sib old in
                elim (hash_inj Given t (joined b s x) (joined bit' sib old) given.0
                  (pair key l hk (omega arith)) hashes) [
                    | inr broken ↦ inr broken
                    | inl same ↦ inl (
                        joined_inj b s sib x old (rw sibling (all.0 ∙ sym (length-read l _)))
                          (hx ∙ sym (length-read l _)) (same ∙ ap (λ q. joined q sib old) bit))
                  ]
          ]

    pub length-start_hash :
        (address : String) (s : AccountState) → length (start_hash p address (some s)) ≡ depth
    unfolding start_hash leaf_hash
    length-start_hash address s = law.hash_length (address_to_key p address ++ encode s)

    or_absent : Option Bytes → Option AccountState
    or_absent none = none
    or_absent (some bytes) = decode bytes

    pub get-stored :
        (t : StateTree) (address : String) (bytes : Bytes)
        → lookup (leaf_value_key p (address_to_key p address)) t.db ≡ some bytes
        → get p address t ≡ decode bytes
    unfolding get or_absent
    get-stored t address bytes e = ap or_absent e

    -- A leaf that hashes like the leaf of an account is stored for the account, with these bytes.
    pub leaf_is :
        (Given : Bytes → Type 0) (t : StateTree) (address : String) (s : AccountState) (key : Bytes)
        → IsConsistent p t
        → length key ≡ depth
        → start_hash p address (some s) ≡ node p t.db key 0
        → Given (address_to_key p address ++ encode s)
        → (lookup (leaf_value_key p (address_to_key p address)) t.db ≡ some (encode s))
          ⊎ Broken Given t
    unfolding start_hash leaf_hash address_to_key
    leaf_is Given t address s key c hk e g = elim (c.stored key) [
      | inl absent ↦ inr (
          preimage (address_to_key p address ++ encode s) g
            (e ∙ c.leaves key hk ∙ ap (leaf_of p key) absent))
      | inr (s', stored) ↦
          elim (hash_inj Given t (address_to_key p address ++ encode s) (key ++ encode s') g
            (leaf key (encode s') hk stored) (e ∙ c.leaves key hk ∙ ap (leaf_of p key) stored)) [
              | inr broken ↦ inr broken
              | inl same ↦
                  let (k, v) =
                    append_split (address_to_key p address) (encode s) key (encode s')
                      (law.hash_length (p.utf8 address) ∙ sym hk) same in
                  inl (ap (λ j. lookup (leaf_value_key p j) t.db) k ∙ stored ∙ ap some (sym v))
            ]
    ]
