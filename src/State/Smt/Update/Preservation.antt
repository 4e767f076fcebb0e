-- ===== src/State/Smt/Update/Preservation.antt =====
-- A `put` of protocol/src/storage/state.rs keeps every equation between a node and its children.
use nova_protocol.Common.{
  ℕ, suc, ◌+◌, ◌-◌, ◌<◌, ◌≡◌, ◌≢◌, ◌⊎◌, refl, sym, ap, inl, inr, Bool, true, false, not, String,
  arith, length, take, flip, get_or, ◌=?◌, same_iff, bits_key, tagged_key, Bool-cases, ◌∙◌,
}
use nova_protocol.Common.Dict.{lookup}
use nova_protocol.State.{AccountState}
use nova_protocol.State.Smt.{
  Primitives, IsLawful, Bytes, StateTree, address_to_key, leaf_value_key, get_bit, bit_at_level,
  parent_hash, combine_hashes, sibling_hash, put,
}
use nova_protocol.State.Smt.Bits.{
  length-flip, take-flip, get_or-flip, take_extend, take_shorten, get_or_of_take, take-length,
  storage_key_of_take,
}
use nova_protocol.State.Smt.Consistency.{read, node, leaf_of, IsConsistent, sibling_hash-eq-node}
use nova_protocol.State.Smt.Update.{
  path_hash, written, node-on, node-off, written-value, written-other_value, walk-root,
}

pub dec_bits : (x y : Bytes) → Dec (x ≡ y)
dec_bits x y = elim (Bool-cases (x =? y)) [
  | inl e ↦ yes ((same_iff x y).0 e)
  | inr e ↦ no (λ h. ground (arith, same_iff x y, h))
]

parent_hash_swap :
    (p : Primitives) (b : Bool) (x y : Bytes) → parent_hash p (not b) x y ≡ parent_hash p b y x
unfolding parent_hash combine_hashes
parent_hash_swap p true x y = refl
parent_hash_swap p false x y = refl

same_or_other : (a b : Bool) → (a ≡ b) ⊎ (a ≡ not b)
same_or_other a b = ground arith

module _ (p : Primitives) (law : IsLawful p) (t : StateTree) (key : Bytes) (value : Bytes)
    (c : IsConsistent p t) (key_length : length key ≡ p.depth) where
  open p use {depth}

  abbrev after : StateTree
  after = written p law t.db key value

  -- One node of the path and its children; `m` is the place of the bit that tells these apart.
  module _ (k : Bytes) (k_length : length k ≡ p.depth) (l m : ℕ) (below : l < p.depth)
      (place : p.depth - suc l ≡ m) (place' : p.depth - l ≡ suc m) where
    on_below :
        (j : Bytes)
        → take (suc m) j ≡ take (suc m) key
        → node p after.db j l ≡ path_hash p law t.db key value l
    on_below j e = node-on p law t.db key value j l (omega arith) (rw place' e)

    off_below :
        (j : Bytes) → take (suc m) j ≢ take (suc m) key → node p after.db j l ≡ node p t.db j l
    off_below j ne = node-off p law t.db key value j l (omega arith) (rw place' ne)

    on_above :
        take m k ≡ take m key → node p after.db k (suc l) ≡ path_hash p law t.db key value (suc l)
    on_above e = node-on p law t.db key value k (suc l) below (rw place e)

    off_above : take m k ≢ take m key → node p after.db k (suc l) ≡ node p t.db k (suc l)
    off_above ne = node-off p law t.db key value k (suc l) below (rw place ne)

    inside : (j : Bytes) → length j ≡ depth → m < length j
    inside j h = omega arith

    old_parent :
        node p t.db k (suc l)
        ≡ parent_hash p (get_or k m false) (node p t.db (flip k m) l) (node p t.db k l)
    unfolding bit_at_level get_bit
    old_parent = rw (c.parents k l k_length below, sibling_hash-eq-node p t.db k l, place) refl

    new_parent :
        path_hash p law t.db key value (suc l)
        ≡ parent_hash p
            (get_or key m false)
            (node p t.db (flip key m) l)
            (path_hash p law t.db key value l)
    unfolding path_hash bit_at_level get_bit
    new_parent = rw (sibling_hash-eq-node p t.db key l, place) refl

    -- Two keys that share the bits up to the place name one node below it.
    same_node : (i j : Bytes) → take (suc m) i ≡ take (suc m) j → node p t.db i l ≡ node p t.db j l
    same_node i j e = ap (λ s. read p l (lookup s t.db)) (storage_key_of_take p i j l (rw place' e))

    off_path :
        take m k ≢ take m key
        → node p after.db k (suc l)
          ≡ parent_hash p (get_or k m false) (node p after.db (flip k m) l) (node p after.db k l)
    off_path ne = cc (
      off_above ne,
      off_below k (λ h. ne (take_shorten k key m h)),
      off_below (flip k m) (λ h. ne (sym (take-flip k m) ∙ take_shorten (flip k m) key m h)),
      old_parent,
    )

    same_side :
        take m k ≡ take m key
        → get_or k m false ≡ get_or key m false
        → node p after.db k (suc l)
          ≡ parent_hash p (get_or k m false) (node p after.db (flip k m) l) (node p after.db k l)
    same_side e b =
        let in_k = inside k k_length in
        let in_key = inside key key_length in
        let in_flip = inside (flip k m) (length-flip k m ∙ k_length) in
        let in_flip' = inside (flip key m) (length-flip key m ∙ key_length) in
        let flipped = get_or-flip k m in_k in
        let flipped' = get_or-flip key m in_key in
        cc (
          on_above e,
          new_parent,
          on_below k (take_extend k key m in_k in_key e b),
          off_below (flip k m)
              (λ h. ground (arith, flipped, get_or_of_take (flip k m) key m in_flip in_key h)),
          same_node (flip k m) (flip key m) (
              take_extend (flip k m) (flip key m) m in_flip in_flip'
                (take-flip k m ∙ e ∙ sym (take-flip key m)) (cc)),
        )

    other_side :
        take m k ≡ take m key
        → get_or k m false ≡ not (get_or key m false)
        → node p after.db k (suc l)
          ≡ parent_hash p (get_or k m false) (node p after.db (flip k m) l) (node p after.db k l)
    other_side e b =
        let in_k = inside k k_length in
        let in_key = inside key key_length in
        let in_flip = inside (flip k m) (length-flip k m ∙ k_length) in
        let in_flip' = inside (flip key m) (length-flip key m ∙ key_length) in
        let flipped = get_or-flip k m in_k in
        let flipped' = get_or-flip key m in_key in
        cc (
          on_above e,
          new_parent,
          off_below k (λ h. ground (arith, get_or_of_take k key m in_k in_key h)),
          on_below (flip k m)
              (take_extend (flip k m) key m in_flip in_key (take-flip k m ∙ e) (ground arith)),
          same_node k (flip key m) (
              take_extend k (flip key m) m in_k in_flip' (e ∙ sym (take-flip key m))
                (ground arith)),
          parent_hash_swap p (get_or key m false) (path_hash p law t.db key value l)
              (node p t.db (flip key m) l),
        )

    parent :
        node p after.db k (suc l)
        ≡ parent_hash p (get_or k m false) (node p after.db (flip k m) l) (node p after.db k l)
    parent = elim (dec_bits (take m k) (take m key)) [
      | no ne ↦ off_path ne
      | yes e ↦ elim (same_or_other (get_or k m false) (get_or key m false)) [
        | inl same ↦ same_side e same
        | inr other ↦ other_side e other
      ]
    ]

  after_top : (k : Bytes) → length k ≡ depth → node p after.db k depth ≡ after.root
  after_top k h =
      let none_left : depth - depth ≡ 0 = omega arith in
      node-on p law t.db key value k depth (omega arith) (rw none_left refl)
      ∙ sym (
          walk-root p law t.db key value 0 depth _
          ∙ (let e : 0 + depth ≡ depth = omega arith in rw e refl))

  after_leaf :
      (k : Bytes)
      → length k ≡ depth
      → node p after.db k 0 ≡ leaf_of p k (lookup (leaf_value_key p k) after.db)
  unfolding path_hash
  after_leaf k h = elim (dec_bits k key) [
    | yes e ↦ rw e (
        node-on p law t.db key value key 0 (omega arith) refl
        ∙ sym (ap (leaf_of p key) (written-value p law t.db key value)))
    | no ne ↦
        node-off p law t.db key value k 0 (omega arith)
          (λ e. ne (sym (whole k h) ∙ e ∙ whole key key_length))
        ∙ c.leaves k h
        ∙ sym (ap (leaf_of p k) (written-other_value p law t.db key value k ne))
  ]
    where
      whole : (j : Bytes) → length j ≡ depth → take (depth - 0) j ≡ j
      whole j hj = let e : depth - 0 ≡ length j = omega arith in rw e (take-length j)

  after_parents :
      (k : Bytes) (l : ℕ)
      → length k ≡ depth
      → l < depth
      → node p after.db k (suc l)
        ≡ parent_hash p
            (bit_at_level p k (suc l))
            (sibling_hash p after.db k (suc l))
            (node p after.db k l)
  unfolding bit_at_level get_bit
  after_parents k l h below =
      rw (sibling_hash-eq-node p after.db k l)
        (parent k h l (depth - suc l) below refl (omega arith))

-- With a lawful hash, writing an account into a Merkle tree gives a Merkle tree.
pub put-IsConsistent :
    (p : Primitives) (address : String) (s : AccountState) (t : StateTree)
    → IsLawful p
    → IsConsistent p t
    → IsConsistent p (put p address s t)
unfolding put path_hash address_to_key
put-IsConsistent p address s t law c =
    let key = address_to_key p address in
    let value = p.encode s in
    let h = law.hash_length (p.utf8 address) in
    record {
      parents = after_parents p law t key value c h;
      top = after_top p law t key value c h;
      leaves = after_leaf p law t key value c h;
      stored = λ k. elim (dec_bits k key) [
        | yes e ↦ inr (s, rw e (written-value p law t.db key value))
        | no ne ↦ rw (written-other_value p law t.db key value k ne) (c.stored k)
      ];
    }
