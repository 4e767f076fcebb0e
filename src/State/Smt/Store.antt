-- ===== src/State/Smt/Store.antt =====
-- The tree of protocol/src/storage/state.rs as the store that transfers use, and its histories.
use nova_protocol.Common.{
  ◌≢◌, ◌⊎◌, ◌∙◌, refl, false, Option, All, bits_key, ◌≡◌, inl, inr, true, String, some, List, [],
  ◌∷◌, arith, In, ◌=?◌, same_iff, string_key, tagged_key, Bool-cases, if◌then◌else◌,
}
use nova_protocol.State.{SameAccount, AccountState, AccountStore}
use nova_protocol.State.Smt.{
  Primitives, IsLawful, StateTree, address_to_key, get, put, new, get_proof, verify_proof, Bytes,
  MerkleProof, from_root, default_hash, leaf_value_key, fold_proof, start_hash,
}
use nova_protocol.Common.Dict.{lookup}
use nova_protocol.State.Smt.Update.Reading.{put-ReadsBackAt}
use nova_protocol.State.Smt.Descent.{Broken, inputs, get-stored}
use nova_protocol.State.Smt.Inclusion.{get_proof-All, verify_proof_stored}
use nova_protocol.State.Smt.Consistency.{IsConsistent, new-IsConsistent}
use nova_protocol.State.Smt.Update.Lookup.{get-put_self, get-put_ne}
use nova_protocol.State.Smt.Update.Preservation.{put-IsConsistent}
use nova_protocol.State.Smt.Proofs.{ReadsBack, ReadsBackAt, verify_proof-get_proof}

store-get-put :
    (p : Primitives) (accounts : List String)
    → IsLawful p
    → ((a b : String)
        → In a accounts
        → In b accounts
        → address_to_key p a ≡ address_to_key p b
        → a ≡ b)
    → (a b : String) (s : AccountState) (t : StateTree) → In a accounts
    → In b accounts
    → (s' : AccountState) × (get p b (put p a s t) ≡ (if b =? a then some s' else get p b t))
      × SameAccount s s'
store-get-put p accounts law distinct a b s t ka kb =
    let (s', read, same) = law.decode-encode s in
    elim (Bool-cases (b =? a)) [
      | inl e ↦ (s', rw (e, (same_iff b a).0 e) (get-put_self p a s t law ∙ read), same)
      | inr e ↦ (
        s',
        rw e (get-put_ne p a b s t law (λ h. ground (arith, same_iff b a, distinct b a kb ka h))),
        same,
      )
    ]

-- On addresses that no collision of the hash joins, the tree is a store of accounts.
pub account_store :
    (p : Primitives) (accounts : List String)
    → IsLawful p
    → ((a b : String)
        → In a accounts
        → In b accounts
        → address_to_key p a ≡ address_to_key p b
        → a ≡ b)
    → AccountStore
account_store p accounts law distinct = record {
  Tree = StateTree;
  get = get p;
  put = put p;
  Known = λ a. In a accounts;
  get-put = store-get-put p accounts law distinct;
}

-- The trees that `new` and any sequence of writes give.
unfoldable pub write_all : (p : Primitives) → List (String × AccountState) → StateTree → StateTree
write_all p [] t = t
write_all p ((address, s) ∷ ws) t = write_all p ws (put p address s t)

write_all-IsConsistent :
    (p : Primitives) (ws : List (String × AccountState)) (t : StateTree)
    → IsLawful p
    → IsConsistent p t
    → IsConsistent p (write_all p ws t)
unfolding write_all
write_all-IsConsistent p [] t law c = c
write_all-IsConsistent p ((address, s) ∷ ws) t law c =
    write_all-IsConsistent p ws (put p address s t) law (put-IsConsistent p address s t law c)

write_all-ReadsBackAt :
    (p : Primitives) (ws : List (String × AccountState)) (t : StateTree) (key : Bytes)
    → IsLawful p
    → All (λ w. ReadsBack p (p.encode w.1)) ws
    → ReadsBackAt p key t
    → ReadsBackAt p key (write_all p ws t)
unfolding write_all
write_all-ReadsBackAt p [] t key law all h = h
write_all-ReadsBackAt p ((address, s) ∷ ws) t key law all h =
    write_all-ReadsBackAt p ws (put p address s t) key law all.1
      (put-ReadsBackAt p address s t key law all.0 h)

pub new-ReadsBackAt : (p : Primitives) (key : Bytes) → ReadsBackAt p key (new p [])
unfolding new lookup
new-ReadsBackAt p key bytes e = absurd (ground (arith, e))

-- A proof is not accepted for two roots.
one_root :
    (p : Primitives) (root other : Bytes) (address : String) (value : Option AccountState)
    (proof : MerkleProof)
    → verify_proof p root address value proof ≡ true
    → root ≢ other
    → verify_proof p other address value proof ≡ false
unfolding verify_proof
one_root p root other address value proof accepted differ = ground (
  arith,
  same_iff (fold_proof p proof.path_bits proof.siblings (start_hash p address value)) root,
  same_iff (fold_proof p proof.path_bits proof.siblings (start_hash p address value)) other,
)

-- With a lawful hash, after any writes into a new tree on an empty database, of states that are read
-- back and then written again as the same bytes, the proof that `get_proof` gives for an address
-- verifies against the root, with exactly the state that `get` gives, also where there is none. A
-- tree that `from_root` makes on the same database with this root gives the same account and accepts
-- the proof; one that `new` makes there gives the same account, but its proof is refused by its root,
-- unless the root is still that of an empty tree.
pub proofs_verify :
    (p : Primitives) (ws : List (String × AccountState)) (address : String)
    → IsLawful p
    → All (λ w. ReadsBack p (p.encode w.1)) ws
    → let t = write_all p ws (new p []) in
      let resumed = from_root p t.db t.root in
      let reopened = new p t.db in
      (verify_proof p t.root address (get p address t) (get_proof p address t) ≡ true)
      × (get p address resumed ≡ get p address t)
      × (verify_proof p resumed.root address (get p address resumed) (get_proof p address resumed)
          ≡ true)
      × (get p address reopened ≡ get p address t)
      × (t.root ≢ default_hash p p.depth
          → verify_proof p reopened.root address
              (get p address reopened)
              (get_proof p address reopened)
            ≡ false)
unfolding new from_root get get_proof
proofs_verify p ws address law all =
    let t = write_all p ws (new p []) in
    let good =
      verify_proof-get_proof p address t law
        (write_all-IsConsistent p ws (new p []) law (new-IsConsistent p))
        (write_all-ReadsBackAt p ws (new p []) (address_to_key p address) law all
          (new-ReadsBackAt p (address_to_key p address))) in
    (
      good,
      refl,
      good,
      refl,
      λ differ.
          one_root p t.root (default_hash p p.depth) address (get p address t)
            (get_proof p address t) good differ,
    )

-- Where what is read back is written as other bytes, as a map of commitments in another order is,
-- the proof of `get_proof` is refused with the state that `get` gives, unless the hash is broken by
-- what the proof and the tree hash.
pub reserialised_refused :
    (p : Primitives) (t : StateTree) (address : String) (s s' : AccountState)
    → IsLawful p
    → IsConsistent p t
    → lookup (leaf_value_key p (address_to_key p address)) t.db ≡ some (p.encode s)
    → p.decode (p.encode s) ≡ some s'
    → p.encode s' ≢ p.encode s
    → (verify_proof p t.root address (get p address t) (get_proof p address t) ≡ false)
      ⊎ Broken p (λ x. In x (inputs p address s' (get_proof p address t))) t
reserialised_refused p t address s s' law c stored read differ =
    elim (Bool-cases (verify_proof p t.root address (some s') (get_proof p address t))) [
      | inr refused ↦ inl (rw (get-stored p law t address (p.encode s) stored ∙ read) refused)
      | inl accepted ↦
          elim (verify_proof_stored p t address s' (get_proof p address t) law c
            (get_proof-All p law t address) accepted) [
              | inr broken ↦ inr broken
              | inl other ↦ absurd (ground (arith, other, stored, differ))
            ]
    ]
