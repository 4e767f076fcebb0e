-- ===== src/State/Smt/Tests.antt =====
-- The theorems about the state tree of protocol/src/storage/state.rs, at a tree of depth 4 whose hash
-- turns the first four bits over.
use mathlib.Core.Path.{subst}
use nova_protocol.State.Smt.Proofs.{ReadsBack, verify_proof-get_proof}
use nova_protocol.State.Smt.Descent.{Broken, inputs}
use nova_protocol.State.Smt.Inclusion.{verify_proof_sound, get_proof-All}
use nova_protocol.Common.{
  map, get_or, not, length-map, List, ◌∷◌, String, In, ◌⊎◌, ℕ, zero, suc, ◌≡◌, ◌≢◌, refl, ap, ◌∙◌,
  true, false, Option, none, some, [], arith, ◌=?◌, string_key, length, if◌then◌else◌,
}
use nova_protocol.Common.Dict.{lookup, insert}
use nova_protocol.State.{AccountState, SameAccount-refl, with_balance}
use nova_protocol.State.Codec.{account_codec}
use nova_protocol.State.Smt.{
  Primitives, IsLawful, Bytes, StateTree, address_to_key, get, put, new, get_proof, verify_proof,
  default_hash, walk_up, siblings_from, sibling_hash, parent_hash, combine_hashes, leaf_hash,
  bit_at_level, get_bit, storage_key_for_node, storage_key_for_sibling, leaf_value_key,
}
use nova_protocol.State.Smt.Consistency.{IsConsistent, new-IsConsistent}
use nova_protocol.State.Smt.Update.Preservation.{put-IsConsistent}
use nova_protocol.State.Smt.Update.Lookup.{get-put_self, get-put_ne}
use nova_protocol.State.Smt.Soundness.{absence_forgeable}
use nova_protocol.State.Smt.Store.{write_all, new-ReadsBackAt, proofs_verify}
use nova_protocol.State.Smt.Update.Reading.{put-ReadsBackAt, decode-encode_plain}

abbrev fit : ℕ → Bytes → Bytes
fit zero x = []
fit (suc n) [] = false ∷ fit n []
fit (suc n) (b ∷ x) = b ∷ fit n x

length-fit : (n : ℕ) (x : Bytes) → length (fit n x) ≡ n
length-fit zero x = refl
length-fit (suc n) [] = ap suc (length-fit n [])
length-fit (suc n) (b ∷ x) = ap suc (length-fit n x)

abbrev first : Option (AccountState × Bytes) → Option AccountState
first none = none
first (some (s, _)) = some s

abbrev small : Primitives
small = record {
  depth = 4;
  blake3 = λ x. map not (fit 4 x);
  utf8 = λ a. if a =? "alice" then true ∷ true ∷ true ∷ true ∷ [] else false ∷ true ∷ [];
  encode = λ s. account_codec.write s [];
  decode = λ bits. first (account_codec.read bits);
}

small-IsLawful : IsLawful small
small-IsLawful = record {
  hash_length = λ x. length-map not (fit 4 x) ∙ length-fit 4 x;
  depth_small = omega arith;
  decode-encode = λ s. (s, ap first (account_codec.read-write s []), SameAccount-refl s);
}

restored : (n : ℕ) → small.decode (small.encode (with_balance n)) ≡ some (with_balance n)
restored n = decode-encode_plain small (with_balance n) small-IsLawful refl

reads_back : (n : ℕ) → ReadsBack small (small.encode (with_balance n))
reads_back n = (with_balance n, restored n, refl)

abbrev with_alice : StateTree
with_alice = put small "alice" (with_balance 30) (new small [])

with_alice-IsConsistent : IsConsistent small with_alice
with_alice-IsConsistent =
    put-IsConsistent small "alice" (with_balance 30) (new small []) small-IsLawful
      (new-IsConsistent small)

keys_differ : address_to_key small "bob" ≢ address_to_key small "alice"
unfolding address_to_key
keys_differ e = cc

bob_absent : get small "bob" with_alice ≡ none
unfolding get new lookup
bob_absent =
    get-put_ne small "alice" "bob" (with_balance 30) (new small []) small-IsLawful keys_differ
    ∙ refl

put-IsConsistent_example : IsConsistent small (put small "bob" (with_balance 7) with_alice)
put-IsConsistent_example =
    put-IsConsistent small "bob" (with_balance 7) with_alice small-IsLawful with_alice-IsConsistent

absence_forgeable_example :
    verify_proof small with_alice.root "alice" none (get_proof small "bob" with_alice) ≡ true
absence_forgeable_example =
    absence_forgeable small "alice" "bob" with_alice small-IsLawful with_alice-IsConsistent
      bob_absent

abbrev writes : List (String × AccountState)
writes = ("alice", with_balance 30) ∷ ("bob", with_balance 7) ∷ []

first_bit : get_or (write_all small writes (new small [])).root 0 false ≡ true
unfolding write_all put walk_up new default_hash siblings_from sibling_hash parent_hash
    combine_hashes leaf_hash address_to_key lookup insert bit_at_level get_bit storage_key_for_node
    storage_key_for_sibling leaf_value_key
first_bit = refl

root_differs : (write_all small writes (new small [])).root ≢ default_hash small 4
unfolding default_hash
root_differs e = ground (arith, first_bit, e)

proofs_verify_example :
    let reopened = new small (write_all small writes (new small [])).db in
    verify_proof small reopened.root "alice"
      (get small "alice" reopened)
      (get_proof small "alice" reopened)
    ≡ false
proofs_verify_example =
    (proofs_verify small writes "alice" small-IsLawful (reads_back 30, (reads_back 7, tt))).4
      root_differs

alice_proved :
    verify_proof small with_alice.root "alice"
      (some (with_balance 30))
      (get_proof small "alice" with_alice)
    ≡ true
alice_proved =
    subst
      (λ v.
        verify_proof small with_alice.root "alice" v (get_proof small "alice" with_alice) ≡ true)
      (get-put_self small "alice" (with_balance 30) (new small []) small-IsLawful ∙ restored 30)
      (verify_proof-get_proof small "alice" with_alice small-IsLawful with_alice-IsConsistent (
        put-ReadsBackAt small "alice" (with_balance 30) (new small [])
          (address_to_key small "alice") small-IsLawful (reads_back 30)
          (new-ReadsBackAt small (address_to_key small "alice"))))

verify_proof_sound_example :
    (get small "alice" with_alice ≡ some (with_balance 30))
    ⊎ Broken small
        (λ x. In x (inputs small "alice" (with_balance 30) (get_proof small "alice" with_alice)))
        with_alice
verify_proof_sound_example =
    verify_proof_sound small with_alice "alice" (with_balance 30)
      (get_proof small "alice" with_alice) small-IsLawful (restored 30) with_alice-IsConsistent
      (get_proof-All small small-IsLawful with_alice "alice") alice_proved
