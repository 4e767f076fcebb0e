-- ===== src/State/Smt/Update/Reading.antt =====
-- What `get` of protocol/src/storage/state.rs reads back, in the bytes in which it was written.
use mathlib.Core.Path.{subst}
use nova_protocol.Common.{◌≡◌, sym, ap, ◌∙◌, String, some, [], arith, tagged_key}
use nova_protocol.State.{AccountState, SameAccount}
use nova_protocol.State.Smt.{Primitives, IsLawful, Bytes, StateTree, address_to_key, put}
use nova_protocol.State.Smt.Proofs.{ReadsBack, ReadsBackAt}
use nova_protocol.State.Smt.Update.{path_hash, written-value, written-other_value}
use nova_protocol.State.Smt.Update.Preservation.{dec_bits}

-- After a write, what is stored under a key is still read back with the bytes that were written.
pub put-ReadsBackAt :
    (p : Primitives) (address : String) (s : AccountState) (t : StateTree) (key : Bytes)
    → IsLawful p
    → ReadsBack p (p.encode s)
    → ReadsBackAt p key t
    → ReadsBackAt p key (put p address s t)
unfolding put path_hash
put-ReadsBackAt p address s t key law one h bytes stored =
    elim (dec_bits key (address_to_key p address)) [
      | yes e ↦
          let here : p.encode s ≡ bytes =
            ground (
              arith,
              written-value p law t.db (address_to_key p address) (p.encode s),
              e,
              stored,
            ) in
          subst (ReadsBack p) here one
      | no ne ↦ h bytes (
          sym (written-other_value p law t.db (address_to_key p address) (p.encode s) key ne)
          ∙ stored)
    ]

SameAccount-eq : (s t : AccountState) → s.balance_commitments ≡ [] → SameAccount s t → t ≡ s
SameAccount-eq s t e same =
    let none_left : t.balance_commitments ≡ [] = ground (arith, same.same_size, e) in cc

-- A state without balance commitments, as all are that the program writes, is read back as it was
-- written.
pub decode-encode_plain :
    (p : Primitives) (s : AccountState)
    → IsLawful p
    → s.balance_commitments ≡ []
    → p.decode (p.encode s) ≡ some s
decode-encode_plain p s law e =
    let (s', read, same) = law.decode-encode s in read ∙ ap some (SameAccount-eq s s' e same)
