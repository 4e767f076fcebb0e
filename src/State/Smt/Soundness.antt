-- ===== src/State/Smt/Soundness.antt =====
-- What a proof accepted by `verify_proof` of protocol/src/storage/state.rs shows, and what not.
use nova_protocol.Common.{
  arith, ◌≡◌, sym, ◌∙◌, inl, inr, some, true, String, none, bits_key, tagged_key,
}
use nova_protocol.State.{AccountState}
use nova_protocol.State.Smt.{
  Primitives, IsLawful, StateTree, address_to_key, start_hash, get, get_proof, verify_proof,
}
use nova_protocol.State.Smt.Consistency.{IsConsistent}
use nova_protocol.State.Smt.Descent.{get-stored}
use nova_protocol.State.Smt.Proofs.{ReadsBackAt, verify_proof-get_proof}

clash : (s : AccountState) → none ≡ some s → ⊥
clash s e = ground (arith, e)

-- With a lawful hash, and a serialisation of which some state is read back, in a Merkle tree the
-- absence of any address is accepted with the proof of an address that is absent: the path that a
-- proof claims is not compared with the address.
pub absence_forgeable :
    (p : Primitives) (present absent : String) (t : StateTree)
    → IsLawful p
    → IsConsistent p t
    → get p absent t ≡ none
    → verify_proof p t.root present none (get_proof p absent t) ≡ true
unfolding verify_proof start_hash
absence_forgeable p present absent t law c e =
    let none_stored : ReadsBackAt p (address_to_key p absent) t = λ bytes stored.
      elim (c.stored (address_to_key p absent)) [
        | inl empty ↦ absurd (cc)
        | inr (s, found) ↦
            let (s', read, _) = law.decode-encode s in
            absurd (clash s' (sym e ∙ get-stored p law t absent (p.encode s) found ∙ read))
      ] in
    rw e at (verify_proof-get_proof p absent t law c none_stored)
