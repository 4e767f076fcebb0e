-- ===== src/Transaction/Forgery.antt =====
-- What others can change in a signed transaction of protocol/src/transaction without its key.
use mathlib.Core.List.{append_assoc}
use nova_protocol.Common.{String, ◌∷◌, ℕ, ◌≡◌, refl, sym, ap, ◌∙◌, none, arith, ◌++◌}
use nova_protocol.Common.Exec.{ok}
use nova_protocol.Identity
use nova_protocol.Transaction.{
  text, Transaction, Currency, ticker, Primitives, signable_bytes, compute_id, tagged, with_proof,
  with_commitment,
}
use nova_protocol.Transaction.Bytes.{Octets}
use nova_protocol.Transaction.Checks.{HasBody, IsSigned, verify_transaction_lem}
use nova_protocol.Transaction.Verification.{verify_transaction}

abbrev pub in_currency : Currency → Transaction → Transaction
in_currency c tx = record tx { amount = record { value = tx.amount.value; currency = c } }

abbrev pub between : String → String → Transaction → Transaction
between s r tx = record tx { sender = s; receiver = r }

module _ (p : Primitives) where
  same_bytes :
      (tx : Transaction) (c : Currency)
      → ticker c ≡ ticker tx.amount.currency
      → signable_bytes p (in_currency c tx) ≡ signable_bytes p tx
  unfolding signable_bytes
  same_bytes tx c e = simp (e)

  same_compute_id :
      (tx : Transaction) (c : Currency)
      → ticker c ≡ ticker tx.amount.currency
      → compute_id p (in_currency c tx) ≡ compute_id p tx
  unfolding compute_id
  same_compute_id tx c e =
      ap
        (λ m.
          p.hex_encode
            (p.double_sha256 (m ++ (tagged p 2 tx.proof ++ tagged p 3 tx.amount_commitment))))
        (same_bytes tx c e)

  -- A signature stays good for what has the same sender, key and bytes to sign.
  keep-IsSigned :
      (tx ty : Transaction)
      → ty.sender ≡ tx.sender
      → ty.sender_public_key ≡ tx.sender_public_key
      → ty.signature ≡ tx.signature
      → signable_bytes p ty ≡ signable_bytes p tx
      → IsSigned p tx
      → IsSigned p ty
  keep-IsSigned tx ty a k g m (pk, signature, s) = (
    pk,
    signature,
    record {
      sig_hex = s.sig_hex;
      key_hex = s.key_hex;
      sender_id = s.sender_id;
      sig_given = g ∙ s.sig_given;
      sig_decoded = s.sig_decoded;
      sig_length = s.sig_length;
      address = ap (Identity.from_address p.identity) a ∙ s.address;
      key_given = k ∙ s.key_given;
      key_decoded = s.key_decoded;
      key_of_sender = s.key_of_sender ∙ sym a;
      signed = ap (λ m. p.identity.verify pk m signature) m ∙ s.signed;
    },
  )

  text_twice :
      (s r : String) (rest : Octets)
      → text p s (text p r rest) ≡ (p.utf8 s ++ 0 ∷ p.utf8 r) ++ 0 ∷ rest
  text_twice s r rest = sym (append_assoc (p.utf8 s) (0 ∷ p.utf8 r) (0 ∷ rest))

  -- The bytes to sign do not say where the sender ends and the receiver begins, if one of them has a
  -- zero byte: moving the border to another zero byte leaves them as they are.
  pub moved_border :
      (tx : Transaction) (s r s' r' : String)
      → p.utf8 s ++ 0 ∷ p.utf8 r ≡ p.utf8 s' ++ 0 ∷ p.utf8 r'
      → signable_bytes p (between s r tx) ≡ signable_bytes p (between s' r' tx)
  unfolding signable_bytes
  moved_border tx s r s' r' e = simp (text_twice, e)

  -- Two currencies of one ticker, such as `NOVA` and the custom currency of that name, cannot be
  -- told apart: with the one in place of the other, the id of the contents and the bytes that are
  -- signed are the same, and a transaction that is accepted stays accepted.
  pub same_ticker_forges :
      (now_ms : ℕ) (tx : Transaction) (c : Currency)
      → ticker c ≡ ticker tx.amount.currency
      → (signable_bytes p (in_currency c tx) ≡ signable_bytes p tx)
        × (compute_id p (in_currency c tx) ≡ compute_id p tx)
        × (verify_transaction p now_ms tx ≡ ok tt
            → verify_transaction p now_ms (in_currency c tx) ≡ ok tt)
  same_ticker_forges now_ms tx c e =
      let bytes = same_bytes tx c e in
      let id = same_compute_id tx c e in
      (
        bytes,
        id,
        λ accepted.
            let (h, s, q) = (verify_transaction_lem p now_ms tx).0 accepted in
            (verify_transaction_lem p now_ms (in_currency c tx)).1 (
              record {
                nonce_pos = h.nonce_pos;
                amount_pos = h.amount_pos;
                parties_differ = h.parties_differ;
                not_future = h.not_future;
                id_matches = h.id_matches ∙ sym id;
              },
              keep-IsSigned tx (in_currency c tx) refl refl refl bytes s,
              q,
            ),
      )

  with_proof-HasBody :
      (now_ms : ℕ) (tx : Transaction) (proof commitment : Octets)
      → HasBody p now_ms tx
      → HasBody p now_ms (with_proof p proof tx)
        × HasBody p now_ms (with_commitment p commitment tx)
  unfolding with_proof with_commitment compute_id signable_bytes
  with_proof-HasBody now_ms tx proof commitment h = (
    record {
      nonce_pos = h.nonce_pos;
      amount_pos = h.amount_pos;
      parties_differ = h.parties_differ;
      not_future = h.not_future;
      id_matches = refl;
    },
    record {
      nonce_pos = h.nonce_pos;
      amount_pos = h.amount_pos;
      parties_differ = h.parties_differ;
      not_future = h.not_future;
      id_matches = refl;
    },
  )

  -- An accepted transaction stays accepted when its proof is exchanged for any other that has the
  -- right form, or its commitment for any other: no signature covers them, and the signed bytes are
  -- the same.
  pub with_proof_lem :
      (now_ms : ℕ) (tx : Transaction) (proof commitment : Octets)
      → verify_transaction p now_ms tx ≡ ok tt
      → p.proof_fault proof ≡ none
      → (signable_bytes p (with_proof p proof tx) ≡ signable_bytes p tx)
        × (signable_bytes p (with_commitment p commitment tx) ≡ signable_bytes p tx)
        × (verify_transaction p now_ms (with_proof p proof tx) ≡ ok tt)
        × (verify_transaction p now_ms (with_commitment p commitment tx) ≡ ok tt)
  unfolding with_proof with_commitment signable_bytes
  with_proof_lem now_ms tx proof commitment accepted sound =
      let (h, s, (given, formed)) = (verify_transaction_lem p now_ms tx).0 accepted in
      let (h₁, h₂) = with_proof-HasBody now_ms tx proof commitment h in
      (
        refl,
        refl,
        (verify_transaction_lem p now_ms (with_proof p proof tx)).1 (
          h₁,
          keep-IsSigned tx (with_proof p proof tx) refl refl refl refl s,
          (λ c. ((proof, refl), (given c).1), λ q e. ground (arith, sound)),
        ),
        (verify_transaction_lem p now_ms (with_commitment p commitment tx)).1 (
          h₂,
          keep-IsSigned tx (with_commitment p commitment tx) refl refl refl refl s,
          (λ c. ((given c).0, (commitment, refl)), formed),
        ),
      )
