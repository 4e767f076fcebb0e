-- ===== src/Transaction/Checks.antt =====
-- Which transactions protocol/src/transaction/verification.rs accepts.
use nova_protocol.Common.{
  ℕ, ◌+◌, ◌≤◌, ◌<◌, ◌≡◌, ◌≢◌, ◌↔◌, refl, sym, ap, ◌∙◌, inl, inr, String, true, none, some, arith,
  same_iff, string_key, length, wrap64, Option-cases,
}
use nova_protocol.Common.Exec.{Result-cases, ok}
use nova_protocol.Identity
use nova_protocol.Identity.{NovaId, NovaIdError}
use nova_protocol.Identity.Addresses.{from_address-to_address}
use nova_protocol.Transaction.{
  Transaction, confidential_transfer, Primitives, signable_bytes, compute_id,
}
use nova_protocol.Transaction.Bytes.{Octets}
use nova_protocol.Transaction.Builder.{TransactionBuilder, build}
use nova_protocol.Transaction.Verification.{
  Keypair, check_body, check_signature, check_proof, verify_transaction, sign_transaction,
}

module _ (p : Primitives) where
  pub record HasBody (now_ms : ℕ) (tx : Transaction) : Type 0 where
    pub nonce_pos : 0 < tx.nonce
    pub amount_pos : 0 < tx.amount.value
    pub parties_differ : tx.sender ≢ tx.receiver
    pub not_future : tx.timestamp ≤ wrap64 (now_ms + 300000)
    pub id_matches : tx.id ≡ compute_id p tx

  -- `pk` and `signature` are what the fields of the transaction decode to.
  pub record SignedBy (tx : Transaction) (pk signature : Octets) : Type 0 where
    pub sig_hex : String
    pub key_hex : String
    pub sender_id : NovaId
    pub sig_given : tx.signature ≡ some sig_hex
    pub sig_decoded : p.hex_decode sig_hex ≡ some signature
    pub sig_length : length signature ≡ 64
    pub address : Identity.from_address p.identity tx.sender ≡ ok sender_id
    pub key_given : tx.sender_public_key ≡ some key_hex
    pub key_decoded : p.key_from_hex key_hex ≡ some pk
    pub key_of_sender :
        Identity.to_address p.identity (Identity.from_public_key p.identity pk) ≡ tx.sender
    pub signed : p.identity.verify pk (signable_bytes p tx) signature ≡ true

  abbrev pub IsSigned : Transaction → Type 0
  IsSigned tx = (pk : Octets) × (signature : Octets) × SignedBy tx pk signature

  -- A proof that is attached is well formed, and a confidential transfer has one, with a commitment.
  abbrev pub HasProofs : Transaction → Type 0
  HasProofs tx =
      (tx.tx_type ≡ confidential_transfer
        → ((proof : Octets) × (tx.proof ≡ some proof))
          × ((commitment : Octets) × (tx.amount_commitment ≡ some commitment)))
      × ((proof : Octets) → tx.proof ≡ some proof → p.proof_fault proof ≡ none)

  pub check_body_lem :
      (now_ms : ℕ) (tx : Transaction) → (check_body p now_ms tx ≡ ok tt) ↔ HasBody now_ms tx
  unfolding check_body
  check_body_lem now_ms tx =
      ground (arith, same_iff tx.sender tx.receiver, same_iff tx.id (compute_id p tx))

  signature-SignedBy : (tx : Transaction) → check_signature p tx ≡ ok tt → IsSigned tx
  unfolding check_signature
  signature-SignedBy tx e = elim (Option-cases tx.signature) [
    | inl q ↦ absurd (ground (arith, q))
    | inr (sig_hex, q₁) ↦ elim (Option-cases (p.hex_decode sig_hex)) [
      | inl q ↦ absurd (ground (arith, q, q₁))
      | inr (signature, q₂) ↦ elim (Option-cases tx.sender_public_key) [
        | inl q ↦ absurd (ground (arith, q, q₁, q₂))
        | inr (key_hex, q₃) ↦ elim (Option-cases (p.key_from_hex key_hex)) [
          | inl q ↦ absurd (ground (arith, q, q₁, q₂, q₃))
          | inr (pk, q₄) ↦ elim (Result-cases (Identity.from_address p.identity tx.sender)) [
            | inr q ↦ absurd (ground (arith, q, q₁, q₂, q₃, q₄))
            | inl (id, q₅) ↦ (
              pk,
              signature,
              record {
                sig_hex = sig_hex;
                key_hex = key_hex;
                sender_id = id;
                sig_given = q₁;
                sig_decoded = q₂;
                sig_length = ground (arith, q₁, q₂, q₃, q₄, q₅);
                address = q₅;
                key_given = q₃;
                key_decoded = q₄;
                key_of_sender = ground (
                  arith,
                  q₁,
                  q₂,
                  q₃,
                  q₄,
                  q₅,
                  same_iff (Identity.to_address p.identity (Identity.from_public_key p.identity pk))
                      tx.sender,
                );
                signed = ground (arith, q₁, q₂, q₃, q₄, q₅);
              },
            )
          ]
        ]
      ]
    ]
  ]

  SignedBy-signature :
      (tx : Transaction) (pk signature : Octets)
      → SignedBy tx pk signature
      → check_signature p tx ≡ ok tt
  unfolding check_signature
  SignedBy-signature tx pk signature h = ground (
    arith,
    h,
    same_iff (Identity.to_address p.identity (Identity.from_public_key p.identity pk)) tx.sender,
  )

  pub check_proof_lem : (tx : Transaction) → (check_proof p tx ≡ ok tt) ↔ HasProofs tx
  unfolding check_proof
  check_proof_lem tx = (go₁, go₂)
    where
      go₁ : check_proof p tx ≡ ok tt → HasProofs tx
      go₁ e = (λ c. ground arith, λ proof q. ground arith)

      go₂ : HasProofs tx → check_proof p tx ≡ ok tt
      go₂ (c, f) = elim (Option-cases tx.proof) [
        | inl q ↦ ground (arith, q)
        | inr (proof, q) ↦ ground (arith, q, f proof q)
      ]

  -- The first error of the checks in order is that of the whole.
  verify_transaction-checks :
      (now_ms : ℕ) (tx : Transaction)
      → (verify_transaction p now_ms tx ≡ ok tt) ↔ (
          (check_body p now_ms tx ≡ ok tt)
          × (check_signature p tx ≡ ok tt)
          × (check_proof p tx ≡ ok tt))
  unfolding verify_transaction
  verify_transaction-checks now_ms tx = ground arith

  -- A transaction is accepted exactly when it has a positive nonce and amount, two different parties,
  -- a timestamp at most five minutes ahead and the id of its contents, when it is signed, with a key
  -- that hashes to the address of the sender, and when its proofs are those that its type requires,
  -- and well formed.
  pub verify_transaction_lem :
      (now_ms : ℕ) (tx : Transaction)
      → (verify_transaction p now_ms tx ≡ ok tt) ↔ (HasBody now_ms tx × IsSigned tx × HasProofs tx)
  verify_transaction_lem now_ms tx =
      let (split, join) = verify_transaction-checks now_ms tx in
      let (body, body') = check_body_lem now_ms tx in
      let (proofs, proofs') = check_proof_lem tx in
      (
        λ e. let (a, b, c) = split e in (body a, signature-SignedBy tx b, proofs c),
        λ (a, (pk, signature, b), c).
            join (body' a, SignedBy-signature tx pk signature b, proofs' c),
      )

  -- What a key pair of the Ed25519 crate does, and the codecs on its key and signatures.
  pub record IsKeypair (keypair : Keypair) : Type 0 where
    pub verify-sign : (m : Octets) → p.identity.verify keypair.public_key m (keypair.sign m) ≡ true
    pub length-sign : (m : Octets) → length (keypair.sign m) ≡ 64
    pub decode-encode :
        (m : Octets) → p.hex_decode (p.hex_encode (keypair.sign m)) ≡ some (keypair.sign m)
    pub from-to : p.key_from_hex (p.key_to_hex keypair.public_key) ≡ some keypair.public_key

  module _ (keypair : Keypair) (then_ms : ℕ) (b : TransactionBuilder) where
    abbrev sent : Transaction
    sent = sign_transaction p keypair (build p then_ms b)

    -- Signing changes neither the bytes that are signed nor the id.
    sent-HasBody :
        (now_ms : ℕ)
        → 0 < b.nonce
        → 0 < b.amount.value
        → b.sender ≢ b.receiver
        → (build p then_ms b).timestamp ≤ wrap64 (now_ms + 300000)
        → HasBody now_ms sent
    unfolding build sign_transaction compute_id signable_bytes
    sent-HasBody now_ms n a d t = record {
      nonce_pos = n;
      amount_pos = a;
      parties_differ = d;
      not_future = t;
      id_matches = refl;
    }

    sent-SignedBy :
        IsKeypair keypair
        → Identity.IsLawful p.identity
        → b.sender
          ≡ Identity.to_address p.identity (Identity.from_public_key p.identity keypair.public_key)
        → SignedBy sent keypair.public_key (keypair.sign (signable_bytes p (build p then_ms b)))
    unfolding build sign_transaction signable_bytes
    sent-SignedBy k law own =
        let m = signable_bytes p (build p then_ms b) in
        record {
          sig_hex = p.hex_encode (keypair.sign m);
          key_hex = p.key_to_hex keypair.public_key;
          sender_id = record { key_hash = p.identity.blake3 keypair.public_key; public_key = none };
          sig_given = refl;
          sig_decoded = k.decode-encode m;
          sig_length = k.length-sign m;
          address =
              ap (Identity.from_address p.identity) own
              ∙ (from_address-to_address p.identity keypair.public_key law).0;
          key_given = refl;
          key_decoded = k.from-to;
          key_of_sender = sym own;
          signed = k.verify-sign m;
        }

    sent-HasProofs : b.tx_type ≢ confidential_transfer → HasProofs sent
    unfolding build sign_transaction
    sent-HasProofs t = (λ c. absurd (t c), λ proof q. cc)

  -- What a wallet builds and signs with the key of the sender is accepted, if nonce and amount are
  -- positive, the parties differ, the time is not ahead and the type is not the confidential one.
  pub verify_transaction-sign_transaction :
      (keypair : Keypair) (now_ms then_ms : ℕ) (b : TransactionBuilder)
      → IsKeypair keypair
      → Identity.IsLawful p.identity
      → b.sender
        ≡ Identity.to_address p.identity (Identity.from_public_key p.identity keypair.public_key)
      → 0 < b.nonce
      → 0 < b.amount.value
      → b.sender ≢ b.receiver
      → b.tx_type ≢ confidential_transfer
      → (build p then_ms b).timestamp ≤ wrap64 (now_ms + 300000)
      → verify_transaction p now_ms (sign_transaction p keypair (build p then_ms b)) ≡ ok tt
  verify_transaction-sign_transaction keypair now_ms then_ms b k law own n a d t early =
      (verify_transaction_lem now_ms (sent keypair then_ms b)).1 (
        sent-HasBody keypair then_ms b now_ms n a d early,
        (_, _, sent-SignedBy keypair then_ms b k law own),
        sent-HasProofs keypair then_ms b t,
      )
