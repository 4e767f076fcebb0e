-- ===== src/Transaction/Verification.antt =====
-- The checks of protocol/src/transaction/verification.rs and the signature of signing.rs. Of an
-- error the texts and the seconds for display are left out; `now_ms` is the value of `Utc::now()`.
use nova_protocol.Common.{
  ℕ, ◌+◌, String, Bool, true, false, not, ◌&&◌, Option, none, some, ltb, ◌==◌, ◌=?◌, string_key,
  length, wrap64, if◌then◌else◌,
}
use nova_protocol.Common.Exec.{Result, ok, err, panic}
use nova_protocol.Identity
use nova_protocol.Identity.{NovaId}
use nova_protocol.Transaction.{
  Transaction, TransactionType, confidential_transfer, Primitives, signable_bytes, compute_id,
}
use nova_protocol.Transaction.Bytes.{Octets}

pub data SignatureFault : Type 0 where
  not_hex : SignatureFault
  wrong_length : ℕ → SignatureFault

pub data TransactionError : Type 0 where
  id_mismatch : String → String → TransactionError
  missing_signature : TransactionError
  malformed_signature : SignatureFault → TransactionError
  invalid_signature invalid_sender_address : String → TransactionError
  invalid_nonce : ℕ → TransactionError
  zero_amount : TransactionError
  self_transfer : String → TransactionError
  timestamp_too_far_in_future : ℕ → TransactionError
  missing_proof missing_commitment : TransactionError
  invalid_proof : String → TransactionError

-- `Result<(), TransactionError>`, with the `?` of Rust.
abbrev pub Check : Type 0
Check = Result (Unit {0}) TransactionError

infixl 5 ◌>>=◌ ◌>>◌
abbrev pub ◌>>=◌ :
    {A B : Type 0}
    → Result A TransactionError
    → (A → Result B TransactionError)
    → Result B TransactionError
ok a >>= f = f a
err e >>= f = err e
panic >>= f = panic

abbrev pub ◌>>◌ : {B : Type 0} → Check → Result B TransactionError → Result B TransactionError
m >> k = m >>= λ _. k

-- `if c { return Err(e); }`
abbrev pub refuse_if : Bool → TransactionError → Check
refuse_if c e = if c then err e else ok tt

abbrev pub ok_or : {A : Type 0} → Option A → TransactionError → Result A TransactionError
ok_or none e = err e
ok_or (some a) e = ok a

abbrev pub map_err : {A E : Type 0} → Result A E → TransactionError → Result A TransactionError
map_err (ok a) e = ok a
map_err (err _) e = err e
map_err panic e = panic

abbrev pub is_none : {A : Type 0} → Option A → Bool
is_none none = true
is_none (some _) = false

abbrev pub is_confidential : TransactionType → Bool
is_confidential confidential_transfer = true
is_confidential _ = false

-- A signed request to sign: the key pair of a sender.
pub record Keypair : Type 0 where
  pub public_key : Octets
  pub sign : Octets → Octets

module _ (p : Primitives) where
  -- Checks 1 to 5.
  unfoldable pub check_body : ℕ → Transaction → Check
  check_body now_ms tx = do
    refuse_if (tx.nonce == 0) (invalid_nonce tx.nonce)
    refuse_if (tx.amount.value == 0) zero_amount
    refuse_if (tx.sender =? tx.receiver) (self_transfer tx.sender)
    refuse_if (ltb (wrap64 (now_ms + 300000)) tx.timestamp)
        (timestamp_too_far_in_future tx.timestamp)
    refuse_if (not (tx.id =? compute_id p tx)) (id_mismatch (compute_id p tx) tx.id)

  -- Checks 6 to 9.
  unfoldable pub check_signature : Transaction → Check
  check_signature tx = do
    sig_hex ← ok_or tx.signature missing_signature
    signature ← ok_or (p.hex_decode sig_hex) (malformed_signature not_hex)
    refuse_if (not (length signature == 64)) (malformed_signature (wrong_length (length signature)))
    _ ← map_err (Identity.from_address p.identity tx.sender) (invalid_sender_address tx.sender)
    sender_pk_hex ← ok_or tx.sender_public_key (invalid_sender_address tx.sender)
    sender_pk ← ok_or (p.key_from_hex sender_pk_hex) (invalid_sender_address tx.sender)
    refuse_if
        (not (
          Identity.to_address p.identity (Identity.from_public_key p.identity sender_pk)
          =? tx.sender))
        (invalid_sender_address tx.sender)
    refuse_if (not (p.identity.verify sender_pk (signable_bytes p tx) signature))
        (invalid_signature tx.sender)

  -- Checks 10 and 11.
  unfoldable pub check_proof : Transaction → Check
  check_proof tx = do
    refuse_if (is_confidential tx.tx_type && is_none tx.proof) missing_proof
    refuse_if (is_confidential tx.tx_type && is_none tx.amount_commitment) missing_commitment
    elim tx.proof [
      | none ↦ ok tt
      | some proof ↦ elim (p.proof_fault proof) [
        | none ↦ ok tt
        | some why ↦ err (invalid_proof why)
      ]
    ]

  unfoldable pub verify_transaction : ℕ → Transaction → Check
  verify_transaction now_ms tx = do check_body now_ms tx; check_signature tx; check_proof tx

  -- protocol/src/transaction/signing.rs
  unfoldable pub sign_transaction : Keypair → Transaction → Transaction
  sign_transaction keypair tx = record tx {
    signature = some (p.hex_encode (keypair.sign (signable_bytes p tx)));
    sender_public_key = some (p.key_to_hex keypair.public_key);
  }
