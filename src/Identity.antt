-- ===== src/Identity.antt =====
-- `NovaId` of protocol/src/identity/nova_id.rs: the hash of a public key, written as an address.
-- A byte string is a list of numbers. Not under src/: BLAKE3, bech32 and Ed25519, in `Primitives`.
pub mod Addresses
pub mod Tests
use nova_protocol.Common.{
  ℕ, ◌≡◌, String, Bool, true, false, not, Option, none, some, List, length, ◌==◌, ◌=?◌, string_key,
  octets_key, if◌then◌else◌, All, ◌<◌,
}
use nova_protocol.Common.Exec.{Result, ok, err, panic}

abbrev pub Octets : Type 0
Octets = List ℕ

pub record Primitives : Type 0 where
  pub blake3 : Octets → Octets
  pub bech32_encode : String → Octets → String
  pub bech32_decode : String → Result (String × Octets) String
  pub verify : Octets → Octets → Octets → Bool

abbrev pub nova_hrp : String
nova_hrp = "nova"

-- The documented behaviour of the two crates, as far as an address needs it: a hash is 32 bytes, and
-- what is encoded under the prefix `nova` from 32 bytes is read back.
pub record IsLawful (p : Primitives) : Type 0 where
  pub hash_length : (x : Octets) → length (p.blake3 x) ≡ 32
  pub hash_octets : (x : Octets) → All (λ b. b < 256) (p.blake3 x)
  pub decode-encode :
      (data_ : Octets)
      → length data_ ≡ 32
      → All (λ b. b < 256) data_
      → p.bech32_decode (p.bech32_encode nova_hrp data_) ≡ ok (nova_hrp, data_)

pub data NovaIdError : Type 0 where
  bech32_decode : String → NovaIdError
  invalid_hrp : String → String → NovaIdError
  invalid_data_length : ℕ → ℕ → NovaIdError
  signature_verification_failed no_public_key public_key_mismatch : NovaIdError

pub record NovaId : Type 0 where
  pub key_hash : Octets
  pub public_key : Option Octets

-- `PartialEq for NovaId`
abbrev pub same_id : NovaId → NovaId → Bool
same_id a b = a.key_hash =? b.key_hash

module _ (p : Primitives) where
  unfoldable pub from_public_key : Octets → NovaId
  from_public_key pk = record { key_hash = p.blake3 pk; public_key = some pk }

  unfoldable pub to_address : NovaId → String
  to_address id = p.bech32_encode nova_hrp id.key_hash

  unfoldable pub from_address : String → Result NovaId NovaIdError
  from_address addr = elim (p.bech32_decode addr) [
    | err e ↦ err (bech32_decode e)
    | panic ↦ panic
    | ok (hrp, bytes) ↦
        if not (hrp =? nova_hrp)
        then err (invalid_hrp nova_hrp hrp)
        else if not (length bytes == 32)
        then err (invalid_data_length 32 (length bytes))
        else ok (record { key_hash = bytes; public_key = none })
  ]

  unfoldable pub verify_signature : NovaId → Octets → Octets → Result (Unit {0}) NovaIdError
  verify_signature id message signature = elim id.public_key [
    | none ↦ err no_public_key
    | some pk ↦ if p.verify pk message signature then ok tt else err signature_verification_failed
  ]

  unfoldable pub attach_public_key : Octets → NovaId → Result (Unit {0}) NovaIdError × NovaId
  attach_public_key pk id =
      if not (p.blake3 pk =? id.key_hash)
      then (err public_key_mismatch, id)
      else (ok tt, record id { public_key = some pk })
