-- ===== src/Handshake.antt =====
-- protocol/src/ntp/handshake.rs: the key exchange before a payment. A byte string is a list of
-- numbers. Random values, the clock and fresh identifiers are arguments.
--
-- Not under src/: X25519, BLAKE3 and the hex form of keys, in `Primitives`.
pub mod Agreement
mod Tests
use text.Mathlib.Text.{starts_with}
use nova_protocol.Common.{
  ℕ, ◌≡◌, String, Bool, true, false, not, ◌||◌, Option, none, some, List, [], ◌∷◌, ◌=?◌, string_key,
  if◌then◌else◌,
}
use nova_protocol.Common.Exec.{Result, ok, err}
use nova_protocol.Identity
use nova_protocol.Identity.{Octets}
use nova_protocol.Transaction.{Currency, brl, usd, eur, btc, eth, usdc, nova, custom, ticker}

pub record PaymentParams : Type 0 where
  pub amount : ℕ
  pub currency : Currency
  pub description : String

pub record HandshakeRequest : Type 0 where
  pub sender_pubkey : Octets
  pub sender_nova_id : String
  pub protocol_version : String
  pub supported_currencies : List Currency
  pub timestamp : ℕ
  pub nonce : Octets
  pub ephemeral_pubkey : Octets

pub record HandshakeResponse : Type 0 where
  pub receiver_pubkey : Octets
  pub receiver_nova_id : String
  pub session_id : String
  pub payment_request : PaymentParams
  pub timestamp : ℕ
  pub ephemeral_pubkey : Octets

pub record EstablishedSession : Type 0 where
  pub session_id : String
  pub shared_secret : Octets
  pub peer_nova_id : String
  pub peer_pubkey : Octets
  pub payment_params : PaymentParams
  pub our_nova_id : String
  pub our_pubkey : Octets

pub record HandshakeSession : Type 0 where
  pub keypair_pubkey : Octets
  pub our_nova_id : String
  pub ephemeral_secret : Option Octets
  pub ephemeral_public : Octets
  pub pending_request : Option HandshakeRequest

pub data NtpError : Type 0 where
  unsupported_version unsupported_currency : String → NtpError
  handshake_failed : NtpError

pub record Primitives : Type 0 where
  pub x25519_public : Octets → Octets
  pub diffie_hellman : Octets → Octets → Octets
  pub blake3 : Octets → Octets
  pub identity : Identity.Primitives

-- Both sides of an exchange come to one secret.
pub record IsLawful (p : Primitives) : Type 0 where
  pub agree :
      (a b : Octets)
      → p.diffie_hellman a (p.x25519_public b) ≡ p.diffie_hellman b (p.x25519_public a)

-- `PartialEq for Currency`
abbrev pub same_currency : Currency → Currency → Bool
same_currency brl brl = true
same_currency usd usd = true
same_currency eur eur = true
same_currency btc btc = true
same_currency eth eth = true
same_currency usdc usdc = true
same_currency nova nova = true
same_currency (custom s) (custom t) = s =? t
same_currency _ _ = false

-- `supported_currencies.contains(&currency)`
unfoldable pub supports : Currency → List Currency → Bool
supports c [] = false
supports c (d ∷ ds) = same_currency d c || supports c ds

module _ (p : Primitives) where
  abbrev pub address : Octets → String
  address pubkey = Identity.to_address p.identity (Identity.from_public_key p.identity pubkey)

  unfoldable pub initiate :
      (eph_secret nonce : Octets) → ℕ → Octets → List Currency → HandshakeSession × HandshakeRequest
  initiate eph_secret nonce now_ms pubkey supported_currencies =
      let request : HandshakeRequest = record {
        sender_pubkey = pubkey;
        sender_nova_id = address pubkey;
        protocol_version = "0.1.0";
        supported_currencies = supported_currencies;
        timestamp = now_ms;
        nonce = nonce;
        ephemeral_pubkey = p.x25519_public eph_secret;
      } in
      (
        record {
          keypair_pubkey = pubkey;
          our_nova_id = address pubkey;
          ephemeral_secret = some eph_secret;
          ephemeral_public = p.x25519_public eph_secret;
          pending_request = some request;
        },
        request,
      )

  -- The message and the session that `respond` makes once its checks have passed.
  abbrev pub answer : Octets → String → ℕ → Octets → PaymentParams → HandshakeResponse
  answer eph_secret session_id now_ms pubkey payment_params = record {
    receiver_pubkey = pubkey;
    receiver_nova_id = address pubkey;
    session_id = session_id;
    payment_request = payment_params;
    timestamp = now_ms;
    ephemeral_pubkey = p.x25519_public eph_secret;
  }

  abbrev pub established :
      Octets → String → HandshakeRequest → Octets → PaymentParams → EstablishedSession
  established eph_secret session_id request pubkey payment_params = record {
    session_id = session_id;
    shared_secret = p.blake3 (p.diffie_hellman eph_secret request.ephemeral_pubkey);
    peer_nova_id = request.sender_nova_id;
    peer_pubkey = request.sender_pubkey;
    payment_params = payment_params;
    our_nova_id = address pubkey;
    our_pubkey = pubkey;
  }

  unfoldable pub respond :
      (eph_secret : Octets)
      → (session_id : String) → ℕ
      → HandshakeRequest
      → Octets
      → PaymentParams
      → Result (HandshakeResponse × EstablishedSession) NtpError
  respond eph_secret session_id now_ms request pubkey payment_params =
      if not (starts_with request.protocol_version "0.")
      then err (unsupported_version request.protocol_version)
      else if not (supports payment_params.currency request.supported_currencies)
      then err (unsupported_currency (ticker payment_params.currency))
      else ok (
        answer eph_secret session_id now_ms pubkey payment_params,
        established eph_secret session_id request pubkey payment_params,
      )

  unfoldable pub complete :
      HandshakeResponse → HandshakeSession → Result EstablishedSession NtpError
  complete response s = elim s.ephemeral_secret [
    | none ↦ err handshake_failed
    | some eph_secret ↦ ok (record {
      session_id = response.session_id;
      shared_secret = p.blake3 (p.diffie_hellman eph_secret response.ephemeral_pubkey);
      peer_nova_id = response.receiver_nova_id;
      peer_pubkey = response.receiver_pubkey;
      payment_params = response.payment_request;
      our_nova_id = s.our_nova_id;
      our_pubkey = s.keypair_pubkey;
    })
  ]
