-- ===== src/Transaction/Tests.antt =====
-- The theorems about protocol/src/transaction at one transfer, with a toy hash and a toy signature.
use Prim.Native.Char.{char}
use text.Mathlib.TextEquality.{Char-path}
use nova_protocol.Common.{
  ◌≤◌, ◌≡◌, ◌≢◌, ◌∙◌, refl, ap, String, true, false, Option, none, some, [], ◌∷◌, arith, length,
  replicate, ◌==◌, ◌=?◌, octets_key, same_iff, string_key, if◌then◌else◌,
}
use nova_protocol.Common.Exec.{ok}
use nova_protocol.Common.Toy.{to_text, of_text, of_text-to_text}
use nova_protocol.Identity
use nova_protocol.Identity.Tests.{toy_identity, toy_identity-IsLawful}
use nova_protocol.Transaction.{
  Primitives, Transaction, transfer, nova, custom, signable_bytes, with_proof,
}
use nova_protocol.Transaction.Bytes.{Octets}
use nova_protocol.Transaction.Builder.{TransactionBuilder, new, build}
use nova_protocol.Transaction.Verification.{Keypair, verify_transaction, sign_transaction}
use nova_protocol.Transaction.Encoding.{codes, IsUtf8, IsWellFormed, signable_bytes_inj}
use nova_protocol.Transaction.Checks.{
  HasBody, IsKeypair, verify_transaction_lem, verify_transaction-sign_transaction,
}
use nova_protocol.Transaction.Forgery.{
  between, moved_border, in_currency, same_ticker_forges, with_proof_lem,
}

codes_inj : (s t : String) → codes s ≡ codes t → s ≡ t
codes_inj String.[] String.[] e = refl
codes_inj String.[] (String.◌∷◌ d t) e = absurd (ground arith)
codes_inj (String.◌∷◌ c s) String.[] e = absurd (ground arith)
codes_inj (String.◌∷◌ c s) (String.◌∷◌ d t) e =
    ap (λ c. String.◌∷◌ c s) (Char-path c d (cc)) ∙ ap (λ s. String.◌∷◌ d s) (codes_inj s t (cc))

abbrev from_hex : String → Option Octets
from_hex s = some (of_text 0 s).0

abbrev pub toy : Primitives
toy = record {
  utf8 = codes;
  double_sha256 = λ x. length x ∷ [];
  hex_encode = λ x. to_text x "";
  hex_decode = from_hex;
  json_size = λ tx. 100;
  key_from_hex = from_hex;
  key_to_hex = λ x. to_text x "";
  identity = toy_identity;
  proof_fault = λ x. if length x == 0 then some "empty" else none;
}

abbrev alice : Keypair
alice = record { public_key = 7 ∷ 9 ∷ []; sign = λ m. replicate 64 2 }

from_hex-to_text : (x : Octets) → from_hex (to_text x "") ≡ some x
from_hex-to_text x = ap (λ o. some o.0) (of_text-to_text x "")

alice-IsKeypair : IsKeypair toy alice
alice-IsKeypair = record {
  verify-sign = λ m. refl;
  length-sign = λ m. refl;
  decode-encode = λ m. from_hex-to_text (replicate 64 2);
  from-to = from_hex-to_text (7 ∷ 9 ∷ []);
}

abbrev address : String
address = Identity.to_address toy.identity (Identity.from_public_key toy.identity (7 ∷ 9 ∷ []))

abbrev pub payment : TransactionBuilder
payment = record (new transfer) {
  sender = address;
  receiver = "bob";
  amount = record { value = 5; currency = nova };
  fee = 1;
  nonce = 3;
  timestamp = some 1000;
}

abbrev paid : Transaction
paid = sign_transaction toy alice (build toy 2000 payment)

names_differ : address ≢ "bob"
unfolding Identity.to_address Identity.from_public_key
names_differ e =
    let no : (address =? "bob") ≡ false = refl in
    let yes : (address =? "bob") ≡ true = (same_iff address "bob").1 e in
    absurd (ground (arith, no, yes))

in_time : (build toy 2000 payment).timestamp ≤ 305000
unfolding build
in_time = omega arith

accepted : verify_transaction toy 5000 paid ≡ ok tt
accepted =
    verify_transaction-sign_transaction toy alice 5000 2000 payment alice-IsKeypair
      toy_identity-IsLawful refl (omega arith) (omega arith) names_differ (λ e. ground arith)
      in_time

verify_transaction_lem_example : HasBody toy 5000 paid
verify_transaction_lem_example = ((verify_transaction_lem toy 5000 paid).0 accepted).0

same_ticker_forges_example : verify_transaction toy 5000 (in_currency (custom "NOVA") paid) ≡ ok tt
unfolding sign_transaction build
same_ticker_forges_example = (same_ticker_forges toy 5000 paid (custom "NOVA") refl).2 accepted

with_proof_lem_example : verify_transaction toy 5000 (with_proof toy (9 ∷ []) paid) ≡ ok tt
with_proof_lem_example = (with_proof_lem toy 5000 paid (9 ∷ []) (8 ∷ []) accepted refl).2

codes-IsUtf8 : IsUtf8 codes
codes-IsUtf8 = record { inj = codes_inj; nul_free = λ s h. h }

abbrev pub here : Transaction
here = build toy 2000 (record payment { sender = "alice" })

abbrev there : Transaction
there = in_currency (custom "NOVA") here

here-IsWellFormed : IsWellFormed toy here
unfolding build
here-IsWellFormed = record {
  version_fits = omega arith;
  value_fits = omega arith;
  fee_fits = omega arith;
  nonce_fits = omega arith;
  timestamp_fits = omega arith;
  sender_nul_free = omega arith;
  receiver_nul_free = omega arith;
  ticker_nul_free = omega arith;
}

there-IsWellFormed : IsWellFormed toy there
unfolding build
there-IsWellFormed = record {
  version_fits = omega arith;
  value_fits = omega arith;
  fee_fits = omega arith;
  nonce_fits = omega arith;
  timestamp_fits = omega arith;
  sender_nul_free = omega arith;
  receiver_nul_free = omega arith;
  ticker_nul_free = omega arith;
}

same_bytes : signable_bytes toy here ≡ signable_bytes toy there
unfolding build signable_bytes
same_bytes = refl

-- From `"a\0b"` to `"c"`, or from `"a"` to `"b\0c"`.
abbrev zero_char : String → String
zero_char s = String.◌∷◌ (char 0 tt) s

border_not_seen :
    signable_bytes toy (between (String.◌∷◌ (char 97 tt) (zero_char "b")) "c" here)
    ≡ signable_bytes toy (between "a" (String.◌∷◌ (char 98 tt) (zero_char "c")) here)
border_not_seen =
    moved_border toy here (String.◌∷◌ (char 97 tt) (zero_char "b")) "c" "a"
      (String.◌∷◌ (char 98 tt) (zero_char "c")) refl

signable_bytes_inj_example : here.nonce ≡ there.nonce
signable_bytes_inj_example =
    (signable_bytes_inj toy here there codes-IsUtf8 here-IsWellFormed there-IsWellFormed
      same_bytes).7
