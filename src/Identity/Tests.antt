-- ===== src/Identity/Tests.antt =====
-- The theorem about protocol/src/identity/nova_id.rs with a hash that keeps the length of a key.
use nova_protocol.Common.{
  ◌%◌, ◌<◌, arith, ◌≡◌, refl, none, [], ◌∷◌, ap, length, replicate, ◌=?◌, octets_key,
}
use nova_protocol.Common.Exec.{ok}
use nova_protocol.Common.Toy.{to_text, of_text, of_text-to_text}
use nova_protocol.Identity.{
  Primitives, IsLawful, nova_hrp, from_public_key, to_address, from_address,
}
use nova_protocol.Identity.Addresses.{from_address-to_address}

-- A signature is good if it is the key itself, behind the message.
abbrev pub toy_identity : Primitives
toy_identity = record {
  blake3 = λ x. replicate 32 (length x % 256);
  bech32_encode = λ hrp data_. to_text data_ hrp;
  bech32_decode = λ s. ok ((of_text 0 s).1, (of_text 0 s).0);
  verify = λ pk message signature. signature =? replicate 64 (length pk);
}

pub toy_identity-IsLawful : IsLawful toy_identity
toy_identity-IsLawful = record {
  hash_length = λ x. refl;
  hash_octets = λ x. let h : length x % 256 < 256 = omega arith in grind (arith, h);
  decode-encode = λ data_ size small. ap (λ o. ok (o.1, o.0)) (of_text-to_text data_ nova_hrp);
}

from_address-to_address_example :
    from_address toy_identity (to_address toy_identity (from_public_key toy_identity (7 ∷ 9 ∷ [])))
    ≡ ok (record { key_hash = replicate 32 2; public_key = none })
from_address-to_address_example =
    (from_address-to_address toy_identity (7 ∷ 9 ∷ []) toy_identity-IsLawful).0
