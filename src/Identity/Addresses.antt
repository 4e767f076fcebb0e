-- ===== src/Identity/Addresses.antt =====
-- Addresses and keys of protocol/src/identity/nova_id.rs.
use nova_protocol.Common.{◌≡◌, ◌↔◌, refl, true, none, arith, same_iff, string_key, octets_key}
use nova_protocol.Common.Exec.{ok}
use nova_protocol.Identity.{
  Primitives, IsLawful, Octets, NovaId, nova_hrp, same_id, from_public_key, to_address,
  from_address, verify_signature, attach_public_key,
}

module _ (p : Primitives) where
  -- If a hash is 32 bytes, and bech32 reads back what it wrote under the prefix `nova` from 32
  -- bytes, then the address of a key is read back as the same identity, without the key. A key can
  -- be attached to what is read exactly when it has the same hash, and then signatures are checked
  -- with it.
  pub from_address-to_address :
      (pk : Octets)
      → IsLawful p
      → let read : NovaId = record { key_hash = p.blake3 pk; public_key = none } in
        (from_address p (to_address p (from_public_key p pk)) ≡ ok read)
        × (same_id read (from_public_key p pk) ≡ true)
        × ((k : Octets) → ((attach_public_key p k read).0 ≡ ok tt) ↔ (p.blake3 k ≡ p.blake3 pk))
        × ((k message signature : Octets)
            → p.blake3 k ≡ p.blake3 pk
            → (verify_signature p (attach_public_key p k read).1 message signature ≡ ok tt)
              ↔ (p.verify k message signature ≡ true))
  unfolding from_address to_address from_public_key attach_public_key verify_signature
  from_address-to_address pk law = (
    ground (
      arith,
      law.decode-encode (p.blake3 pk) (law.hash_length pk) (law.hash_octets pk),
      same_iff nova_hrp nova_hrp,
      law.hash_length pk,
    ),
    (same_iff (p.blake3 pk) (p.blake3 pk)).1 refl,
    λ k. ground (arith, same_iff (p.blake3 k) (p.blake3 pk)),
    λ k message signature e. ground (arith, same_iff (p.blake3 k) (p.blake3 pk)),
  )
