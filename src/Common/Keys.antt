-- ===== src/Common/Keys.antt =====
-- Keys of hash maps: a type with a Boolean equality that decides equality. Instances for numbers,
-- which stand for UUIDs and byte arrays that the program only compares, and for strings.
use Prim.Native.String.{String}
use Prim.Native.Nat.{ℕ}
use mathlib.Core.Path.{◌≡◌, refl}
use mathlib.Core.Logic.{◌↔◌}
use mathlib.Core.Bool.{Bool, true, false, not, ◌&&◌}
use mathlib.Core.List.{List, [], ◌∷◌}
use native.Mathlib.Omega.{arith}
use text.Mathlib.Text.{◌==◌ as str_eq}
use text.Mathlib.TextEquality.{eq_iff}
use nova_protocol.Common.Tests.{◌==◌ as nat_beq, ==_iff}

pub record Key {ℓ} (K : Type ℓ) : Type ℓ where
  pub beq : K → K → Bool
  pub beq_iff : (a b : K) → (beq a b ≡ true) ↔ (a ≡ b)

infix 50 ◌=?◌
abbrev pub ◌=?◌ {ℓ} : {K : Type ℓ} ⦃k : Key K⦄ → K → K → Bool
◌=?◌ ⦃k⦄ = k.beq

pub same_iff {ℓ} : {K : Type ℓ} ⦃k : Key K⦄ (a b : K) → ((a =? b) ≡ true) ↔ (a ≡ b)
same_iff ⦃k⦄ = k.beq_iff

instance abbrev pub nat_key : Key ℕ
nat_key = record { beq = nat_beq; beq_iff = ==_iff }

instance abbrev pub string_key : Key String
string_key = record { beq = str_eq; beq_iff = eq_iff }

abbrev pub same_bit : Bool → Bool → Bool
same_bit true b = b
same_bit false b = not b

-- Byte strings as lists of bits.
abbrev pub same_bits : List Bool → List Bool → Bool
same_bits [] [] = true
same_bits (a ∷ as_) (b ∷ bs) = same_bit a b && same_bits as_ bs
same_bits _ _ = false

pub same_bits_iff : (x y : List Bool) → (same_bits x y ≡ true) ↔ (x ≡ y)
same_bits_iff [] [] = (λ _. refl, λ _. refl)
same_bits_iff [] (b ∷ bs) = (λ h. cc, λ h. cc)
same_bits_iff (a ∷ as_) [] = (λ h. cc, λ h. cc)
same_bits_iff (a ∷ as_) (b ∷ bs) = ground (arith, same_bits_iff as_ bs)

instance abbrev pub bits_key : Key (List Bool)
bits_key = record { beq = same_bits; beq_iff = same_bits_iff }

-- A number in front of a bit string.
abbrev pub same_tagged : ℕ × List Bool → ℕ × List Bool → Bool
same_tagged (m, x) (n, y) = nat_beq m n && same_bits x y

pub same_tagged_iff : (a b : ℕ × List Bool) → (same_tagged a b ≡ true) ↔ (a ≡ b)
same_tagged_iff (m, x) (n, y) = ground (arith, ==_iff m n, same_bits_iff x y)

instance abbrev pub tagged_key : Key (ℕ × List Bool)
tagged_key = record { beq = same_tagged; beq_iff = same_tagged_iff }

-- Byte strings as lists of numbers.
abbrev pub same_octets : List ℕ → List ℕ → Bool
same_octets [] [] = true
same_octets (a ∷ as_) (b ∷ bs) = nat_beq a b && same_octets as_ bs
same_octets _ _ = false

pub same_octets_iff : (x y : List ℕ) → (same_octets x y ≡ true) ↔ (x ≡ y)
same_octets_iff [] [] = (λ h. refl, λ h. refl)
same_octets_iff [] (b ∷ bs) = (λ h. cc, λ h. cc)
same_octets_iff (a ∷ as_) [] = (λ h. cc, λ h. cc)
same_octets_iff (a ∷ as_) (b ∷ bs) = ground (arith, ==_iff a b, same_octets_iff as_ bs)

instance abbrev pub octets_key : Key (List ℕ)
octets_key = record { beq = same_octets; beq_iff = same_octets_iff }
