-- ===== src/State/Codec.antt =====
-- One serialisation of the account states of protocol/src/storage/state.rs into bits, with the
-- proof that what was written is read back: a number is written in unary, a list behind its length.
use Prim.Native.Nat.{compare, Ordering}
use Prim.Native.Char.{Char, char, code, IsScalar}
use text.Mathlib.TextEquality.{Char-path}
use text.Mathlib.TextBridge.{to_list, of_list, of_list-to_list}
use nova_protocol.Common.{
  ℕ, zero, suc, ◌≡◌, refl, ap, String, Bool, true, false, Option, none, some, List, [], ◌∷◌, length,
}
use nova_protocol.State.{AccountState}

abbrev Bits : Type 0
Bits = List Bool

-- How a value is written in front of other bits, and how it is read off again.
pub record Codec (A : Type 0) : Type 0 where
  pub write : A → Bits → Bits
  pub read : Bits → Option (A × Bits)
  pub read-write : (a : A) (rest : Bits) → read (write a rest) ≡ some (a, rest)

abbrev on_value :
    {A B : Type 0} → (A → Bits → Option (B × Bits)) → Option (A × Bits) → Option (B × Bits)
on_value f none = none
on_value f (some (a, rest)) = f a rest

abbrev write_nat : ℕ → Bits → Bits
write_nat zero rest = false ∷ rest
write_nat (suc n) rest = true ∷ write_nat n rest

abbrev read_nat : Bits → Option (ℕ × Bits)
read_nat [] = none
read_nat (false ∷ rest) = some (0, rest)
read_nat (true ∷ bits) = on_value (λ n rest. some (suc n, rest)) (read_nat bits)

read_nat-write_nat : (n : ℕ) (rest : Bits) → read_nat (write_nat n rest) ≡ some (n, rest)
read_nat-write_nat zero rest = refl
read_nat-write_nat (suc n) rest = ap (on_value (λ m r. some (suc m, r))) (read_nat-write_nat n rest)

abbrev nat_codec : Codec ℕ
nat_codec = record { write = write_nat; read = read_nat; read-write = read_nat-write_nat }

abbrev beside : {B : Type 0} → Option B → Bits → Option (B × Bits)
beside none rest = none
beside (some b) rest = some (b, rest)

abbrev on_first : {A B : Type 0} → (A → Option B) → Option (A × Bits) → Option (B × Bits)
on_first f none = none
on_first f (some (a, rest)) = beside (f a) rest

onto :
    {A B : Type 0} (from : B → Option A) (a : A) (rest : Bits) (b : B)
    → from b ≡ some a
    → on_first from (some (b, rest)) ≡ some (a, rest)
onto from a rest b e = ap (λ o. beside o rest) e

-- Through a type that has a codec, into which there is a round trip.
abbrev via :
    {A B : Type 0} (to : A → B) (from : B → Option A)
    → ((a : A) → from (to a) ≡ some a)
    → Codec B
    → Codec A
via to from e c = record {
  write = λ a. c.write (to a);
  read = λ bits. on_first from (c.read bits);
  read-write = λ a rest. rw (c.read-write (to a) rest) (onto from a rest (to a) (e a));
}

abbrev both : {A B : Type 0} → Codec A → Codec B → Codec (A × B)
both c d = record {
  write = λ x rest. c.write x.0 (d.write x.1 rest);
  read =
      λ bits. on_value (λ a rest. on_value (λ b r. some ((a, b), r)) (d.read rest)) (c.read bits);
  read-write = λ x rest. rw (c.read-write x.0 (d.write x.1 rest), d.read-write x.1 rest) refl;
}

module _ {A : Type 0} (c : Codec A) where
  abbrev write_each : List A → Bits → Bits
  write_each [] rest = rest
  write_each (x ∷ xs) rest = c.write x (write_each xs rest)

  abbrev read_each : ℕ → Bits → Option (List A × Bits)
  read_each zero bits = some ([], bits)
  read_each (suc n) bits =
      on_value (λ x rest. on_value (λ xs r. some (x ∷ xs, r)) (read_each n rest)) (c.read bits)

  read_each-write_each :
      (xs : List A) (rest : Bits) → read_each (length xs) (write_each xs rest) ≡ some (xs, rest)
  read_each-write_each [] rest = refl
  read_each-write_each (x ∷ xs) rest =
      rw (c.read-write x (write_each xs rest), read_each-write_each xs rest) refl

  abbrev list_codec : Codec (List A)
  list_codec = record {
    write = λ xs rest. write_nat (length xs) (write_each xs rest);
    read = λ bits. on_value read_each (read_nat bits);
    read-write = λ xs rest.
        rw (read_nat-write_nat (length xs) (write_each xs rest)) (read_each-write_each xs rest);
  }

abbrev bool_codec : Codec Bool
bool_codec = record {
  write = λ b rest. b ∷ rest;
  read = λ bits. elim bits [ [] ↦ none | b ∷ rest ↦ some (b, rest) ];
  read-write = λ b rest. refl;
}

-- A character from its number, by the three comparisons that `IsScalar` makes.
abbrev Less : Ordering → Type 0
Less Ordering.lt = Unit
Less Ordering.eq = ⊥
Less Ordering.gt = ⊥

abbrev BothLess : Ordering → Ordering → Type 0
BothLess Ordering.lt q = Less q
BothLess Ordering.eq _ = ⊥
BothLess Ordering.gt _ = ⊥

abbrev Allowed : Ordering → Ordering → Ordering → Type 0
Allowed Ordering.lt _ _ = Unit
Allowed Ordering.eq p q = BothLess p q
Allowed Ordering.gt p q = BothLess p q

allowed : (o p q : Ordering) → Dec (Allowed o p q)
allowed Ordering.lt p q = yes tt
allowed Ordering.eq Ordering.lt Ordering.lt = yes tt
allowed Ordering.eq Ordering.lt Ordering.eq = no (λ x. x)
allowed Ordering.eq Ordering.lt Ordering.gt = no (λ x. x)
allowed Ordering.eq Ordering.eq q = no (λ x. x)
allowed Ordering.eq Ordering.gt q = no (λ x. x)
allowed Ordering.gt Ordering.lt Ordering.lt = yes tt
allowed Ordering.gt Ordering.lt Ordering.eq = no (λ x. x)
allowed Ordering.gt Ordering.lt Ordering.gt = no (λ x. x)
allowed Ordering.gt Ordering.eq q = no (λ x. x)
allowed Ordering.gt Ordering.gt q = no (λ x. x)

abbrev if_scalar : (n : ℕ) → Dec (IsScalar n) → Option Char
if_scalar n (yes h) = some (char n h)
if_scalar n (no _) = none

if_scalar-eq : (n : ℕ) (d : Dec (IsScalar n)) (h : IsScalar n) → if_scalar n d ≡ some (char n h)
if_scalar-eq n (yes k) h = ap some (Char-path (char n k) (char n h) refl)
if_scalar-eq n (no absent) h = absurd (absent h)

abbrev from_number : ℕ → Option Char
from_number n = if_scalar n (allowed (compare n 55296) (compare 57343 n) (compare n 1114112))

from_number-code : (c : Char) → from_number (code c) ≡ some c
from_number-code (char n h) =
    if_scalar-eq n (allowed (compare n 55296) (compare 57343 n) (compare n 1114112)) h

abbrev string_codec : Codec String
string_codec =
    via to_list (λ cs. some (of_list cs)) (λ s. ap some (of_list-to_list s))
      (list_codec (via code from_number from_number-code nat_codec))

abbrev Fields : Type 0
Fields = ((ℕ × ℕ) × List (String × List ℕ)) × (List String × Bool)

abbrev fields : AccountState → Fields
fields s = (((s.nonce, s.balance), s.balance_commitments), (s.credit_lines, s.frozen))

abbrev from_fields : Fields → Option AccountState
from_fields (((nonce, balance), commitments), (lines, is_frozen)) = some (record {
  nonce = nonce;
  balance = balance;
  balance_commitments = commitments;
  credit_lines = lines;
  frozen = is_frozen;
})

pub account_codec : Codec AccountState
account_codec =
    via fields from_fields (λ s. refl)
      (both
        (both (both nat_codec nat_codec) (list_codec (both string_codec (list_codec nat_codec))))
        (both (list_codec string_codec) bool_codec))
