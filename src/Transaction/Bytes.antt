-- ===== src/Transaction/Bytes.antt =====
-- Little-endian bytes and separators, as protocol/src/transaction/builder.rs writes them.
use nova_protocol.Common.{
  ℕ, zero, suc, ◌/◌, ◌%◌, ◌≤◌, ◌<◌, ◌≡◌, ◌≢◌, refl, ap, List, [], ◌∷◌, ◌++◌, arith, length, All,
  u64_max,
}

abbrev pub Octets : Type 0
Octets = List ℕ

-- `to_le_bytes` of a number of `k` bytes.
abbrev pub to_le_bytes : ℕ → ℕ → Octets
to_le_bytes zero n = []
to_le_bytes (suc k) n = (n % 256) ∷ to_le_bytes k (n / 256)

pub length-to_le_bytes : (k n : ℕ) → length (to_le_bytes k n) ≡ k
length-to_le_bytes zero n = refl
length-to_le_bytes (suc k) n = ap suc (length-to_le_bytes k (n / 256))

-- `n` has at most `k` bytes.
abbrev pub Fits : ℕ → ℕ → Type 0
Fits zero n = n ≡ 0
Fits (suc k) n = Fits k (n / 256)

pub to_le_bytes_inj : (k n m : ℕ) → Fits k n → Fits k m → to_le_bytes k n ≡ to_le_bytes k m → n ≡ m
to_le_bytes_inj zero n m h h' e = omega arith
to_le_bytes_inj (suc k) n m h h' e =
    let low : n % 256 ≡ m % 256 = cc in
    let high : n / 256 ≡ m / 256 = to_le_bytes_inj k (n / 256) (m / 256) h h' (cc) in
    omega (arith, low, high)

pub word-Fits : (n : ℕ) → n ≤ u64_max → Fits 8 n
word-Fits n h = omega arith

pub short-Fits : (n : ℕ) → n < 65536 → Fits 2 n
short-Fits n h = omega arith

abbrev pub NulFree : Octets → Type 0
NulFree xs = All (λ x. x ≢ 0) xs

-- Likewise where a zero byte ends the first parts, which have none.
pub nul_parts :
    (xs ys as_ bs : Octets)
    → NulFree xs
    → NulFree ys
    → xs ++ 0 ∷ as_ ≡ ys ++ 0 ∷ bs
    → (xs ≡ ys) × (as_ ≡ bs)
nul_parts [] [] as_ bs h h' e = (refl, cc)
nul_parts [] (y ∷ ys) as_ bs h h' e = absurd (h'.0 (cc))
nul_parts (x ∷ xs) [] as_ bs h h' e = absurd (h.0 (cc))
nul_parts (x ∷ xs) (y ∷ ys) as_ bs h h' e =
    let (front, back) = nul_parts xs ys as_ bs h.1 h'.1 (cc) in (cc, back)
