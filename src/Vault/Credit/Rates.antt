-- ===== src/Vault/Credit/Rates.antt =====
-- `weighted_avg_rate_bps` of protocol/src/vault/credit.rs: where it is an average, and where not.
use nova_protocol.Common.{
  ℕ, ◌+◌, ◌*◌, ◌/◌, ◌%◌, ◌≤◌, ◌<◌, ◌≡◌, refl, true, List, [], ◌∷◌, arith, Option, none, some, All,
  sum_of, keep, length, ◌==◌, u64_max, wrap64, if◌then◌else◌,
}
use native.Mathlib.Nat.{le-div_iff_mul-le, div-le_of_le-mul, div-lt_iff_lt-mul, mul_comm}
use nova_protocol.Vault.Credit.{CreditLine, active, allows_draws}
use nova_protocol.Vault.Credit.Manager.{CreditLineManager, weighted_avg_rate_bps}

abbrev pub actives : CreditLineManager → List CreditLine
actives lines = keep (λ l. allows_draws l.status) lines

abbrev pub limits : List CreditLine → ℕ
limits ls = sum_of (λ l. l.limit) ls

abbrev pub weights : List CreditLine → ℕ
weights ls = sum_of (λ l. l.limit * l.interest_rate_bps) ls

no_wrap :
    (ls : List CreditLine)
    → weights ls ≤ u64_max
    → sum_of (λ l. wrap64 (l.limit * l.interest_rate_bps)) ls ≡ weights ls
no_wrap [] h = refl
no_wrap (l ∷ ls) h = omega (arith, no_wrap ls (omega arith))

weights_bounds :
    (lo hi : ℕ) (ls : List CreditLine)
    → All (λ l. (lo ≤ l.interest_rate_bps) × (l.interest_rate_bps ≤ hi)) ls
    → (lo * limits ls ≤ weights ls) × (weights ls ≤ limits ls * hi)
weights_bounds lo hi [] h = (omega arith, omega arith)
weights_bounds lo hi (l ∷ ls) h =
    let (a, b) = weights_bounds lo hi ls h.1 in (grind (arith, a), grind (arith, b))

quotient_bounds : (lo hi t w : ℕ) → 0 < t → lo * t ≤ w → w ≤ t * hi → (lo ≤ w / t) × (w / t ≤ hi)
quotient_bounds lo hi t w p a b = ((le-div_iff_mul-le p).1 a, div-le_of_le-mul t b)

-- The method's body, on the active lines.
abbrev average : List CreditLine → Option ℕ
average ls =
    if length ls == 0
    then none
    else if wrap64 (limits ls) == 0
    then none
    else some (
        wrap64 (sum_of (λ l. wrap64 (l.limit * l.interest_rate_bps)) ls)
        / wrap64 (limits ls)
        % 4294967296)

fitting : (n : ℕ) → n ≤ u64_max → wrap64 n ≡ n
fitting n h = omega arith

average-eq :
    (ls : List CreditLine)
    → 0 < limits ls
    → limits ls ≤ u64_max
    → weights ls ≤ u64_max
    → weights ls / limits ls < 4294967296
    → average ls ≡ some (weights ls / limits ls)
average-eq [] p a b c = absurd (omega arith)
average-eq (l ∷ ls) p a b c =
    rw (fitting (limits (l ∷ ls)) a, no_wrap (l ∷ ls) b, fitting (weights (l ∷ ls)) b)
      (ground arith)

-- If the limits and the weights of the active lines sum to at most 64 bits, the limits not to
-- zero, and their rates lie between two bounds of 32 bits, there is an average and it lies between
-- these bounds.
pub weighted_avg_rate_bps_bounds :
    (lo hi : ℕ) (lines : CreditLineManager)
    → All (λ l. (lo ≤ l.interest_rate_bps) × (l.interest_rate_bps ≤ hi)) (actives lines)
    → hi < 4294967296
    → limits (actives lines) ≤ u64_max
    → weights (actives lines) ≤ u64_max
    → 0 < limits (actives lines)
    → (avg : ℕ) × (weighted_avg_rate_bps lines ≡ some avg) × (lo ≤ avg) × (avg ≤ hi)
unfolding weighted_avg_rate_bps
weighted_avg_rate_bps_bounds lo hi lines h small fit fit' pos =
    let ls = actives lines in
    let (a, b) = weights_bounds lo hi ls h in
    let (c, d) = quotient_bounds lo hi (limits ls) (weights ls) pos a b in
    (weights ls / limits ls, average-eq ls pos fit fit' (omega (arith, d)), c, d)

wrapped-lt : (t r : ℕ) → 0 < t → u64_max < t * r → wrap64 (wrap64 (t * r)) / t < r
wrapped-lt t r p h = (div-lt_iff_lt-mul p).1 (rw (mul_comm r t) (omega arith))

single-eq :
    (t x : ℕ)
    → 0 < t
    → t ≤ u64_max
    → wrap64 x / t < 4294967296
    → (if wrap64 (t + 0) == 0 then none else some (wrap64 (x + 0) / wrap64 (t + 0) % 4294967296))
      ≡ some (wrap64 x / t)
single-eq t x p fit small =
    let same : wrap64 (t + 0) ≡ t = omega arith in
    let same' : wrap64 (x + 0) ≡ wrap64 x = omega arith in rw (same, same') (ground arith)

-- A single active line with a positive limit of 64 bits and a rate of 32 bits, whose limit times
-- its rate passes 64 bits, is reported at less than its rate.
pub weighted_avg_rate_bps_overflow :
    (l : CreditLine)
    → l.status ≡ active
    → 0 < l.limit
    → l.limit ≤ u64_max
    → l.interest_rate_bps < 4294967296
    → u64_max < l.limit * l.interest_rate_bps
    → (avg : ℕ) × (weighted_avg_rate_bps (l ∷ []) ≡ some avg) × (avg < l.interest_rate_bps)
unfolding weighted_avg_rate_bps
weighted_avg_rate_bps_overflow l a p fit small big =
    let less = wrapped-lt l.limit l.interest_rate_bps p big in
    let open_ : allows_draws l.status ≡ true = ground arith in
    (
      wrap64 (wrap64 (l.limit * l.interest_rate_bps)) / l.limit,
      rw open_
          (single-eq l.limit (wrap64 (l.limit * l.interest_rate_bps)) p fit (omega (arith, less))),
      less,
    )
