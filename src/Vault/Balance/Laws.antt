-- ===== src/Vault/Balance/Laws.antt =====
-- What a credit and a debit of protocol/src/vault/balance.rs do, on every branch.
use nova_protocol.Common.{
  ℕ, ◌+◌, ◌-◌, ◌≤◌, ◌<◌, ◌≡◌, inl, inr, refl, Option, none, some, List, arith, u64_max,
  Option-cases, ◌==◌, nat_key, if◌then◌else◌,
}
use native.Mathlib.Decide.{dec_le}
use nova_protocol.Common.Dict.{lookup, lookup-insert, insert, insert_same}
use nova_protocol.Common.Exec.{ok, err}
use nova_protocol.Vault.Balance.{
  Balance, BalanceSheet, TokenId, overflow, insufficient_balance, token_not_found, entry_or_new,
  credit, debit, get_balance,
}

abbrev pub or_zero : Option ℕ → ℕ
or_zero none = 0
or_zero (some n) = n

-- Every amount fits in 64 bits.
abbrev pub IsValid : BalanceSheet → Type 0
IsValid s = (id : TokenId) → or_zero (get_balance id s) ≤ u64_max

pub get_balance-insert :
    (j id : TokenId) (b : Balance) (s : BalanceSheet)
    → get_balance j (insert id b s) ≡ (if j == id then some b.amount else get_balance j s)
unfolding get_balance
get_balance-insert j id b s = ground (arith, lookup-insert j id b s)

abbrev updated : Balance → ℕ → List ℕ → ℕ → Balance
updated b amount bytes now = record b {
  amount = amount;
  committed_amount = bytes;
  last_updated = now;
}

entry-amount :
    (id : TokenId) (now : ℕ) (s : BalanceSheet)
    → (entry_or_new id now s).amount ≡ or_zero (get_balance id s)
unfolding get_balance
entry-amount id now s = ground arith

credit-ok :
    (id : TokenId) (amount : ℕ) (bytes : List ℕ) (now : ℕ) (s : BalanceSheet)
    → let sum = or_zero (get_balance id s) + amount in
      sum ≤ u64_max
      → credit id amount bytes now s
        ≡ (ok sum, insert id (updated (entry_or_new id now s) sum bytes now) s)
unfolding credit get_balance
credit-ok id amount bytes now s h = ground arith

credit-overflow :
    (id : TokenId) (amount : ℕ) (bytes : List ℕ) (now : ℕ) (s : BalanceSheet)
    → amount ≤ u64_max
    → u64_max < or_zero (get_balance id s) + amount
    → credit id amount bytes now s ≡ (err (overflow id (or_zero (get_balance id s)) amount), s)
unfolding credit get_balance
credit-overflow id amount bytes now s fits h = elim (Option-cases (lookup id s)) [
  | inl fresh ↦ absurd (ground arith)
  | inr (b, e) ↦ ground (arith, insert_same id b s e)
]

-- A credit succeeds exactly when the sum fits in 64 bits. It then returns the sum and stores it,
-- and leaves every other token alone; otherwise the sheet is unchanged and the error names the
-- token, its balance and the amount.
pub credit_lem :
    (id : TokenId) (amount : ℕ) (bytes : List ℕ) (now : ℕ) (s : BalanceSheet)
    → amount ≤ u64_max
    → let (r, s') = credit id amount bytes now s in
      let sum = or_zero (get_balance id s) + amount in
      (sum ≤ u64_max
        → (r ≡ ok sum)
          × ((j : TokenId) → get_balance j s' ≡ (if j == id then some sum else get_balance j s)))
      × (u64_max < sum → (r ≡ err (overflow id (or_zero (get_balance id s)) amount)) × (s' ≡ s))
credit_lem id amount bytes now s fits = (
  λ h. rw (credit-ok id amount bytes now s h) (refl, λ j. get_balance-insert j id _ s),
  λ h. rw (credit-overflow id amount bytes now s fits h) (refl, refl),
)

debit-ok :
    (id : TokenId) (amount : ℕ) (bytes : List ℕ) (now : ℕ) (s : BalanceSheet) (have : ℕ)
    → get_balance id s ≡ some have
    → amount ≤ have
    → (b : Balance) × (debit id amount bytes now s
        ≡ (ok (have - amount), insert id (updated b (have - amount) bytes now) s))
unfolding debit get_balance
debit-ok id amount bytes now s have h c = elim (Option-cases (lookup id s)) [
  | inl missing ↦ absurd (ground arith)
  | inr (b, e) ↦ (b, ground arith)
]

debit_refused :
    (id : TokenId) (amount : ℕ) (bytes : List ℕ) (now : ℕ) (s : BalanceSheet)
    → (get_balance id s ≡ none → debit id amount bytes now s ≡ (err (token_not_found id), s))
      × ((have : ℕ)
          → get_balance id s ≡ some have
          → have < amount
          → debit id amount bytes now s ≡ (err (insufficient_balance id have amount), s))
unfolding debit get_balance
debit_refused id amount bytes now s = (λ h. ground arith, λ have h less. ground arith)

-- A debit of a token with an entry succeeds when the balance covers the amount: it returns and
-- stores the difference, and leaves every other balance alone. Otherwise, and on a token without
-- an entry, it changes nothing and the error says what was missing.
pub debit_lem :
    (id : TokenId) (amount : ℕ) (bytes : List ℕ) (now : ℕ) (s : BalanceSheet)
    → let (r, s') = debit id amount bytes now s in
      (get_balance id s ≡ none → (r ≡ err (token_not_found id)) × (s' ≡ s))
      × ((have : ℕ)
          → get_balance id s ≡ some have
          → (amount ≤ have
              → (r ≡ ok (have - amount))
                × ((j : TokenId)
                    → get_balance j s'
                      ≡ (if j == id then some (have - amount) else get_balance j s)))
            × (have < amount → (r ≡ err (insufficient_balance id have amount)) × (s' ≡ s)))
debit_lem id amount bytes now s = (
  λ h. rw ((debit_refused id amount bytes now s).0 h) (refl, refl),
  λ have h. (
    λ c.
        let (b, e) = debit-ok id amount bytes now s have h c in
        rw e (refl, λ j. get_balance-insert j id _ s),
    λ c. rw ((debit_refused id amount bytes now s).1 have h c) (refl, refl),
  ),
)

pub credit-IsValid :
    (id : TokenId) (amount : ℕ) (bytes : List ℕ) (now : ℕ) (s : BalanceSheet)
    → amount ≤ u64_max
    → IsValid s
    → IsValid (credit id amount bytes now s).1
credit-IsValid id amount bytes now s fits h j =
    let (good, bad) = credit_lem id amount bytes now s fits in
    elim (dec_le (or_zero (get_balance id s) + amount) u64_max) [
      | yes c ↦ rw ((good c).1 j) (ground (arith, h j))
      | no c ↦ rw ((bad (omega arith)).1) (h j)
    ]

pub debit-IsValid :
    (id : TokenId) (amount : ℕ) (bytes : List ℕ) (now : ℕ) (s : BalanceSheet)
    → IsValid s
    → IsValid (debit id amount bytes now s).1
debit-IsValid id amount bytes now s h j = elim (Option-cases (get_balance id s)) [
  | inl missing ↦ rw ((debit_refused id amount bytes now s).0 missing) (h j)
  | inr (have, e) ↦ elim (dec_le amount have) [
    | yes c ↦
        rw ((((debit_lem id amount bytes now s).1 have e).0 c).1 j) (ground (arith, h j, h id))
    | no c ↦ rw ((debit_refused id amount bytes now s).1 have e (omega arith)) (h j)
  ]
]
