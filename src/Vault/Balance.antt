-- ===== src/Vault/Balance.antt =====
-- protocol/src/vault/balance.rs: the token balances of one wallet. A token id is 32 bytes that are
-- only compared, so it is a number; `now` is the value of `Utc::now()` at the call.
pub mod Laws
pub mod History
mod Tests
use nova_protocol.Common.{
  ℕ, ◌-◌, Bool, not, Option, none, some, List, [], ◌∷◌, ltb, ◌==◌, checked_add, length, keep, map,
  nat_key,
}
use nova_protocol.Common.Dict.{Dict, lookup, insert, erase}
use nova_protocol.Common.Exec.{
  Result, ok, err, panic, Exec, ◌>>=◌, ◌>>◌, get, put, pure, raise_if, or_raise,
}

abbrev pub TokenId : Type 0
TokenId = ℕ

pub data BalanceError : Type 0 where
  insufficient_balance : TokenId → ℕ → ℕ → BalanceError
  overflow : TokenId → ℕ → ℕ → BalanceError
  token_not_found : TokenId → BalanceError

pub record Balance : Type 0 where
  pub token_id : TokenId
  pub amount : ℕ
  pub committed_amount : List ℕ
  pub last_updated : ℕ

-- `Balance::new`
abbrev pub new_balance : TokenId → ℕ → Balance
new_balance token_id now = record {
  token_id = token_id;
  amount = 0;
  committed_amount = [];
  last_updated = now;
}

abbrev pub is_zero : Balance → Bool
is_zero b = b.amount == 0

abbrev pub BalanceSheet : Type 0
BalanceSheet = Dict TokenId Balance

-- `BalanceSheet::new`
abbrev pub new : BalanceSheet
new = []

abbrev pub entry_or_new : TokenId → ℕ → BalanceSheet → Balance
entry_or_new token_id now s = elim (lookup token_id s) [
  | none ↦ new_balance token_id now
  | some b ↦ b
]

-- The entry that `or_insert_with` makes stays also where the addition then fails.
pub credit : TokenId → ℕ → List ℕ → ℕ → Exec BalanceSheet ℕ BalanceError
credit token_id amount commitment_bytes now = do
  s ← get
  let balance = entry_or_new token_id now s
  put (insert token_id balance s)
  new_amount ←
      or_raise (checked_add balance.amount amount) (overflow token_id balance.amount amount)
  put (
      insert token_id
        (record balance {
          amount = new_amount;
          committed_amount = commitment_bytes;
          last_updated = now;
        })
        s)
  pure new_amount

pub debit : TokenId → ℕ → List ℕ → ℕ → Exec BalanceSheet ℕ BalanceError
debit token_id amount new_commitment_bytes now = do
  s ← get
  balance ← or_raise (lookup token_id s) (token_not_found token_id)
  raise_if (ltb balance.amount amount) (insufficient_balance token_id balance.amount amount)
  put (
      insert token_id
        (record balance {
          amount = balance.amount - amount;
          committed_amount = new_commitment_bytes;
          last_updated = now;
        })
        s)
  pure (balance.amount - amount)

pub get_balance : TokenId → BalanceSheet → Option ℕ
get_balance token_id s = elim (lookup token_id s) [ none ↦ none | some b ↦ some b.amount ]

pub get_balance_record : TokenId → BalanceSheet → Option Balance
get_balance_record token_id s = lookup token_id s

-- The order of the pairs is that of the map, on which nothing rests.
pub all_balances : BalanceSheet → List (TokenId × ℕ)
all_balances s = map (λ e. (e.0, e.1.amount)) (keep (λ e. not (is_zero e.1)) s)

pub token_count : BalanceSheet → ℕ
token_count s = length s

pub remove_token : TokenId → BalanceSheet → Option Balance × BalanceSheet
remove_token token_id s = (lookup token_id s, erase token_id s)
