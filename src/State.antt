-- ===== src/State.antt =====
-- protocol/src/storage/state.rs: account states, the tree that stores them, and transfers.
pub mod Smt
pub mod Transfer
pub mod Codec
use nova_protocol.Common.{
  ℕ, ◌≡◌, refl, String, Bool, false, length, Option, none, some, List, [], ◌=?◌, string_key,
  if◌then◌else◌,
}
use nova_protocol.Common.Dict.{Dict, lookup}

-- `balance_commitments` is a `HashMap` in the source, here the list of its entries in the order in
-- which it is iterated. The source does not fix that order: nothing rests on it but the bytes that
-- are written, and what is read back has the same entries, not always in the same order.
pub record AccountState : Type 0 where
  pub nonce : ℕ
  pub balance : ℕ
  pub balance_commitments : Dict String (List ℕ)
  pub credit_lines : List String
  pub frozen : Bool

-- Two account states that the source holds to be equal: the maps have the same entries.
pub record SameAccount (s t : AccountState) : Type 0 where
  pub same_nonce : s.nonce ≡ t.nonce
  pub same_balance : s.balance ≡ t.balance
  pub same_size : length s.balance_commitments ≡ length t.balance_commitments
  pub same_commitments :
      (k : String) → lookup k s.balance_commitments ≡ lookup k t.balance_commitments
  pub same_credit_lines : s.credit_lines ≡ t.credit_lines
  pub same_frozen : s.frozen ≡ t.frozen

pub SameAccount-refl : (s : AccountState) → SameAccount s s
SameAccount-refl s = record {
  same_nonce = refl;
  same_balance = refl;
  same_size = refl;
  same_commitments = λ k. refl;
  same_credit_lines = refl;
  same_frozen = refl;
}

-- `AccountState::default()`
abbrev pub default : AccountState
default = record {
  nonce = 0;
  balance = 0;
  balance_commitments = [];
  credit_lines = [];
  frozen = false;
}

-- `AccountState::with_balance`
abbrev pub with_balance : ℕ → AccountState
with_balance balance = record default { balance = balance }

-- `Option::unwrap_or_default`
abbrev pub unwrap_or_default : Option AccountState → AccountState
unwrap_or_default none = default
unwrap_or_default (some s) = s

-- What a transfer uses of the state tree: a map from addresses to states, on the addresses whose
-- keys in the tree differ. What is read back is equal to what was written, in the source's sense.
pub record AccountStore : Type 1 where
  pub Tree : Type 0
  pub get : String → Tree → Option AccountState
  pub put : String → AccountState → Tree → Tree
  pub Known : String → Type 0
  pub get-put :
      (a b : String) (s : AccountState) (t : Tree)
      → Known a
      → Known b
      → (s' : AccountState) × (get b (put a s t) ≡ (if b =? a then some s' else get b t))
        × SameAccount s s'
