-- ===== src/Contracts/TokenFactory.antt =====
-- contracts/src/token_factory.rs: tokens, their holders' balances and their total supplies. `now`
-- is the value of `Utc::now()`, and `to_uppercase` stands for Rust's Unicode upper-casing.
pub mod Supply
pub mod Moves
pub mod Symbols
pub mod Calls
mod Tests
use nova_protocol.Common.{
  ℕ, ◌+◌, ◌-◌, String, Option, none, some, [], Bool, ltb, checked_add, saturating_sub, ◌=?◌,
  string_key, if◌then◌else◌,
}
use nova_protocol.Common.Dict.{Dict, lookup, contains, insert, lookup_or_zero}
use nova_protocol.Common.Exec.{
  Result, ok, err, panic, Exec, ◌>>=◌, ◌>>◌, get, put, pure, raise_if, or_raise, unwrap,
}

pub data TokenError : Type 0 where
  token_not_found : String → TokenError
  unauthorized_mint invalid_signature : TokenError
  supply_overflow : ℕ → TokenError
  insufficient_balance : ℕ → ℕ → TokenError
  duplicate_symbol : String → TokenError

pub data TokenType : Type 0 where
  utility stablecoin governance reward : TokenType

pub record TokenInfo : Type 0 where
  pub token_id : String
  pub name : String
  pub symbol : String
  pub decimals : ℕ
  pub token_type : TokenType
  pub issuer : String
  pub total_supply : ℕ
  pub created_at : ℕ

pub record TokenFactory : Type 0 where
  pub tokens : Dict String TokenInfo
  pub balances : Dict String (Dict String ℕ)
  pub symbol_index : Dict String String

pub new : TokenFactory
new = record { tokens = []; balances = []; symbol_index = [] }

-- `id` is the fresh UUID.
pub create_token :
    (String → String)
    → String
    → String
    → String
    → ℕ
    → TokenType
    → String
    → ℕ
    → Exec TokenFactory String TokenError
create_token to_uppercase id name symbol decimals token_type issuer now = do
  f ← get
  let symbol_upper = to_uppercase symbol
  raise_if (contains symbol_upper f.symbol_index) (duplicate_symbol symbol)
  let info : TokenInfo = record {
    token_id = id;
    name = name;
    symbol = symbol_upper;
    decimals = decimals;
    token_type = token_type;
    issuer = issuer;
    total_supply = 0;
    created_at = now;
  }
  put (record {
    tokens = insert id info f.tokens;
    balances = insert id [] f.balances;
    symbol_index = insert symbol_upper id f.symbol_index;
  })
  pure id

pub mint : String → String → ℕ → String → Exec TokenFactory (Unit {0}) TokenError
mint token_id to amount issuer_signature = do
  raise_if (issuer_signature =? "") invalid_signature
  f ← get
  info ← or_raise (lookup token_id f.tokens) (token_not_found token_id)
  new_supply ← or_raise (checked_add info.total_supply amount) (supply_overflow amount)
  put (record f { tokens = insert token_id (record info { total_supply = new_supply }) f.tokens })
  g ← get
  holders ← unwrap (lookup token_id g.balances)
  let balance = lookup_or_zero to holders
  -- `entry(to).or_insert(0)` leaves its entry also where the addition then fails
  put (record g { balances = insert token_id (insert to balance holders) g.balances })
  credited ← or_raise (checked_add balance amount) (supply_overflow amount)
  put (record g { balances = insert token_id (insert to credited holders) g.balances })

pub burn : String → String → ℕ → String → Exec TokenFactory (Unit {0}) TokenError
burn token_id from amount owner_signature = do
  raise_if (owner_signature =? "") invalid_signature
  f ← get
  _ ← or_raise (lookup token_id f.tokens) (token_not_found token_id)
  holders ← or_raise (lookup token_id f.balances) (token_not_found token_id)
  balance ← or_raise (lookup from holders) (insufficient_balance 0 amount)
  raise_if (ltb balance amount) (insufficient_balance balance amount)
  put (record f { balances = insert token_id (insert from (balance - amount) holders) f.balances })
  g ← get
  info ← unwrap (lookup token_id g.tokens)
  put (record g {
    tokens =
        insert token_id (record info { total_supply = saturating_sub info.total_supply amount })
          g.tokens;
  })

pub total_supply : String → TokenFactory → ℕ
total_supply token_id f = elim (lookup token_id f.tokens) [ none ↦ 0 | some t ↦ t.total_supply ]

pub balance_of : String → String → TokenFactory → ℕ
balance_of token_id address f = elim (lookup token_id f.balances) [
  | none ↦ 0
  | some holders ↦ lookup_or_zero address holders
]
