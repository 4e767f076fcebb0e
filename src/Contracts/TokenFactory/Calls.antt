-- ===== src/Contracts/TokenFactory/Calls.antt =====
-- Sequences of calls on the factory of contracts/src/token_factory.rs, with what they mint and burn.
use nova_protocol.Common.{
  ℕ, ◌≤◌, ◌≡◌, String, List, [], ◌∷◌, arith, u64_max, none, some, string_key,
}
use nova_protocol.Common.Dict.{lookup, total}
use nova_protocol.Contracts.TokenFactory
use nova_protocol.Contracts.TokenFactory.{
  TokenFactory, TokenType, TokenError, new, total_supply, balance_of,
}
use nova_protocol.Contracts.TokenFactory.Supply.{
  IsBacked, new-IsBacked, create_token-IsBacked, mint-IsBacked, burn-IsBacked,
}

pub data Call : Type 0 where
  create_token : String → String → String → ℕ → TokenType → String → ℕ → Call
  mint burn : String → String → ℕ → String → Call

module _ (to_uppercase : String → String) where
  unfoldable pub apply : Call → TokenFactory → TokenFactory
  apply (create_token id name symbol decimals kind issuer now) f =
      (TokenFactory.create_token to_uppercase id name symbol decimals kind issuer now f).1
  apply (mint id to amount sig) f = (TokenFactory.mint id to amount sig f).1
  apply (burn id from amount sig) f = (TokenFactory.burn id from amount sig f).1

  unfoldable pub run : List Call → TokenFactory → TokenFactory
  run [] f = f
  run (c ∷ cs) f = run cs (apply c f)

  pub apply-IsBacked : (c : Call) (f : TokenFactory) → IsBacked f → IsBacked (apply c f)
  unfolding apply
  apply-IsBacked (create_token id name symbol decimals kind issuer now) f h =
      create_token-IsBacked to_uppercase id name symbol decimals kind issuer now f h
  apply-IsBacked (mint id to amount sig) f h = mint-IsBacked id to amount sig f h
  apply-IsBacked (burn id from amount sig) f h = burn-IsBacked id from amount sig f h

  pub run-IsBacked : (cs : List Call) (f : TokenFactory) → IsBacked f → IsBacked (run cs f)
  unfolding run
  run-IsBacked [] f h = h
  run-IsBacked (c ∷ cs) f h = run-IsBacked cs (apply c f) (apply-IsBacked c f h)

-- The sum of all balances of a token.
pub holdings : String → TokenFactory → ℕ
holdings id f = elim (lookup id f.balances) [ none ↦ 0 | some holders ↦ total holders ]

pub holdings-eq-total_supply :
    (id : String) (f : TokenFactory)
    → IsBacked f
    → (holdings id f ≡ total_supply id f) × (total_supply id f ≤ u64_max)
unfolding holdings total_supply
holdings-eq-total_supply id f h = ground (arith, h id)

-- Whatever is called on a new factory, the balances of every token sum to its supply, which fits in
-- 64 bits.
pub run-conserves :
    (to_uppercase : String → String) (cs : List Call) (id : String)
    → let f = run to_uppercase cs new in
      (holdings id f ≡ total_supply id f) × (total_supply id f ≤ u64_max)
run-conserves to_uppercase cs id =
    holdings-eq-total_supply id (run to_uppercase cs new)
      (run-IsBacked to_uppercase cs new new-IsBacked)
