-- ===== src/Contracts/TokenFactory/Symbols.antt =====
-- The symbol index of contracts/src/token_factory.rs: no two tokens share a symbol.
use nova_protocol.Common.{
  ℕ, ◌≡◌, inl, inr, refl, String, none, some, List, [], ◌∷◌, arith, same_iff, string_key,
}
use nova_protocol.Common.Dict.{Dict, lookup, lookup-insert, insert, contains}
use nova_protocol.Contracts.TokenFactory.{
  TokenInfo, TokenFactory, TokenType, new, create_token, mint, burn,
}
use nova_protocol.Contracts.TokenFactory.Calls
use nova_protocol.Contracts.TokenFactory.Calls.{Call, apply, run}
use nova_protocol.Contracts.TokenFactory.Supply.{
  IsBacked, new-IsBacked, find, mint-cases, burn-cases, mint_missing, burn_missing,
}

abbrev pub Indexed : Dict String TokenInfo → Dict String String → Type 0
Indexed tokens symbols =
    (id : String) (t : TokenInfo) → lookup id tokens ≡ some t → lookup t.symbol symbols ≡ some id

abbrev pub IsIndexed : TokenFactory → Type 0
IsIndexed f = Indexed f.tokens f.symbol_index

-- Overwriting a token by one of the same symbol keeps the index.
Indexed-update :
    (id : String) (t u : TokenInfo) (tokens : Dict String TokenInfo) (symbols : Dict String String)
    → lookup id tokens ≡ some t
    → u.symbol ≡ t.symbol
    → Indexed tokens symbols
    → Indexed (insert id u tokens) symbols
Indexed-update id t u tokens symbols found same h j v e =
    ground (arith, same_iff j id, lookup-insert j id u tokens, h j v, h id t found)

create_token-IsIndexed :
    (to_uppercase : String → String) (id name symbol : String) (decimals : ℕ) (kind : TokenType)
    (issuer : String) (now : ℕ) (f : TokenFactory)
    → lookup id f.tokens ≡ none
    → IsIndexed f
    → IsIndexed (create_token to_uppercase id name symbol decimals kind issuer now f).1
unfolding create_token contains
create_token-IsIndexed to_uppercase id name symbol decimals kind issuer now f fresh h j v e =
    ground (
      arith,
      same_iff j id,
      same_iff v.symbol (to_uppercase symbol),
      h j v,
      lookup-insert v.symbol (to_uppercase symbol) id f.symbol_index,
      lookup-insert j id
          (record {
            token_id = id;
            name = name;
            symbol = to_uppercase symbol;
            decimals = decimals;
            token_type = kind;
            issuer = issuer;
            total_supply = 0;
            created_at = now;
          })
          f.tokens,
    )

mint-IsIndexed :
    (id to : String) (amount : ℕ) (sig : String) (f : TokenFactory)
    → IsBacked f
    → IsIndexed f
    → IsIndexed (mint id to amount sig f).1
mint-IsIndexed id to amount sig f b h = elim (find id f b) [
  | inl missing ↦ rw ((mint_missing id to amount sig f missing).1) h
  | inr (t, holders, found) ↦ elim (mint-cases id to amount sig f t holders found) [
    | inl (_, same, _) ↦ rw same h
    | inr (_, e, _, _) ↦ rw e (Indexed-update id t _ f.tokens f.symbol_index found.token refl h)
  ]
]

burn-IsIndexed :
    (id from : String) (amount : ℕ) (sig : String) (f : TokenFactory)
    → IsBacked f
    → IsIndexed f
    → IsIndexed (burn id from amount sig f).1
burn-IsIndexed id from amount sig f b h = elim (find id f b) [
  | inl missing ↦ rw ((burn_missing id from amount sig f missing).1) h
  | inr (t, holders, found) ↦ elim (burn-cases id from amount sig f t holders found) [
    | inl (_, same, _) ↦ rw same h
    | inr (_, e, _, _) ↦ rw e (Indexed-update id t _ f.tokens f.symbol_index found.token refl h)
  ]
]

module _ (to_uppercase : String → String) where
  abbrev pub FreshCall : Call → TokenFactory → Type 0
  FreshCall (Call.create_token id name symbol decimals kind issuer now) f =
      lookup id f.tokens ≡ none
  FreshCall _ f = Unit

  -- Each UUID drawn in a run is new, which is what `Uuid::new_v4` is used for.
  abbrev pub Fresh : List Call → TokenFactory → Type 0
  Fresh [] f = Unit
  Fresh (c ∷ cs) f = FreshCall c f × Fresh cs (apply to_uppercase c f)

  apply-IsIndexed :
      (c : Call) (f : TokenFactory)
      → FreshCall c f
      → IsBacked f
      → IsIndexed f
      → IsIndexed (apply to_uppercase c f)
  unfolding apply
  apply-IsIndexed (Call.create_token id name symbol decimals kind issuer now) f fresh b h =
      create_token-IsIndexed to_uppercase id name symbol decimals kind issuer now f fresh h
  apply-IsIndexed (Call.mint id to amount sig) f _ b h = mint-IsIndexed id to amount sig f b h
  apply-IsIndexed (Call.burn id from amount sig) f _ b h = burn-IsIndexed id from amount sig f b h

  run-IsIndexed :
      (cs : List Call) (f : TokenFactory)
      → Fresh cs f
      → IsBacked f
      → IsIndexed f
      → IsIndexed (run to_uppercase cs f)
  unfolding run
  run-IsIndexed [] f fresh b h = h
  run-IsIndexed (c ∷ cs) f fresh b h =
      run-IsIndexed cs (apply to_uppercase c f) fresh.1 (Calls.apply-IsBacked to_uppercase c f b)
        (apply-IsIndexed c f fresh.0 b h)

new-IsIndexed : IsIndexed new
unfolding new lookup
new-IsIndexed id t e = cc

-- In a factory reached from the empty one with fresh identifiers, two tokens of the same symbol are
-- one token.
pub symbols_unique :
    (to_uppercase : String → String) (cs : List Call)
    → Fresh to_uppercase cs new
    → (i j : String) (t u : TokenInfo) → lookup i (run to_uppercase cs new).tokens ≡ some t
    → lookup j (run to_uppercase cs new).tokens ≡ some u
    → t.symbol ≡ u.symbol
    → i ≡ j
symbols_unique to_uppercase cs fresh i j t u p q s =
    let h = run-IsIndexed to_uppercase cs new fresh new-IsBacked new-IsIndexed in
    cc (h i t p, h j u q)
