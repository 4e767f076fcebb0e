-- ===== src/Contracts/TokenFactory/Supply.antt =====
-- The supply of each token of contracts/src/token_factory.rs against the balances of its holders.
use nova_protocol.Common.{
  ℕ, ◌+◌, ◌-◌, ◌≤◌, ◌<◌, ◌≡◌, ◌≢◌, ◌⊎◌, refl, inl, inr, Bool-cases, String, Option, none, some, [],
  arith, u64_max, same_iff, string_key,
}
use nova_protocol.Common.Dict.{
  Dict, contains, lookup, lookup-insert, insert, total, total-insert, lookup_or_zero,
  lookup_or_zero-le-total,
}
use nova_protocol.Common.Exec.{ok}
use nova_protocol.Contracts.TokenFactory.{
  TokenInfo, TokenFactory, TokenType, new, create_token, mint, burn,
}

-- A token and its table of holders exist together, and the supply is what the holders have.
abbrev pub Agree : Option TokenInfo → Option (Dict String ℕ) → Type 0
Agree none none = Unit
Agree (some t) (some holders) = (total holders ≡ t.total_supply) × (t.total_supply ≤ u64_max)
Agree _ _ = ⊥

abbrev pub Backed : Dict String TokenInfo → Dict String (Dict String ℕ) → Type 0
Backed tokens balances = (id : String) → Agree (lookup id tokens) (lookup id balances)

abbrev pub IsBacked : TokenFactory → Type 0
IsBacked f = Backed f.tokens f.balances

Backed-insert :
    (id : String) (t : TokenInfo) (holders : Dict String ℕ) (tokens : Dict String TokenInfo)
    (balances : Dict String (Dict String ℕ))
    → Backed tokens balances
    → total holders ≡ t.total_supply
    → t.total_supply ≤ u64_max
    → Backed (insert id t tokens) (insert id holders balances)
Backed-insert id t holders tokens balances h sum fits j =
    ground (arith, h j, lookup-insert j id t tokens, lookup-insert j id holders balances)

pub new-IsBacked : IsBacked new
unfolding new lookup
new-IsBacked id = tt

pub create_token-IsBacked :
    (to_uppercase : String → String) (id name symbol : String) (decimals : ℕ) (kind : TokenType)
    (issuer : String) (now : ℕ) (f : TokenFactory)
    → IsBacked f
    → IsBacked (create_token to_uppercase id name symbol decimals kind issuer now f).1
unfolding create_token total
create_token-IsBacked to_uppercase id name symbol decimals kind issuer now f h =
    elim (Bool-cases (contains (to_uppercase symbol) f.symbol_index)) [
      | inl taken ↦ rw taken h
      | inr free ↦ rw free (Backed-insert id _ [] f.tokens f.balances h refl (omega arith))
    ]

-- A token with its table of holders, as `id` finds them.
pub record Found (id : String) (f : TokenFactory) (t : TokenInfo) (holders : Dict String ℕ)
    : Type 0 where
  pub token : lookup id f.tokens ≡ some t
  pub table : lookup id f.balances ≡ some holders
  pub backed : total holders ≡ t.total_supply
  pub fits : t.total_supply ≤ u64_max

pub find :
    (id : String) (f : TokenFactory)
    → IsBacked f
    → (lookup id f.tokens ≡ none)
      ⊎ ((t : TokenInfo) × (holders : Dict String ℕ) × Found id f t holders)
find id f h = go (lookup id f.tokens) (lookup id f.balances) refl refl (h id)
  where
    go :
        (a : Option TokenInfo) (b : Option (Dict String ℕ))
        → lookup id f.tokens ≡ a
        → lookup id f.balances ≡ b
        → Agree a b
        → (lookup id f.tokens ≡ none)
          ⊎ ((t : TokenInfo) × (holders : Dict String ℕ) × Found id f t holders)
    go none b p q g = inl p
    go (some t) none p q g = absurd g
    go (some t) (some holders) p q g =
        inr (t, holders, record { token = p; table = q; backed = g.0; fits = g.1 })

-- What a mint leaves behind when it is accepted.
abbrev pub minted : String → String → ℕ → TokenInfo → Dict String ℕ → TokenFactory → TokenFactory
minted id to amount t holders f = record f {
  tokens = insert id (record t { total_supply = t.total_supply + amount }) f.tokens;
  balances = insert id (insert to (lookup_or_zero to holders + amount) holders) f.balances;
}

pub mint-cases :
    (id to : String) (amount : ℕ) (sig : String) (f : TokenFactory) (t : TokenInfo)
    (holders : Dict String ℕ)
    → Found id f t holders
    → let (r, f') = mint id to amount sig f in
      ((r ≢ ok tt) × (f' ≡ f) × ((sig ≡ "") ⊎ (u64_max < t.total_supply + amount)))
      ⊎ ((r ≡ ok tt)
          × (f' ≡ minted id to amount t holders f)
          × (sig ≢ "")
          × (t.total_supply + amount ≤ u64_max))
unfolding mint
mint-cases id to amount sig f t holders h =
    ground (arith, lookup_or_zero-le-total to holders, same_iff sig "")

-- What a burn leaves behind when it is accepted.
abbrev pub burnt : String → String → ℕ → TokenInfo → Dict String ℕ → TokenFactory → TokenFactory
burnt id from amount t holders f = record f {
  tokens = insert id (record t { total_supply = t.total_supply - amount }) f.tokens;
  balances = insert id (insert from (lookup_or_zero from holders - amount) holders) f.balances;
}

pub burn-cases :
    (id from : String) (amount : ℕ) (sig : String) (f : TokenFactory) (t : TokenInfo)
    (holders : Dict String ℕ)
    → Found id f t holders
    → let (r, f') = burn id from amount sig f in
      ((r ≢ ok tt)
        × (f' ≡ f)
        × ((sig ≡ "") ⊎ (amount ≡ 0) ⊎ (lookup_or_zero from holders < amount)))
      ⊎ ((r ≡ ok tt)
          × (f' ≡ burnt id from amount t holders f)
          × (sig ≢ "")
          × (amount ≤ lookup_or_zero from holders))
unfolding burn lookup_or_zero
burn-cases id from amount sig f t holders h =
    ground (arith, lookup_or_zero-le-total from holders, same_iff sig "")

pub mint_missing :
    (id to : String) (amount : ℕ) (sig : String) (f : TokenFactory)
    → lookup id f.tokens ≡ none
    → ((mint id to amount sig f).0 ≢ ok tt) × ((mint id to amount sig f).1 ≡ f)
unfolding mint
mint_missing id to amount sig f h = ground arith

pub burn_missing :
    (id from : String) (amount : ℕ) (sig : String) (f : TokenFactory)
    → lookup id f.tokens ≡ none
    → ((burn id from amount sig f).0 ≢ ok tt) × ((burn id from amount sig f).1 ≡ f)
unfolding burn
burn_missing id from amount sig f h = ground arith

pub mint-IsBacked :
    (id to : String) (amount : ℕ) (sig : String) (f : TokenFactory)
    → IsBacked f
    → IsBacked (mint id to amount sig f).1
mint-IsBacked id to amount sig f h = elim (find id f h) [
  | inl missing ↦ rw ((mint_missing id to amount sig f missing).1) h
  | inr (t, holders, found) ↦ elim (mint-cases id to amount sig f t holders found) [
    | inl (_, same, _) ↦ rw same h
    | inr (_, e, _, fits) ↦ rw e (
        Backed-insert id _ _ f.tokens f.balances h
          (omega (arith, found, total-insert to (lookup_or_zero to holders + amount) holders)) fits)
  ]
]

pub burn-IsBacked :
    (id from : String) (amount : ℕ) (sig : String) (f : TokenFactory)
    → IsBacked f
    → IsBacked (burn id from amount sig f).1
burn-IsBacked id from amount sig f h = elim (find id f h) [
  | inl missing ↦ rw ((burn_missing id from amount sig f missing).1) h
  | inr (t, holders, found) ↦ elim (burn-cases id from amount sig f t holders found) [
    | inl (_, same, _) ↦ rw same h
    | inr (_, e, _, covered) ↦ rw e (
        Backed-insert id _ _ f.tokens f.balances h
          (omega (
            arith,
            found,
            covered,
            total-insert from (lookup_or_zero from holders - amount) holders,
            lookup_or_zero-le-total from holders,
          ))
          (omega (arith, found)))
  ]
]
