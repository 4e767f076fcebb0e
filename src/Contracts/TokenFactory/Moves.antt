-- ===== src/Contracts/TokenFactory/Moves.antt =====
-- What a mint and a burn of contracts/src/token_factory.rs do to each balance and each supply.
use nova_protocol.Common.{
  ℕ, ◌+◌, ◌-◌, ◌≤◌, ◌<◌, ◌≡◌, ◌≢◌, ◌↔◌, inl, inr, true, String, arith, u64_max, same_iff, ◌=?◌,
  string_key, if◌then◌else◌,
}
use nova_protocol.Common.Dict.{
  Dict, contains, lookup-insert, insert, lookup_or_zero, lookup_or_zero-insert,
  lookup_or_zero-le-total,
}
use nova_protocol.Common.Exec.{ok}
use nova_protocol.Contracts.TokenFactory.{
  TokenInfo, TokenFactory, mint, burn, balance_of, total_supply,
}
use nova_protocol.Contracts.TokenFactory.Supply.{
  IsBacked, find, Found, mint-cases, burn-cases, mint_missing, burn_missing, minted, burnt,
}

-- `amount` at one token, zero at the others; at one holder of it, zero at the others.
abbrev pub at_token : String → String → ℕ → ℕ
at_token id j amount = if j =? id then amount else 0

abbrev pub at_holder : String → String → String → String → ℕ → ℕ
at_holder id to j a amount = if j =? id then if a =? to then amount else 0 else 0

minted_moves :
    (id to : String) (amount : ℕ) (f : TokenFactory) (t : TokenInfo) (holders : Dict String ℕ)
    (j a : String)
    → Found id f t holders
    → let f' = minted id to amount t holders f in
      (balance_of j a f' ≡ balance_of j a f + at_holder id to j a amount)
      × (total_supply j f' ≡ total_supply j f + at_token id j amount)
unfolding balance_of total_supply
minted_moves id to amount f t holders j a h = (
  ground (
    arith,
    h,
    same_iff j id,
    same_iff a to,
    lookup-insert j id (insert to (lookup_or_zero to holders + amount) holders) f.balances,
    lookup_or_zero-insert a to (lookup_or_zero to holders + amount) holders,
  ),
  ground (
    arith,
    h,
    same_iff j id,
    lookup-insert j id (record t { total_supply = t.total_supply + amount }) f.tokens,
  ),
)

burnt_moves :
    (id from : String) (amount : ℕ) (f : TokenFactory) (t : TokenInfo) (holders : Dict String ℕ)
    (j a : String)
    → Found id f t holders
    → amount ≤ lookup_or_zero from holders
    → let f' = burnt id from amount t holders f in
      (balance_of j a f' + at_holder id from j a amount ≡ balance_of j a f)
      × (total_supply j f' + at_token id j amount ≡ total_supply j f)
unfolding balance_of total_supply
burnt_moves id from amount f t holders j a h covered = (
  ground (
    arith,
    h,
    same_iff j id,
    same_iff a from,
    lookup-insert j id (insert from (lookup_or_zero from holders - amount) holders) f.balances,
    lookup_or_zero-insert a from (lookup_or_zero from holders - amount) holders,
  ),
  ground (
    arith,
    h,
    same_iff j id,
    lookup_or_zero-le-total from holders,
    lookup-insert j id (record t { total_supply = t.total_supply - amount }) f.tokens,
  ),
)

-- In a factory whose supplies are the sums of the balances and fit in 64 bits, a mint is accepted
-- exactly when a signature is given, the token exists and its supply stays within 64 bits.
-- Accepted, it adds the amount to the recipient's balance and to the supply and changes no other;
-- refused, it changes nothing.
pub mint_lem :
    (id to : String) (amount : ℕ) (sig : String) (f : TokenFactory)
    → IsBacked f
    → let (r, f') = mint id to amount sig f in
      ((r ≡ ok tt)
        ↔ ((sig ≢ "") × (contains id f.tokens ≡ true) × (total_supply id f + amount ≤ u64_max)))
      × (r ≢ ok tt → f' ≡ f)
      × (r ≡ ok tt
          → (j a : String)
          → (balance_of j a f' ≡ balance_of j a f + at_holder id to j a amount)
            × (total_supply j f' ≡ total_supply j f + at_token id j amount))
unfolding contains total_supply
mint_lem id to amount sig f h = elim (find id f h) [
  | inl missing ↦
      let (refused, same) = mint_missing id to amount sig f missing in
      (ground arith, λ _. same, λ e. absurd (refused e))
  | inr (t, holders, found) ↦ elim (mint-cases id to amount sig f t holders found) [
    | inl (refused, same, why) ↦ (ground (arith, found), λ _. same, λ e. absurd (refused e))
    | inr (accepted, e, signed, fits) ↦ (
      ground (arith, found),
      λ no_. absurd (no_ accepted),
      λ _ j a. rw e (minted_moves id to amount f t holders j a found),
    )
  ]
]

-- In a factory whose supplies are the sums of the balances and fit in 64 bits, a burn of a
-- positive amount with a signature is accepted if the holder's balance covers it, and every burn
-- that is accepted has a signature and is covered. Accepted, it takes the amount off the holder's
-- balance and off the supply, which is never cut off at zero, and changes no other; refused, it
-- changes nothing.
pub burn_lem :
    (id from : String) (amount : ℕ) (sig : String) (f : TokenFactory)
    → IsBacked f
    → let (r, f') = burn id from amount sig f in
      ((0 < amount) × (amount ≤ balance_of id from f) × (sig ≢ "") → r ≡ ok tt)
      × (r ≡ ok tt → (amount ≤ balance_of id from f) × (sig ≢ ""))
      × (r ≢ ok tt → f' ≡ f)
      × (r ≡ ok tt
          → (j a : String)
          → (balance_of j a f' + at_holder id from j a amount ≡ balance_of j a f)
            × (total_supply j f' + at_token id j amount ≡ total_supply j f))
unfolding balance_of
burn_lem id from amount sig f h = elim (find id f h) [
  | inl missing ↦
      let (refused, same) = burn_missing id from amount sig f missing in
      (ground (arith, h id), λ e. absurd (refused e), λ _. same, λ e. absurd (refused e))
  | inr (t, holders, found) ↦ elim (burn-cases id from amount sig f t holders found) [
    | inl (refused, same, why) ↦
        (ground (arith, found), λ e. absurd (refused e), λ _. same, λ e. absurd (refused e))
    | inr (accepted, e, signed, covered) ↦ (
      λ _. accepted,
      λ _. ground (arith, found),
      λ no_. absurd (no_ accepted),
      λ _ j a. rw e (burnt_moves id from amount f t holders j a found covered),
    )
  ]
]
