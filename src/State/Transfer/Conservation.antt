-- ===== src/State/Transfer/Conservation.antt =====
-- Transfers of protocol/src/storage/state.rs neither make nor destroy money.
use native.Mathlib.Decide.{dec_lt}
use nova_protocol.Common.{
  IsDistinct, ℕ, ◌+◌, ◌≤◌, ◌≡◌, ◌≢◌, refl, sym, ◌∙◌, All-map, inl, inr, false, String, List, [],
  ◌∷◌, arith, u64_max, same_iff, ◌=?◌, string_key, Bool-cases, if◌then◌else◌, All, All-get, In,
  sum_of,
}
use nova_protocol.State.{AccountStore}
use nova_protocol.State.Transfer.{apply_transfer}
use nova_protocol.State.Transfer.Effect.{
  account, balance_of, apply_transfer_refused, apply_transfer_ok,
}

pub record Transfer : Type 0 where
  pub sender : String
  pub receiver : String
  pub amount : ℕ

abbrev at : String → ℕ → String → ℕ
at s amount a = if a =? s then amount else 0

sum-at_absent :
    (s : String) (amount : ℕ) (as_ : List String)
    → All (λ b. s ≢ b) as_
    → sum_of (at s amount) as_ ≡ 0
sum-at_absent s amount [] h = refl
sum-at_absent s amount (a ∷ as_) h = ground (arith, same_iff a s, sum-at_absent s amount as_ h.1)

sum-at :
    (s : String) (amount : ℕ) (as_ : List String)
    → IsDistinct as_
    → In s as_
    → sum_of (at s amount) as_ ≡ amount
sum-at s amount [] d m = absurd m
sum-at s amount (a ∷ as_) d (inl e) = ground (arith, same_iff a s, sum-at_absent a amount as_ d.0)
sum-at s amount (a ∷ as_) d (inr m) =
    ground (arith, same_iff a s, All-get (λ b. a ≢ b) s as_ d.0 m, sum-at s amount as_ d.1 m)

sum-add :
    (f g h k : String → ℕ) (as_ : List String)
    → All (λ a. f a + g a ≡ h a + k a) as_
    → sum_of f as_ + sum_of g as_ ≡ sum_of h as_ + sum_of k as_
sum-add f g h k [] e = refl
sum-add f g h k (a ∷ as_) e = omega (arith, e.0, sum-add f g h k as_ e.1)

le-sum : (f : String → ℕ) (a : String) (as_ : List String) → In a as_ → f a ≤ sum_of f as_
le-sum f a [] m = absurd m
le-sum f a (b ∷ as_) (inl e) = rw e (omega arith)
le-sum f a (b ∷ as_) (inr m) = omega (arith, le-sum f a as_ m)

pair-le-sum :
    (f : String → ℕ) (a b : String) (as_ : List String)
    → a ≢ b
    → In a as_
    → In b as_
    → f a + f b ≤ sum_of f as_
pair-le-sum f a b [] ne m n = absurd m
pair-le-sum f a b (c ∷ as_) ne (inl e) (inl e') = absurd (ne (e ∙ sym e'))
pair-le-sum f a b (c ∷ as_) ne (inl e) (inr n) = rw e (omega (arith, le-sum f b as_ n))
pair-le-sum f a b (c ∷ as_) ne (inr m) (inl e) = rw e (omega (arith, le-sum f a as_ m))
pair-le-sum f a b (c ∷ as_) ne (inr m) (inr n) = omega (arith, pair-le-sum f a b as_ ne m n)

module _ (store : AccountStore) (accounts : List String) where
  open store use {Tree, Known}

  abbrev pub total : Tree → ℕ
  total t = sum_of (λ a. balance_of store a t) accounts

  -- Both ends are among the accounts.
  abbrev pub IsInside : Transfer → Type 0
  IsInside x = In x.sender accounts × In x.receiver accounts

  pub perform : Transfer → Tree → Tree
  perform x t = (apply_transfer store x.sender x.receiver x.amount t).1

  -- Failed transfers are skipped.
  pub run : List Transfer → Tree → Tree
  run [] t = t
  run (x ∷ xs) t = run xs (perform x t)

  perform-total :
      (x : Transfer) (t : Tree)
      → All Known accounts
      → IsDistinct accounts
      → IsInside x
      → total t ≤ u64_max
      → total (perform x t) ≡ total t
  unfolding perform
  perform-total x t known distinct inside fits =
      let (frozen_case, short_case) = apply_transfer_refused store x.sender x.receiver x.amount t in
      elim (Bool-cases (account store x.sender t).frozen) [
        | inl frozen ↦ rw (frozen_case frozen, perform) refl
        | inr active ↦ elim (dec_lt (balance_of store x.sender t) x.amount) [
          | yes short ↦ rw (short_case active short, perform) refl
          | no covered ↦ moved active (omega arith)
        ]
      ]
    where
      bal : String → ℕ
      bal a = balance_of store a t

      room : x.amount ≤ bal x.sender → x.receiver ≢ x.sender → bal x.receiver + x.amount ≤ u64_max
      room covered ne =
          omega (arith, pair-le-sum bal x.receiver x.sender accounts ne inside.1 inside.0)

      moved :
          (account store x.sender t).frozen ≡ false
          → x.amount ≤ bal x.sender
          → total (apply_transfer store x.sender x.receiver x.amount t).1 ≡ total t
      moved active covered =
          let t' = (apply_transfer store x.sender x.receiver x.amount t).1 in
          let (done, effect) =
            apply_transfer_ok store x.sender x.receiver x.amount t
              (All-get Known x.sender accounts known inside.0)
              (All-get Known x.receiver accounts known inside.1) active covered
              (omega (arith, le-sum bal x.sender accounts inside.0)) (room covered) in
          omega (
            arith,
            sum-add (λ a. balance_of store a t') (at x.sender x.amount) bal (at x.receiver x.amount)
                accounts (All-map Known _ accounts (λ a ka. (effect a ka).0) known),
            sum-at x.sender x.amount accounts distinct inside.0,
            sum-at x.receiver x.amount accounts distinct inside.1,
          )

  -- Take different accounts known to the store, whose balances sum to at most 64 bits. After any
  -- transfers between them, refused ones included, the sum is the same: no money is made or lost,
  -- and no addition wraps.
  pub run-total :
      (xs : List Transfer) (t : Tree)
      → All Known accounts
      → IsDistinct accounts
      → All IsInside xs
      → total t ≤ u64_max
      → total (run xs t) ≡ total t
  unfolding run
  run-total [] t known distinct inside fits = refl
  run-total (x ∷ xs) t known distinct inside fits =
      let same = perform-total x t known distinct inside.0 fits in
      run-total xs (perform x t) known distinct inside.1 (omega (arith, same)) ∙ same
