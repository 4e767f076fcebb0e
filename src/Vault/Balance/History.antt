-- ===== src/Vault/Balance/History.antt =====
-- Sequences of credits, debits and removals on a sheet of protocol/src/vault/balance.rs.
use nova_protocol.Common.{
  ℕ, ◌+◌, ◌≤◌, ◌≡◌, refl, List, [], ◌∷◌, arith, u64_max, Option-cases, ◌==◌, if◌then◌else◌, All,
  inl, inr, none, some, same_iff, nat_key,
}
use native.Mathlib.Decide.{dec_le}
use nova_protocol.Common.Dict.{lookup-erase}
use nova_protocol.Common.Exec.{Result, ok, err, is_ok}
use nova_protocol.Vault.Balance
use nova_protocol.Vault.Balance.{BalanceSheet, BalanceError, TokenId, token_not_found, get_balance}
use nova_protocol.Vault.Balance.Laws.{
  or_zero, IsValid, credit_lem, debit_lem, credit-IsValid, debit-IsValid,
}

pub data Operation : Type 0 where
  credit debit : TokenId → ℕ → List ℕ → ℕ → Operation
  remove_token : TokenId → Operation

pub perform : Operation → BalanceSheet → Result ℕ BalanceError × BalanceSheet
perform (Operation.credit id amount bytes now) s = Balance.credit id amount bytes now s
perform (Operation.debit id amount bytes now) s = Balance.debit id amount bytes now s
perform (Operation.remove_token id) s =
    let (removed, s') = Balance.remove_token id s in
    (elim removed [ none ↦ err (token_not_found id) | some b ↦ ok b.amount ], s')

pub run : List Operation → BalanceSheet → BalanceSheet
run [] s = s
run (o ∷ os) s = run os (perform o s).1

abbrev pub amount_of : TokenId → BalanceSheet → ℕ
amount_of id s = or_zero (get_balance id s)

-- What an operation that succeeded brought in for a token, and what it took out of a sheet: a
-- removal takes all that there is.
abbrev pub incoming : TokenId → Operation → ℕ
incoming id (Operation.credit j amount bytes now) = if j == id then amount else 0
incoming id (Operation.debit j amount bytes now) = 0
incoming id (Operation.remove_token j) = 0

abbrev pub outgoing : TokenId → Operation → BalanceSheet → ℕ
outgoing id (Operation.credit j amount bytes now) s = 0
outgoing id (Operation.debit j amount bytes now) s = if j == id then amount else 0
outgoing id (Operation.remove_token j) s = if j == id then amount_of j s else 0

pub received : TokenId → List Operation → BalanceSheet → ℕ
received id [] s = 0
received id (o ∷ os) s =
    (if is_ok (perform o s).0 then incoming id o else 0) + received id os (perform o s).1

pub spent : TokenId → List Operation → BalanceSheet → ℕ
spent id [] s = 0
spent id (o ∷ os) s =
    (if is_ok (perform o s).0 then outgoing id o s else 0) + spent id os (perform o s).1

-- Amounts are `u64` arguments.
abbrev pub IsWord : Operation → Type 0
IsWord (Operation.credit id amount bytes now) = amount ≤ u64_max
IsWord (Operation.debit id amount bytes now) = amount ≤ u64_max
IsWord (Operation.remove_token id) = Unit

removal_takes :
    (id j : TokenId) (s : BalanceSheet)
    → amount_of id (perform (Operation.remove_token j) s).1
        + (if is_ok (perform (Operation.remove_token j) s).0
            then if j == id then amount_of j s else 0
            else 0)
      ≡ amount_of id s
unfolding perform get_balance Balance.remove_token
removal_takes id j s = ground (arith, lookup-erase id j s, same_iff id j, same_iff j id)

perform_balances :
    (id : TokenId) (o : Operation) (s : BalanceSheet)
    → IsWord o
    → amount_of id (perform o s).1 + (if is_ok (perform o s).0 then outgoing id o s else 0)
      ≡ amount_of id s + (if is_ok (perform o s).0 then incoming id o else 0)
unfolding perform
perform_balances id (Operation.credit j amount bytes now) s fits =
    let (good, bad) = credit_lem j amount bytes now s fits in
    elim (dec_le (amount_of j s + amount) u64_max) [
      | yes c ↦ rw ((good c).0, (good c).1 id) (ground arith)
      | no c ↦ rw ((bad (omega arith)).0, (bad (omega arith)).1) (omega arith)
    ]
perform_balances id (Operation.debit j amount bytes now) s fits =
    elim (Option-cases (get_balance j s)) [
      | inl missing ↦
          let (r, same) = (debit_lem j amount bytes now s).0 missing in rw (r, same) (omega arith)
      | inr (have, e) ↦
          let (good, bad) = (debit_lem j amount bytes now s).1 have e in
          elim (dec_le amount have) [
            | yes c ↦ rw ((good c).0, (good c).1 id) (ground arith)
            | no c ↦ rw ((bad (omega arith)).0, (bad (omega arith)).1) (omega arith)
          ]
    ]
perform_balances id (Operation.remove_token j) s fits = ground (arith, removal_takes id j s)

-- After any credits, debits and removals of tokens, failed ones included, whose amounts fit in 64
-- bits, the balance of a token, 0 if it has no entry, is what it was, plus what the accepted credits
-- brought, less what the accepted debits took and the balances that were removed with the token.
pub run_balances :
    (id : TokenId) (os : List Operation) (s : BalanceSheet)
    → All IsWord os
    → amount_of id (run os s) + spent id os s ≡ amount_of id s + received id os s
unfolding run spent received
run_balances id [] s h = refl
run_balances id (o ∷ os) s h =
    omega (arith, perform_balances id o s h.0, run_balances id os (perform o s).1 h.1)

perform-IsValid :
    (o : Operation) (s : BalanceSheet) → IsWord o → IsValid s → IsValid (perform o s).1
unfolding perform
perform-IsValid (Operation.credit j amount bytes now) s fits h =
    credit-IsValid j amount bytes now s fits h
perform-IsValid (Operation.debit j amount bytes now) s fits h = debit-IsValid j amount bytes now s h
perform-IsValid (Operation.remove_token j) s fits h =
    λ id. omega (arith, removal_takes id j s, h id)

-- If every balance fits in 64 bits, so it does after any operations whose amounts do.
pub run-IsValid_sheet :
    (os : List Operation) (s : BalanceSheet) → All IsWord os → IsValid s → IsValid (run os s)
unfolding run
run-IsValid_sheet [] s w h = h
run-IsValid_sheet (o ∷ os) s w h =
    run-IsValid_sheet os (perform o s).1 w.1 (perform-IsValid o s w.0 h)
