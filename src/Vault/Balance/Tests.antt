-- ===== src/Vault/Balance/Tests.antt =====
-- The theorems about protocol/src/vault/balance.rs at a sheet of two tokens.
use nova_protocol.Common.{◌+◌, ◌≡◌, refl, some, List, [], ◌∷◌, arith}
use nova_protocol.Common.Dict.{lookup}
use nova_protocol.Vault.Balance.{BalanceSheet, get_balance}
use nova_protocol.Vault.Balance.Laws.{IsValid}
use nova_protocol.Vault.Balance.History.{Operation, run, spent, received, amount_of, run_balances}

abbrev sheet : BalanceSheet
sheet =
    (1, record { token_id = 1; amount = 70; committed_amount = []; last_updated = 3 })
    ∷ (2, record { token_id = 2; amount = 5; committed_amount = 9 ∷ []; last_updated = 4 })
    ∷ []

abbrev operations : List Operation
operations =
    Operation.credit 1 30 [] 5
    ∷ Operation.debit 2 6 [] 6
    ∷ Operation.debit 1 100 (8 ∷ []) 7
    ∷ Operation.remove_token 1
    ∷ Operation.remove_token 4
    ∷ Operation.credit 3 1 [] 8
    ∷ Operation.credit 1 9 [] 10
    ∷ []

sheet-IsValid : IsValid sheet
unfolding get_balance lookup
sheet-IsValid id = ground arith

held : get_balance 1 sheet ≡ some 70
unfolding get_balance lookup
held = refl

run_balances_example :
    amount_of 1 (run operations sheet) + spent 1 operations sheet
    ≡ amount_of 1 sheet + received 1 operations sheet
run_balances_example =
    run_balances 1 operations sheet
      (omega arith, (omega arith, (omega arith, (tt, (tt, (omega arith, (omega arith, tt)))))))
