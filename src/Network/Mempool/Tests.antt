-- ===== src/Network/Mempool/Tests.antt =====
-- The theorems about protocol/src/network/mempool.rs at a pool of two places.
use nova_protocol.Common.{ℕ, ◌≡◌, String, List, [], ◌∷◌, arith, length, take, string_key}
use nova_protocol.Transaction.{Transaction}
use nova_protocol.Transaction.Tests.{toy, here}
use nova_protocol.Network.Mempool.{MempoolConfig, new, add, select_transactions}
use nova_protocol.Network.Mempool.Operations.{IsValid}
use nova_protocol.Network.Mempool.Admission.{Admits, add-Admits}
use nova_protocol.Network.Mempool.Selection.{
  Call, call_add, call_remove, call_expire_old, run, run-IsValid, select_transactions_lem,
}

abbrev offer : String → String → ℕ → Transaction
offer id sender fee = record here { id = id; sender = sender; fee = fee }

abbrev pub config : MempoolConfig
config = record { max_size = 2; max_per_sender = 1; expiry_seconds = 60; min_fee = 10 }

abbrev pub calls : List (Call toy)
calls =
    call_add 100 (offer "x" "alice" 700)
    ∷ call_add 101 (offer "y" "alice" 900)
    ∷ call_add 102 (offer "y" "bob" 300)
    ∷ call_add 103 (offer "z" "carol" 500)
    ∷ call_expire_old 150
    ∷ call_remove "w"
    ∷ []

run-IsValid_example : IsValid toy (run toy calls (new config))
run-IsValid_example = run-IsValid toy config calls (omega arith) (omega arith)

pub valid : IsValid toy (run toy calls (new config))
valid = run-IsValid toy config calls (omega arith) (omega arith)

add-Admits_example :
    let m = run toy calls (new config) in
    let (r, m') = add toy 160 (offer "v" "dave" 900) m in
    Admits toy 160 (offer "v" "dave" 900) m.config m.transactions r m'.transactions
add-Admits_example =
    (add-Admits toy 160 (offer "v" "dave" 900) (run toy calls (new config)) valid (omega arith)).0

select_transactions_lem_example :
    let m = run toy calls (new config) in
    select_transactions 1 m ≡ take 1 (select_transactions (length m.transactions) m)
select_transactions_lem_example =
    (select_transactions_lem toy (run toy calls (new config)) valid).0 1
