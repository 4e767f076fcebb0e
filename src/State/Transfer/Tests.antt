-- ===== src/State/Transfer/Tests.antt =====
-- The theorems about `apply_transfer` of protocol/src/storage/state.rs, with a map as the store.
use nova_protocol.Common.{◌+◌, ◌≡◌, refl, inl, inr, String, true, List, [], ◌∷◌, arith, string_key}
use nova_protocol.Common.Dict.{Dict, lookup, insert, lookup-insert}
use nova_protocol.State.{AccountState, SameAccount-refl, AccountStore, with_balance}
use nova_protocol.State.Transfer.{apply_transfer}
use nova_protocol.State.Transfer.Effect.{balance_of, apply_transfer_overflow}
use nova_protocol.State.Transfer.Conservation.{Transfer, total, run, run-total}

abbrev pub map_store : AccountStore
map_store = record {
  Tree = Dict String AccountState;
  get = lookup;
  put = insert;
  Known = λ _. Unit;
  get-put = λ a b s t _ _. (s, lookup-insert b a s t, SameAccount-refl s);
}

abbrev three : Dict String AccountState
three =
    ("alice", with_balance 30)
    ∷ ("bob", with_balance 18446744073709551600)
    ∷ ("carol", record (with_balance 5) { frozen = true })
    ∷ []

abbrev pub two : Dict String AccountState
two = ("alice", with_balance 30) ∷ ("bob", with_balance 5) ∷ []

abbrev names : List String
names = "alice" ∷ "bob" ∷ []

abbrev transfers : List Transfer
transfers =
    (record { sender = "alice"; receiver = "bob"; amount = 12 })
    ∷ (record { sender = "bob"; receiver = "bob"; amount = 3 })
    ∷ (record { sender = "bob"; receiver = "alice"; amount = 1000 })
    ∷ []

apply_transfer_overflow_example :
    let t' = (apply_transfer map_store "alice" "bob" 30 three).1 in
    balance_of map_store "alice" t' + balance_of map_store "bob" t' + 18446744073709551616
    ≡ balance_of map_store "alice" three + balance_of map_store "bob" three
unfolding lookup
apply_transfer_overflow_example =
    (apply_transfer_overflow map_store "alice" "bob" 30 three tt tt (λ e. cc) refl (omega arith)
      (omega arith) (omega arith) (omega arith)).1

run-total_example :
    total map_store names (run map_store names transfers two) ≡ total map_store names two
unfolding lookup
run-total_example =
    run-total map_store names transfers two (tt, (tt, tt)) ((λ e. cc, tt), (tt, tt))
      (
        (inl refl, inr (inl refl)),
        ((inr (inl refl), inr (inl refl)), ((inr (inl refl), inl refl), tt)),
      )
      (omega arith)
