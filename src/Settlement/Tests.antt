-- ===== src/Settlement/Tests.antt =====
-- The theorems about protocol/src/ntp/settlement.rs at one settlement.
use nova_protocol.Common.{◌≡◌, true, List, [], ◌∷◌, arith}
use nova_protocol.Settlement.{confirmed, with_timeout, pending, check_timeout, is_terminal}
use nova_protocol.Settlement.Machine.{
  Call, call_validating, call_confirmed, call_timeout, run, ◌⟶⋆◌, run-⟶⋆, check_timeout_lem,
}

abbrev calls : List Call
calls =
    call_validating
    ∷ call_timeout 500
    ∷ call_confirmed (confirmed 7 "tx" "block" 0 900)
    ∷ call_timeout 90000
    ∷ []

run-⟶⋆_example : pending ⟶⋆ (run calls (with_timeout 0 "tx" "s" 30000)).state
run-⟶⋆_example = (run-⟶⋆ calls (with_timeout 0 "tx" "s" 30000)).0

check_timeout_lem_example :
    is_terminal (check_timeout 40000 (run (call_validating ∷ []) (with_timeout 0 "tx" "s" 30000))).1
    ≡ true
check_timeout_lem_example =
    (check_timeout_lem 40000 0 30000 "tx" "s" (call_validating ∷ [])).0 (omega arith)
