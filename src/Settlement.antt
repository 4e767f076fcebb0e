-- ===== src/Settlement.antt =====
-- protocol/src/ntp/settlement.rs: the validation of a transaction and the state machine that tracks
-- its settlement. The values of the clocks are arguments in milliseconds, and a reason is the error
-- itself in place of its text.
pub mod Machine
pub mod Validation
mod Tests
use nova_protocol.Common.{
  ℕ, ◌+◌, ◌-◌, String, Bool, true, false, Option, none, some, List, [], ◌∷◌, leb, if◌then◌else◌,
}
use nova_protocol.Common.Exec.{Result, ok, err, panic}
use nova_protocol.Transaction.{Transaction, Primitives, fee_per_byte}
use nova_protocol.Transaction.Verification.{
  TransactionError, missing_signature, invalid_signature, verify_transaction, is_none,
}

pub data ValidationStage : Type 0 where
  structural signature zkp_verification state_transition : ValidationStage

pub data SettlementResult : Type 0 where
  confirmed : ℕ → String → String → ℕ → ℕ → SettlementResult
  rejected : TransactionError → ValidationStage → SettlementResult
  timed_out : ℕ → ℕ → SettlementResult

pub record ValidationRequest : Type 0 where
  pub transaction : Transaction
  pub session_id : Option String
  pub received_at : ℕ
  pub priority_score : ℕ

-- `ValidationRequest::new`
abbrev pub new_request : Primitives → ℕ → Transaction → Option String → ValidationRequest
new_request p now_ms tx session_id = record {
  transaction = tx;
  session_id = session_id;
  received_at = now_ms;
  priority_score = fee_per_byte p tx;
}

abbrev pub stage_of : TransactionError → ValidationStage
stage_of (invalid_signature _) = signature
stage_of _ = structural

unfoldable pub validate_transaction :
    Primitives → ℕ → Transaction → Result (Unit {0}) SettlementResult
validate_transaction p now_ms tx = elim (verify_transaction p now_ms tx) [
  | err e ↦ err (rejected e (stage_of e))
  | panic ↦ panic
  | ok _ ↦ if is_none tx.signature then err (rejected missing_signature signature) else ok tt
]

pub data SettlementState : Type 0 where
  pending validating expired : SettlementState
  settled refused : SettlementResult → SettlementState

pub record SettlementStateMachine : Type 0 where
  pub state : SettlementState
  pub tx_hash : String
  pub session_id : String
  pub started_at : ℕ
  pub timeout_ms : ℕ

abbrev pub with_timeout : ℕ → String → String → ℕ → SettlementStateMachine
with_timeout now tx_hash session_id timeout_ms = record {
  state = pending;
  tx_hash = tx_hash;
  session_id = session_id;
  started_at = now;
  timeout_ms = timeout_ms;
}

-- `SettlementStateMachine::new`, with `config::FINALITY_TIMEOUT`.
abbrev pub new : ℕ → String → String → SettlementStateMachine
new now tx_hash session_id = with_timeout now tx_hash session_id 30000

unfoldable pub mark_validating : SettlementStateMachine → SettlementStateMachine
mark_validating m = elim m.state [ pending ↦ record m { state = validating } | _ ↦ m ]

unfoldable pub mark_confirmed : SettlementResult → SettlementStateMachine → SettlementStateMachine
mark_confirmed result m = elim m.state [
  | pending ↦ record m { state = settled result }
  | validating ↦ record m { state = settled result }
  | _ ↦ m
]

unfoldable pub mark_rejected : SettlementResult → SettlementStateMachine → SettlementStateMachine
mark_rejected result m = elim m.state [
  | pending ↦ record m { state = refused result }
  | validating ↦ record m { state = refused result }
  | _ ↦ m
]

abbrev pub elapsed_ms : ℕ → SettlementStateMachine → ℕ
elapsed_ms now m = now - m.started_at

abbrev pub when_open : ℕ → SettlementStateMachine → Option SettlementResult × SettlementStateMachine
when_open now m =
    if leb m.timeout_ms (elapsed_ms now m)
    then (some (timed_out (elapsed_ms now m) m.timeout_ms), record m { state = expired })
    else (none, m)

unfoldable pub check_timeout :
    ℕ → SettlementStateMachine → Option SettlementResult × SettlementStateMachine
check_timeout now m = elim m.state [
  | pending ↦ when_open now m
  | validating ↦ when_open now m
  | _ ↦ (none, m)
]

unfoldable pub result : SettlementStateMachine → Option SettlementResult
result m = elim m.state [ settled r ↦ some r | refused r ↦ some r | _ ↦ none ]

unfoldable pub is_terminal : SettlementStateMachine → Bool
is_terminal m = elim m.state [
  | pending ↦ false
  | validating ↦ false
  | expired ↦ true
  | settled _ ↦ true
  | refused _ ↦ true
]
