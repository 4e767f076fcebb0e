-- ===== src/Contracts/Escrow/Calls.antt =====
-- Sequences of calls on one escrow of contracts/src/credit_escrow.rs. The clock need not be monotone.
use nova_protocol.Common.{ℕ, Option, none, some, List, [], ◌∷◌}
use nova_protocol.Contracts.Escrow
use nova_protocol.Contracts.Escrow.{CreditEscrow}

pub data Call : Type 0 where
  fund release_to_borrower repay : ℕ → Call
  check_default dispute : Call

-- What a call leaves behind; a panicking one leaves the escrow alone.
unfoldable pub apply : (ℕ → ℕ → Option ℕ) → ℕ → Call → CreditEscrow → CreditEscrow
apply deadline now (fund amount) e = (Escrow.fund amount now e).1
apply deadline now (release_to_borrower amount) e = (Escrow.release_to_borrower amount now e).1
apply deadline now (repay amount) e = (Escrow.repay amount now e).1
apply deadline now check_default e = elim (Escrow.check_default deadline now e) [
  | none ↦ e
  | some (e', _) ↦ e'
]
apply deadline now dispute e = (Escrow.dispute now e).1

-- The calls, each with the instant at which it is made.
unfoldable pub run : (ℕ → ℕ → Option ℕ) → List (ℕ × Call) → CreditEscrow → CreditEscrow
run deadline [] e = e
run deadline ((now, c) ∷ cs) e = run deadline cs (apply deadline now c e)
