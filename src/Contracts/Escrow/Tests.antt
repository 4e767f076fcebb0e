-- ===== src/Contracts/Escrow/Tests.antt =====
-- The theorems about contracts/src/credit_escrow.rs at concrete escrows.
use nova_protocol.Common.{ℕ, ◌+◌, ◌≡◌, refl, Option, some, List, [], ◌∷◌, arith}
use nova_protocol.Contracts.Escrow.{CreditTerms, CreditEscrow, pending, active, completed, repay}
use nova_protocol.Contracts.Escrow.Calls.{Call, run}
use nova_protocol.Contracts.Escrow.Invariant.{IsValid, run-IsValid_escrow}
use nova_protocol.Contracts.Escrow.Lifecycle.{early_repayment_strands}

abbrev terms : CreditTerms
terms = record {
  principal = 100;
  interest_rate_bps = 500;
  total_owed = 105;
  repayment_deadline = 1000;
  grace_period_secs = 10;
}

abbrev half_funded : CreditEscrow
half_funded = record {
  escrow_id = "e1";
  lender = "l";
  borrower = "b";
  principal = 100;
  funded_amount = 60;
  released_amount = 0;
  repaid_amount = 0;
  terms = terms;
  status = pending;
  created_at = 1;
  updated_at = 2;
}

abbrev running : CreditEscrow
running = record half_funded {
  funded_amount = 100;
  released_amount = 30;
  repaid_amount = 5;
  status = active;
}

abbrev paid_off : CreditEscrow
paid_off = record running { repaid_amount = 105; status = completed }

abbrev deadline : ℕ → ℕ → Option ℕ
deadline date grace = some (date + grace)

abbrev calls : List (ℕ × Call)
calls = (3, Call.fund 40) ∷ (4, Call.release_to_borrower 7) ∷ (2000, Call.check_default) ∷ []

half_funded-IsValid : IsValid half_funded
half_funded-IsValid = ground arith

running-IsValid : IsValid running
running-IsValid = ground arith

run-IsValid_escrow_example : IsValid (run deadline calls half_funded)
run-IsValid_escrow_example = run-IsValid_escrow deadline calls half_funded half_funded-IsValid

early_repayment_strands_example : (repay 100 3 running).1.status ≡ completed
early_repayment_strands_example =
    (early_repayment_strands deadline 3 calls running running-IsValid refl (omega arith)).0
