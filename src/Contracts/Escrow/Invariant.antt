-- ===== src/Contracts/Escrow/Invariant.antt =====
-- What holds of every escrow that contracts/src/credit_escrow.rs can produce.
use nova_protocol.Common.{ℕ, ◌≤◌, ◌<◌, ◌≡◌, String, Option, List, [], ◌∷◌, arith, u64_max}
use nova_protocol.Contracts.Escrow.{
  CreditTerms, CreditEscrow, pending, funded, active, completed, defaulted, create, fund,
  release_to_borrower, repay, check_default, dispute,
}
use nova_protocol.Contracts.Escrow.Calls.{Call, apply, run}

pub record IsValid (e : CreditEscrow) : Type 0 where
  pub principal_fits : e.principal ≤ u64_max
  pub owed_fits : e.terms.total_owed ≤ u64_max
  pub funded_within : e.funded_amount ≤ e.principal
  pub released_within : e.released_amount ≤ e.funded_amount
  pub repaid_within : e.repaid_amount ≤ e.terms.total_owed
  pub pending_idle : e.status ≡ pending → (e.released_amount ≡ 0) × (e.repaid_amount ≡ 0)
  pub funded_full :
      (e.status ≡ funded)
      → (e.funded_amount ≡ e.principal) × (e.released_amount ≡ 0) × (e.repaid_amount ≡ 0)
  pub active_full : e.status ≡ active → e.funded_amount ≡ e.principal
  pub completed_paid :
      e.status ≡ completed
      → (e.funded_amount ≡ e.principal) × (e.repaid_amount ≡ e.terms.total_owed)
  pub defaulted_owes : e.status ≡ defaulted → e.repaid_amount < e.terms.total_owed

pub create-IsValid_escrow :
    (id lender borrower : String) (terms : CreditTerms) (now : ℕ)
    → terms.principal ≤ u64_max
    → terms.total_owed ≤ u64_max
    → IsValid (create id lender borrower terms now)
unfolding create
create-IsValid_escrow id lender borrower terms now hp ho = ground arith

pub fund-IsValid : (amount now : ℕ) (e : CreditEscrow) → IsValid e → IsValid (fund amount now e).1
unfolding fund
fund-IsValid amount now e h = ground arith

pub release-IsValid :
    (amount now : ℕ) (e : CreditEscrow) → IsValid e → IsValid (release_to_borrower amount now e).1
unfolding release_to_borrower
release-IsValid amount now e h = ground arith

pub repay-IsValid : (amount now : ℕ) (e : CreditEscrow) → IsValid e → IsValid (repay amount now e).1
unfolding repay
repay-IsValid amount now e h = ground arith

pub apply-IsValid :
    (deadline : ℕ → ℕ → Option ℕ) (now : ℕ) (c : Call) (e : CreditEscrow)
    → IsValid e
    → IsValid (apply deadline now c e)
unfolding apply
apply-IsValid deadline now (Call.fund amount) e h = fund-IsValid amount now e h
apply-IsValid deadline now (Call.release_to_borrower amount) e h = release-IsValid amount now e h
apply-IsValid deadline now (Call.repay amount) e h = repay-IsValid amount now e h
apply-IsValid deadline now Call.check_default e h = unfold check_default in ground arith
apply-IsValid deadline now Call.dispute e h = unfold dispute in ground arith

-- Every sequence of calls, refused ones included, keeps a valid escrow valid.
pub run-IsValid_escrow :
    (deadline : ℕ → ℕ → Option ℕ) (cs : List (ℕ × Call)) (e : CreditEscrow)
    → IsValid e
    → IsValid (run deadline cs e)
unfolding run
run-IsValid_escrow deadline [] e h = h
run-IsValid_escrow deadline ((now, c) ∷ cs) e h =
    run-IsValid_escrow deadline cs (apply deadline now c e) (apply-IsValid deadline now c e h)
