-- ===== src/Contracts/Escrow/Lifecycle.antt =====
-- Which calls on an escrow of contracts/src/credit_escrow.rs succeed, and what they leave behind.
use nova_protocol.Common.{
  ℕ, ◌+◌, ◌-◌, ◌≤◌, ◌<◌, ◌≡◌, ◌≢◌, ◌⊎◌, ◌↔◌, refl, inl, String, u64_max, Option, List, [], ◌∷◌,
  arith,
}
use nova_protocol.Common.Exec.{Result, ok, err, panic}
use nova_protocol.Contracts.Escrow.{
  CreditTerms, create, CreditEscrow, EscrowError, EscrowStatus, pending, funded, active, completed,
  defaulted, disputed, amount_overflow, fund, release_to_borrower, repay, check_default, dispute,
}
use nova_protocol.Contracts.Escrow.Invariant.{IsValid}
use nova_protocol.Contracts.Escrow.Calls.{Call, apply, run}

-- A refused call changes nothing, and the reason is never an arithmetic overflow.
abbrev pub Refused : CreditEscrow → Result (Unit {0}) EscrowError × CreditEscrow → Type 0
Refused e (ok _, _) = Unit
Refused e (err x, e') = (e' ≡ e) × (x ≢ amount_overflow)
Refused e (panic, _) = ⊥

-- On a valid escrow a deposit is accepted exactly when the escrow is pending and the sum fits in
-- the principal; it is then recorded in full and only then completes the funding.
pub fund_lem :
    (amount now : ℕ) (e : CreditEscrow)
    → IsValid e
    → let (r, e') = fund amount now e in
      ((r ≡ ok tt) ↔ ((e.status ≡ pending) × (e.funded_amount + amount ≤ e.principal)))
      × Refused e (r, e')
      × (r ≡ ok tt
          → (e'.funded_amount ≡ e.funded_amount + amount)
            × ((e'.status ≡ funded) ↔ (e'.funded_amount ≡ e.principal)))
unfolding fund
fund_lem amount now e h = (ground arith, ground arith, ground arith)

-- On a valid escrow a release is accepted exactly when the escrow is funded or active and the
-- released sum stays within what was funded. It is then recorded in full and the escrow is active;
-- a refused one changes nothing and is never an overflow.
pub release_lem :
    (amount now : ℕ) (e : CreditEscrow)
    → IsValid e
    → let (r, e') = release_to_borrower amount now e in
      ((r ≡ ok tt) ↔ (
        ((e.status ≡ funded) ⊎ (e.status ≡ active))
        × (e.released_amount + amount ≤ e.funded_amount)))
      × Refused e (r, e')
      × (r ≡ ok tt → (e'.released_amount ≡ e.released_amount + amount) × (e'.status ≡ active))
unfolding release_to_borrower
release_lem amount now e h = (ground arith, ground arith, ground arith)

-- On a valid escrow a repayment is accepted exactly when the escrow is active and the repaid sum
-- stays within what is owed. It is then recorded in full, and the escrow is completed exactly when
-- all is repaid; a refused one changes nothing and is never an overflow.
pub repay_escrow_lem :
    (amount now : ℕ) (e : CreditEscrow)
    → IsValid e
    → let (r, e') = repay amount now e in
      ((r ≡ ok tt) ↔ ((e.status ≡ active) × (e.repaid_amount + amount ≤ e.terms.total_owed)))
      × Refused e (r, e')
      × (r ≡ ok tt
          → (e'.repaid_amount ≡ e.repaid_amount + amount)
            × ((e'.status ≡ completed) ↔ (e'.repaid_amount ≡ e.terms.total_owed)))
unfolding repay
repay_escrow_lem amount now e h = (ground arith, ground arith, ground arith)

abbrev pub IsFinal : CreditEscrow → Type 0
IsFinal e = (e.status ≡ completed) ⊎ (e.status ≡ defaulted) ⊎ (e.status ≡ disputed)

apply-IsFinal :
    (deadline : ℕ → ℕ → Option ℕ) (now : ℕ) (c : Call) (e : CreditEscrow)
    → IsFinal e
    → apply deadline now c e ≡ e
unfolding apply fund release_to_borrower repay check_default dispute
apply-IsFinal deadline now (Call.fund amount) e h = ground arith
apply-IsFinal deadline now (Call.release_to_borrower amount) e h = ground arith
apply-IsFinal deadline now (Call.repay amount) e h = ground arith
apply-IsFinal deadline now Call.check_default e h = ground arith
apply-IsFinal deadline now Call.dispute e h = ground arith

-- A completed, defaulted or disputed escrow is the same after any sequence of calls.
pub run-IsFinal :
    (deadline : ℕ → ℕ → Option ℕ) (cs : List (ℕ × Call)) (e : CreditEscrow)
    → IsFinal e
    → run deadline cs e ≡ e
unfolding run
run-IsFinal deadline [] e h = refl
run-IsFinal deadline ((now, c) ∷ cs) e h =
    rw (apply-IsFinal deadline now c e h) (run-IsFinal deadline cs e h)

paid :
    (now : ℕ) (e : CreditEscrow)
    → IsValid e
    → e.status ≡ active
    → e.released_amount < e.funded_amount
    → let e' = (repay (e.terms.total_owed - e.repaid_amount) now e).1 in
      (e'.status ≡ completed) × (e'.released_amount < e'.funded_amount)
unfolding repay
paid now e h s r = (ground arith, ground arith)

-- On a valid, active escrow whose principal is not fully released, repaying all that is owed
-- completes the escrow, and the rest of the principal can then never be released, whatever is
-- called.
pub early_repayment_strands :
    (deadline : ℕ → ℕ → Option ℕ) (now : ℕ) (cs : List (ℕ × Call)) (e : CreditEscrow)
    → IsValid e
    → e.status ≡ active
    → e.released_amount < e.funded_amount
    → let e' = (repay (e.terms.total_owed - e.repaid_amount) now e).1 in
      (e'.status ≡ completed)
      × ((run deadline cs e').released_amount < (run deadline cs e').funded_amount)
early_repayment_strands deadline now cs e h s r =
    let (done, less) = paid now e h s r in
    (
      done,
      rw (run-IsFinal deadline cs (repay (e.terms.total_owed - e.repaid_amount) now e).1 (inl done))
          less,
    )

-- The edges of the state diagram.
infix 40 ◌⟶◌
pub data ◌⟶◌ : EscrowStatus → EscrowStatus → Type 0 where
  stay : {s : EscrowStatus} → s ⟶ s
  fill : pending ⟶ funded
  start : funded ⟶ active
  settle : active ⟶ completed
  miss : active ⟶ defaulted
  freeze_pending : pending ⟶ disputed
  freeze_funded : funded ⟶ disputed
  freeze_active : active ⟶ disputed

ruleset edges = (stay, fill, start, settle, miss, freeze_pending, freeze_funded, freeze_active)

-- Every call, accepted or not, follows an edge of the diagram.
pub apply-⟶ :
    (deadline : ℕ → ℕ → Option ℕ) (now : ℕ) (c : Call) (e : CreditEscrow)
    → e.status ⟶ (apply deadline now c e).status
unfolding apply fund release_to_borrower repay check_default dispute
apply-⟶ deadline now (Call.fund amount) e = grind (arith, edges)
apply-⟶ deadline now (Call.release_to_borrower amount) e = grind (arith, edges)
apply-⟶ deadline now (Call.repay amount) e = grind (arith, edges)
apply-⟶ deadline now Call.check_default e = grind (arith, edges)
apply-⟶ deadline now Call.dispute e = grind (arith, edges)

-- With any terms whose principal and total owed fit in 64 bits, funding, releasing and repaying in
-- full completes the escrow, with the principal released and all that is owed repaid.
pub honest_run_completes :
    (deadline : ℕ → ℕ → Option ℕ) (id lender borrower : String) (terms : CreditTerms)
    (t₀ t₁ t₂ t₃ : ℕ)
    → terms.principal ≤ u64_max
    → terms.total_owed ≤ u64_max
    → let e =
        run deadline
          ((t₁, Call.fund terms.principal)
            ∷ (t₂, Call.release_to_borrower terms.principal)
            ∷ (t₃, Call.repay terms.total_owed)
            ∷ [])
          (create id lender borrower terms t₀) in
      (e.status ≡ completed)
      × (e.released_amount ≡ terms.principal)
      × (e.repaid_amount ≡ terms.total_owed)
unfolding run apply create fund release_to_borrower repay
honest_run_completes deadline id lender borrower terms t₀ t₁ t₂ t₃ hp ho = ground arith
