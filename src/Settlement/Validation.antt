-- ===== src/Settlement/Validation.antt =====
-- The stateless checks of protocol/src/ntp/settlement.rs.
use nova_protocol.Common.{ℕ, ◌≡◌, ◌↔◌, inl, inr, arith}
use nova_protocol.Common.Exec.{Result-cases, ok, err}
use nova_protocol.Transaction.{Transaction, Primitives}
use nova_protocol.Transaction.Verification.{TransactionError, missing_signature, verify_transaction}
use nova_protocol.Transaction.Checks.{verify_transaction_lem}
use nova_protocol.Settlement.{structural, rejected, stage_of, validate_transaction}

-- A transaction is passed on exactly when it is verified, and the second check for a signature never
-- refuses: what is refused carries the error of the first one, in the signature stage only where the
-- signature is wrong. A missing signature counts as structural.
pub validate_transaction_lem :
    (p : Primitives) (now_ms : ℕ) (tx : Transaction)
    → ((validate_transaction p now_ms tx ≡ ok tt) ↔ (verify_transaction p now_ms tx ≡ ok tt))
      × ((e : TransactionError)
          → verify_transaction p now_ms tx ≡ err e
          → validate_transaction p now_ms tx ≡ err (rejected e (stage_of e)))
      × (verify_transaction p now_ms tx ≡ err missing_signature
          → validate_transaction p now_ms tx ≡ err (rejected missing_signature structural))
unfolding validate_transaction
validate_transaction_lem p now_ms tx = (
  (
    λ h. elim (Result-cases (verify_transaction p now_ms tx)) [
      | inl (a, q) ↦ q
      | inr (inl q) ↦ absurd (ground (arith, q))
      | inr (inr (e, q)) ↦ absurd (ground (arith, q))
    ],
    λ h.
        let (_, (_, _, s), _) = (verify_transaction_lem p now_ms tx).0 h in
        let given = s.sig_given in ground (arith, h, given),
  ),
  λ e h. ground (arith, h),
  λ h. ground (arith, h),
)
