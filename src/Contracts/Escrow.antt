-- ===== src/Contracts/Escrow.antt =====
-- contracts/src/credit_escrow.rs: the escrow of a credit between a lender and a borrower.
-- Each method is an action on the record; `now` is the value of `Utc::now()` at the call, and
-- instants are numbers, since the contract only orders them.
pub mod Calls
pub mod Invariant
pub mod Lifecycle
mod Tests
use nova_protocol.Common.{
  ℕ, ◌+◌, ◌-◌, ◌≤◌, String, Bool, true, false, not, ◌&&◌, ◌||◌, Option, none, some, ltb, leb, ◌==◌,
  if◌then◌else◌, checked_add, checked_sub,
}
use nova_protocol.Common.Exec.{
  Result, ok, err, Exec, ◌>>=◌, ◌>>◌, get, put, raise, raise_if, or_raise,
}

pub data EscrowStatus : Type 0 where
  pending funded active completed disputed defaulted : EscrowStatus

pub data EscrowError : Type 0 where
  invalid_state : String → String → EscrowError
  amount_overflow : EscrowError
  overfunded : ℕ → ℕ → EscrowError
  insufficient_escrowed : ℕ → ℕ → EscrowError
  overpayment : ℕ → ℕ → EscrowError
  already_disputed : EscrowError

-- `Display for EscrowStatus`
abbrev pub to_string : EscrowStatus → String
to_string pending = "Pending"
to_string funded = "Funded"
to_string active = "Active"
to_string completed = "Completed"
to_string disputed = "Disputed"
to_string defaulted = "Defaulted"

pub record CreditTerms : Type 0 where
  pub principal : ℕ
  pub interest_rate_bps : ℕ
  pub total_owed : ℕ
  pub repayment_deadline : ℕ
  pub grace_period_secs : ℕ

pub record CreditEscrow : Type 0 where
  pub escrow_id : String
  pub lender : String
  pub borrower : String
  pub principal : ℕ
  pub funded_amount : ℕ
  pub released_amount : ℕ
  pub repaid_amount : ℕ
  pub terms : CreditTerms
  pub status : EscrowStatus
  pub created_at : ℕ
  pub updated_at : ℕ

abbrev pub is_pending : EscrowStatus → Bool
is_pending pending = true
is_pending _ = false

abbrev pub is_active : EscrowStatus → Bool
is_active active = true
is_active _ = false

abbrev pub is_funded : EscrowStatus → Bool
is_funded funded = true
is_funded _ = false

abbrev pub Method : Type 0
Method = Exec CreditEscrow (Unit {0}) EscrowError

-- `id` is the fresh UUID.
pub create : String → String → String → CreditTerms → ℕ → CreditEscrow
create id lender borrower terms now = record {
  escrow_id = id;
  lender = lender;
  borrower = borrower;
  principal = terms.principal;
  funded_amount = 0;
  released_amount = 0;
  repaid_amount = 0;
  terms = terms;
  status = pending;
  created_at = now;
  updated_at = now;
}

pub fund : ℕ → ℕ → Method
fund amount now = do
  e ← get
  raise_if (not (is_pending e.status)) (invalid_state (to_string e.status) "Pending")
  remaining ← or_raise (checked_sub e.principal e.funded_amount) amount_overflow
  raise_if (ltb remaining amount) (overfunded amount remaining)
  total ← or_raise (checked_add e.funded_amount amount) amount_overflow
  put (record e {
    funded_amount = total;
    status = if total == e.principal then funded else e.status;
    updated_at = now;
  })

pub release_to_borrower : ℕ → ℕ → Method
release_to_borrower amount now = do
  e ← get
  raise_if (not (is_funded e.status) && not (is_active e.status))
      (invalid_state (to_string e.status) "Funded or Active")
  available ← or_raise (checked_sub e.funded_amount e.released_amount) amount_overflow
  raise_if (ltb available amount) (insufficient_escrowed amount available)
  total ← or_raise (checked_add e.released_amount amount) amount_overflow
  put (record e { released_amount = total; status = active; updated_at = now })

pub repay : ℕ → ℕ → Method
repay amount now = do
  e ← get
  raise_if (not (is_active e.status)) (invalid_state (to_string e.status) "Active")
  outstanding ← or_raise (checked_sub e.terms.total_owed e.repaid_amount) amount_overflow
  raise_if (ltb outstanding amount) (overpayment amount outstanding)
  total ← or_raise (checked_add e.repaid_amount amount) amount_overflow
  put (record e {
    repaid_amount = total;
    status = if leb e.terms.total_owed total then completed else e.status;
    updated_at = now;
  })

-- `effective_deadline` stands for `repayment_deadline + Duration::seconds(grace_period_secs as i64)`,
-- which the date library computes; `none` is its panic on a date out of range.
pub check_default : (ℕ → ℕ → Option ℕ) → ℕ → CreditEscrow → Option (CreditEscrow × Bool)
check_default effective_deadline now e =
    if not (is_active e.status)
    then some (e, false)
    else elim (effective_deadline e.terms.repayment_deadline e.terms.grace_period_secs) [
      | none ↦ none
      | some deadline ↦
          if ltb deadline now && ltb e.repaid_amount e.terms.total_owed
          then some (record e { status = defaulted; updated_at = now }, true)
          else some (e, false)
    ]

dispute_guard : EscrowStatus → Option EscrowError
dispute_guard completed = some (invalid_state "Completed" "Pending, Funded, or Active")
dispute_guard defaulted = some (invalid_state "Defaulted" "Pending, Funded, or Active")
dispute_guard disputed = some already_disputed
dispute_guard _ = none

pub dispute : ℕ → Method
unfolding dispute_guard
dispute now e = elim (dispute_guard e.status) [
  | some x ↦ (err x, e)
  | none ↦ (ok tt, record e { status = disputed; updated_at = now })
]
