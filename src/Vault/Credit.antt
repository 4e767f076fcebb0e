-- ===== src/Vault/Credit.antt =====
-- protocol/src/vault/credit.rs: one credit line. A line id is a UUID that is only compared, so it is
-- a number; `now` is the value of `Utc::now()` at the call. The two methods that return floats or
-- text for display are left out.
pub mod Line
pub mod Manager
pub mod Selection
pub mod Draws
pub mod Rates
mod Tests
use nova_protocol.Common.{
  ℕ, ◌+◌, ◌-◌, ◌*◌, String, Bool, true, false, not, Option, none, some, ltb, saturating_sub,
  if◌then◌else◌,
}
use nova_protocol.Common.Exec.{Result, ok, err, panic, Exec, ◌>>=◌, ◌>>◌, get, put, pure, raise_if}

pub data CreditLineStatus : Type 0 where
  active frozen closed defaulted : CreditLineStatus

pub data CreditError : Type 0 where
  limit_exceeded : ℕ → ℕ → ℕ → CreditError
  not_active : ℕ → CreditLineStatus → CreditError
  expired : ℕ → ℕ → CreditError
  over_repayment : ℕ → ℕ → ℕ → CreditError
  no_eligible_line : ℕ → CreditError
  already_closed : ℕ → CreditError

abbrev pub allows_draws : CreditLineStatus → Bool
allows_draws active = true
allows_draws _ = false

abbrev pub allows_repayments : CreditLineStatus → Bool
allows_repayments closed = false
allows_repayments _ = true

abbrev pub is_terminal : CreditLineStatus → Bool
is_terminal closed = true
is_terminal defaulted = true
is_terminal _ = false

abbrev pub is_closed : CreditLineStatus → Bool
is_closed closed = true
is_closed _ = false

abbrev pub is_frozen : CreditLineStatus → Bool
is_frozen frozen = true
is_frozen _ = false

pub record CreditLine : Type 0 where
  pub id : ℕ
  pub provider : String
  pub borrower : String
  pub limit : ℕ
  pub used : ℕ
  pub interest_rate_bps : ℕ
  pub term_days : ℕ
  pub created_at : ℕ
  pub expires_at : ℕ
  pub status : CreditLineStatus

-- `plus_days` stands for the date library's `now + Duration::days(term_days)`.
pub new : (ℕ → ℕ → ℕ) → ℕ → String → String → ℕ → ℕ → ℕ → ℕ → CreditLine
new plus_days id provider borrower limit interest_rate_bps term_days now = record {
  id = id;
  provider = provider;
  borrower = borrower;
  limit = limit;
  used = 0;
  interest_rate_bps = interest_rate_bps;
  term_days = term_days;
  created_at = now;
  expires_at = plus_days now term_days;
  status = active;
}

abbrev pub available : CreditLine → ℕ
available l = if not (allows_draws l.status) then 0 else saturating_sub l.limit l.used

abbrev pub is_expired : ℕ → CreditLine → Bool
is_expired now l = ltb l.expires_at now

unfoldable pub draw : ℕ → ℕ → Exec CreditLine ℕ CreditError
draw amount now = do
  l ← get
  raise_if (not (allows_draws l.status)) (not_active l.id l.status)
  raise_if (is_expired now l) (expired l.id l.expires_at)
  raise_if (ltb (available l) amount) (limit_exceeded l.id (available l) amount)
  put (record l { used = l.used + amount })
  l' ← get
  pure (available l')

unfoldable pub repay : ℕ → Exec CreditLine ℕ CreditError
repay amount = do
  l ← get
  raise_if (is_closed l.status) (already_closed l.id)
  raise_if (ltb l.used amount) (over_repayment l.id l.used amount)
  put (record l { used = l.used - amount })
  pure (l.used - amount)

unfoldable pub freeze : Exec CreditLine (Unit {0}) CreditError
freeze = do
  l ← get
  raise_if (is_terminal l.status) (already_closed l.id)
  put (record l { status = frozen })

unfoldable pub unfreeze : Exec CreditLine (Unit {0}) CreditError
unfreeze = do
  l ← get
  raise_if (not (is_frozen l.status)) (not_active l.id l.status)
  put (record l { status = active })

unfoldable pub close : Exec CreditLine (Unit {0}) CreditError
close = do
  l ← get
  raise_if (is_closed l.status) (already_closed l.id)
  put (record l { status = closed })

unfoldable pub default_line : Exec CreditLine (Unit {0}) CreditError
default_line = do
  l ← get
  raise_if (is_terminal l.status) (already_closed l.id)
  put (record l { status = defaulted })
