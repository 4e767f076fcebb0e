-- ===== src/Vault/Credit/Line.antt =====
-- The life of one credit line of protocol/src/vault/credit.rs.
use nova_protocol.Common.{
  ℕ, ◌+◌, ◌-◌, ◌≤◌, ◌<◌, ◌≡◌, ◌≢◌, ◌⊎◌, refl, true, List, [], ◌∷◌, arith, u64_max,
}
use nova_protocol.Common.Exec.{ok, err}
use nova_protocol.Vault.Credit
use nova_protocol.Vault.Credit.{
  CreditLine, CreditLineStatus, CreditError, active, frozen, closed, defaulted, available,
  is_terminal, limit_exceeded, not_active, expired,
}

-- What the borrower owes never passes the limit.
abbrev pub IsValid : CreditLine → Type 0
IsValid l = (l.used ≤ l.limit) × (l.limit ≤ u64_max)

-- On a line whose limit fits in 64 bits and that owes no more, a draw succeeds when the line is
-- active, not expired, and has room: it adds the amount to what is owed and returns the room left.
-- Otherwise the line is unchanged and the error is that of the first test that fails.
pub draw_lem :
    (amount now : ℕ) (l : CreditLine)
    → IsValid l
    → (l.status ≢ active → Credit.draw amount now l ≡ (err (not_active l.id l.status), l))
      × (l.status ≡ active
          → l.expires_at < now
          → Credit.draw amount now l ≡ (err (expired l.id l.expires_at), l))
      × (l.status ≡ active
          → now ≤ l.expires_at
          → l.limit < l.used + amount
          → Credit.draw amount now l ≡ (err (limit_exceeded l.id (l.limit - l.used) amount), l))
      × (l.status ≡ active
          → now ≤ l.expires_at
          → l.used + amount ≤ l.limit
          → Credit.draw amount now l
            ≡ (ok (l.limit - (l.used + amount)), record l { used = l.used + amount }))
unfolding Credit.draw
draw_lem amount now l h =
    (λ a. ground arith, λ a b. ground arith, λ a b c. ground arith, λ a b c. ground arith)

-- A repayment on a line that is not closed, up to what is owed, takes the amount off what is owed
-- and returns the rest. On a closed line, or above what is owed, it is refused and changes nothing.
pub repay_line_lem :
    (amount : ℕ) (l : CreditLine)
    → let (r, l') = Credit.repay amount l in
      (((l.status ≢ closed) × (amount ≤ l.used))
        → (r ≡ ok (l.used - amount)) × (l' ≡ record l { used = l.used - amount }))
      × ((l.status ≡ closed) ⊎ (l.used < amount) → ((owed : ℕ) → r ≢ ok owed) × (l' ≡ l))
unfolding Credit.repay
repay_line_lem amount l = (λ c. ground arith, λ c. (λ owed e. ground arith, ground arith))

-- One call on a line, at an instant.
pub data Call : Type 0 where
  draw repay : ℕ → Call
  freeze unfreeze close default_line : Call

pub apply : ℕ → Call → CreditLine → CreditLine
apply now (draw amount) l = (Credit.draw amount now l).1
apply now (repay amount) l = (Credit.repay amount l).1
apply now freeze l = (Credit.freeze l).1
apply now unfreeze l = (Credit.unfreeze l).1
apply now close l = (Credit.close l).1
apply now default_line l = (Credit.default_line l).1

pub run : List (ℕ × Call) → CreditLine → CreditLine
run [] l = l
run ((now, c) ∷ cs) l = run cs (apply now c l)

pub apply-IsValid : (now : ℕ) (c : Call) (l : CreditLine) → IsValid l → IsValid (apply now c l)
unfolding apply Credit.draw Credit.repay Credit.freeze Credit.unfreeze Credit.close
    Credit.default_line
apply-IsValid now (draw amount) l h = ground arith
apply-IsValid now (repay amount) l h = ground arith
apply-IsValid now freeze l h = ground arith
apply-IsValid now unfreeze l h = ground arith
apply-IsValid now close l h = ground arith
apply-IsValid now default_line l h = ground arith

-- If the limit fits in 64 bits and what is owed is within it, that stays so under every sequence
-- of calls.
pub run-IsValid_line : (cs : List (ℕ × Call)) (l : CreditLine) → IsValid l → IsValid (run cs l)
unfolding run
run-IsValid_line [] l h = h
run-IsValid_line ((now, c) ∷ cs) l h = run-IsValid_line cs (apply now c l) (apply-IsValid now c l h)

apply-is_terminal :
    (now : ℕ) (c : Call) (l : CreditLine)
    → is_terminal l.status ≡ true
    → (is_terminal (apply now c l).status ≡ true) × ((apply now c l).used ≤ l.used)
unfolding apply Credit.draw Credit.repay Credit.freeze Credit.unfreeze Credit.close
    Credit.default_line
apply-is_terminal now (draw amount) l h = ground arith
apply-is_terminal now (repay amount) l h = ground arith
apply-is_terminal now freeze l h = ground arith
apply-is_terminal now unfreeze l h = ground arith
apply-is_terminal now close l h = ground arith
apply-is_terminal now default_line l h = ground arith

-- A line that is closed or in default is so after every sequence of calls, and owes no more than
-- before.
pub run-is_terminal :
    (cs : List (ℕ × Call)) (l : CreditLine)
    → is_terminal l.status ≡ true
    → (is_terminal (run cs l).status ≡ true) × ((run cs l).used ≤ l.used)
unfolding run
run-is_terminal [] l h = (h, omega arith)
run-is_terminal ((now, c) ∷ cs) l h =
    let (t, less) = apply-is_terminal now c l h in
    let (t', less') = run-is_terminal cs (apply now c l) t in (t', omega arith)

apply-closed : (now : ℕ) (c : Call) (l : CreditLine) → l.status ≡ closed → apply now c l ≡ l
unfolding apply Credit.draw Credit.repay Credit.freeze Credit.unfreeze Credit.close
    Credit.default_line
apply-closed now (draw amount) l h = ground arith
apply-closed now (repay amount) l h = ground arith
apply-closed now freeze l h = ground arith
apply-closed now unfreeze l h = ground arith
apply-closed now close l h = ground arith
apply-closed now default_line l h = ground arith

run-closed : (cs : List (ℕ × Call)) (l : CreditLine) → l.status ≡ closed → run cs l ≡ l
unfolding run
run-closed [] l h = refl
run-closed ((now, c) ∷ cs) l h = rw (apply-closed now c l h) (run-closed cs l h)

closes :
    (now : ℕ) (l : CreditLine)
    → l.status ≢ closed
    → apply now close l ≡ record l { status = closed }
unfolding apply Credit.close
closes now l h = ground arith

-- Closing succeeds on every line that is not closed, whatever is owed on it, and no later call
-- changes the closed line.
pub close_strands_debt :
    (now : ℕ) (cs : List (ℕ × Call)) (l : CreditLine)
    → l.status ≢ closed
    → ((Credit.close l).0 ≡ ok tt) × (run ((now, close) ∷ cs) l ≡ record l { status = closed })
unfolding run
close_strands_debt now cs l h = (
  unfold Credit.close in ground arith,
  rw (closes now l h) (run-closed cs (record l { status = closed }) refl),
)
