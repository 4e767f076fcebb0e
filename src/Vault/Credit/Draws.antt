-- ===== src/Vault/Credit/Draws.antt =====
-- `draw_best_available` of protocol/src/vault/credit.rs draws on the line that is chosen.
use nova_protocol.Common.{
  ℕ, ◌+◌, ◌-◌, ◌≤◌, ◌≡◌, ◌≢◌, refl, inl, inr, [], ◌∷◌, arith, none, some, All, All-get, In, sum_of,
}
use nova_protocol.Common.Exec.{ok, err}
use nova_protocol.Vault.Credit
use nova_protocol.Vault.Credit.{CreditLine, CreditError, available, active, no_eligible_line}
use nova_protocol.Vault.Credit.Line.{IsValid, draw_lem}
use nova_protocol.Vault.Credit.Manager.{
  CreditLineManager, get_line, set_line, best_available_line, draw_best_available,
}
use nova_protocol.Vault.Credit.Selection.{best_available_line-some}

-- No two lines share an id.
abbrev pub IsDistinct : CreditLineManager → Type 0
IsDistinct [] = Unit
IsDistinct (l ∷ lines) = All (λ m. l.id ≢ m.id) lines × IsDistinct lines

pub get_line-In :
    (l : CreditLine) (lines : CreditLineManager)
    → IsDistinct lines
    → In l lines
    → get_line l.id lines ≡ some l
unfolding get_line
get_line-In l [] h m = absurd m
get_line-In l (x ∷ lines) h (inl e) = ground arith
get_line-In l (x ∷ lines) h (inr m) =
    ground (arith, All-get (λ m. x.id ≢ m.id) l lines h.0 m, get_line-In l lines h.1 m)

get_line-set_line_ne :
    (i j : ℕ) (l : CreditLine) (lines : CreditLineManager)
    → l.id ≡ i
    → j ≢ i
    → get_line j (set_line i l lines) ≡ get_line j lines
unfolding get_line set_line
get_line-set_line_ne i j l [] e ne = refl
get_line-set_line_ne i j l (x ∷ lines) e ne = ground (arith, get_line-set_line_ne i j l lines e ne)

abbrev pub owed : CreditLineManager → ℕ
owed lines = sum_of (λ l. l.used) lines

owed-set_line :
    (i : ℕ) (l l' : CreditLine) (lines : CreditLineManager)
    → get_line i lines ≡ some l
    → owed (set_line i l' lines) + l.used ≡ owed lines + l'.used
unfolding get_line set_line
owed-set_line i l l' [] e = cc
owed-set_line i l l' (x ∷ lines) e = ground (arith, owed-set_line i l l' lines)

abbrev drawn : ℕ → CreditLine → CreditLine
drawn amount l = record l { used = l.used + amount }

draw_best-eq :
    (amount now now' : ℕ) (l : CreditLine) (lines : CreditLineManager)
    → best_available_line amount now lines ≡ some l
    → get_line l.id lines ≡ some l
    → Credit.draw amount now' l ≡ (ok (l.limit - (l.used + amount)), drawn amount l)
    → draw_best_available amount now now' lines
      ≡ (ok (l.id, l.limit - (l.used + amount)), set_line l.id (drawn amount l) lines)
unfolding draw_best_available
draw_best-eq amount now now' l lines b g d = rw (b, g, d) refl

-- In a manager whose lines have different ids and owe no more than their limits, when a line is
-- chosen and it has not expired by the time of the draw, the draw succeeds: exactly that line owes
-- the amount more, the total owed grows by the amount, and every other line is as before.
pub draw_best_available-some :
    (amount now now' : ℕ) (l : CreditLine) (lines : CreditLineManager)
    → IsDistinct lines
    → All IsValid lines
    → best_available_line amount now lines ≡ some l
    → now' ≤ l.expires_at
    → let (r, lines') = draw_best_available amount now now' lines in
      (r ≡ ok (l.id, l.limit - (l.used + amount)))
      × (lines' ≡ set_line l.id (record l { used = l.used + amount }) lines)
      × (owed lines' ≡ owed lines + amount)
      × ((j : ℕ) → j ≢ l.id → get_line j lines' ≡ get_line j lines)
draw_best_available-some amount now now' l lines distinct valid best early =
    let (member, is_active, fresh, room, cheapest) =
      best_available_line-some amount now lines l best in
    let found = get_line-In l lines distinct member in
    let v = All-get IsValid l lines valid member in
    let e =
      draw_best-eq amount now now' l lines best found
        ((draw_lem amount now' l v).3 is_active early (omega (arith, v, room))) in
    rw e (
      refl,
      refl,
      omega (arith, owed-set_line l.id l (drawn amount l) lines found),
      λ j. get_line-set_line_ne l.id j (drawn amount l) lines refl,
    )

-- When no line is chosen, the draw is refused and nothing changes.
pub draw_best_available-none :
    (amount now now' : ℕ) (lines : CreditLineManager)
    → best_available_line amount now lines ≡ none
    → draw_best_available amount now now' lines ≡ (err (no_eligible_line amount), lines)
unfolding draw_best_available
draw_best_available-none amount now now' lines e = rw e refl
