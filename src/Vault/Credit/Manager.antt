-- ===== src/Vault/Credit/Manager.antt =====
-- `CreditLineManager` of protocol/src/vault/credit.rs: the lines of one borrower. In one pass over
-- the lines the clock is read once. Sums wrap at 64 bits, as in a release build.
use nova_protocol.Common.{
  ℕ, ◌*◌, ◌/◌, ◌%◌, String, Bool, true, false, not, ◌&&◌, Option, none, some, List, [], ◌∷◌, ◌++◌,
  ltb, leb, ◌==◌, ◌=?◌, string_key, if◌then◌else◌, length, keep, count_if, sum_of, wrap64,
}
use nova_protocol.Common.Exec.{Exec, ◌>>=◌, ◌>>◌, get, put, pure, or_raise, unwrap, lift}
use nova_protocol.Vault.Credit.{
  CreditLine, CreditError, no_eligible_line, available, is_expired, is_closed, allows_draws, draw,
}

abbrev pub CreditLineManager : Type 0
CreditLineManager = List CreditLine

-- `CreditLineManager::new`
abbrev pub new : CreditLineManager
new = []

unfoldable pub add_line : CreditLine → CreditLineManager → CreditLineManager
add_line line lines = lines ++ line ∷ []

-- The first line with the id that is closed, and the others.
unfoldable pub remove_closed_line : ℕ → CreditLineManager → Option CreditLine × CreditLineManager
remove_closed_line line_id [] = (none, [])
remove_closed_line line_id (l ∷ lines) =
    let (found, rest) = remove_closed_line line_id lines in
    if l.id == line_id && is_closed l.status then (some l, lines) else (found, l ∷ rest)

unfoldable pub get_line : ℕ → CreditLineManager → Option CreditLine
get_line line_id [] = none
get_line line_id (l ∷ lines) = if l.id == line_id then some l else get_line line_id lines

-- What a write through `get_line_mut` leaves: the first line with the id is replaced.
unfoldable pub set_line : ℕ → CreditLine → CreditLineManager → CreditLineManager
set_line line_id line [] = []
set_line line_id line (l ∷ lines) =
    if l.id == line_id then line ∷ lines else l ∷ set_line line_id line lines

pub line_count : CreditLineManager → ℕ
line_count lines = length lines

unfoldable pub total_available : ℕ → CreditLineManager → ℕ
total_available now lines =
    wrap64 (sum_of available (keep (λ l. allows_draws l.status && not (is_expired now l)) lines))

unfoldable pub total_outstanding : CreditLineManager → ℕ
total_outstanding lines = wrap64 (sum_of (λ l. l.used) lines)

pub active_line_count : ℕ → CreditLineManager → ℕ
active_line_count now lines = count_if (λ l. allows_draws l.status && not (is_expired now l)) lines

-- `a` comes after `b`: a higher rate, or the same rate and less room.
abbrev pub is_after : CreditLine → CreditLine → Bool
is_after a b =
    if ltb b.interest_rate_bps a.interest_rate_bps
    then true
    else if a.interest_rate_bps == b.interest_rate_bps
    then ltb (available a) (available b)
    else false

abbrev pub is_eligible : ℕ → ℕ → CreditLine → Bool
is_eligible amount now l =
    allows_draws l.status && (not (is_expired now l) && leb amount (available l))

-- `Iterator::min_by`: of equal minima the first.
unfoldable pub min_from : CreditLine → List CreditLine → CreditLine
min_from best [] = best
min_from best (l ∷ lines) = min_from (if is_after best l then l else best) lines

abbrev pub min_by : List CreditLine → Option CreditLine
min_by [] = none
min_by (l ∷ lines) = some (min_from l lines)

unfoldable pub best_available_line : ℕ → ℕ → CreditLineManager → Option CreditLine
best_available_line amount now lines = min_by (keep (is_eligible amount now) lines)

-- `now` is the clock of the selection, `now'` that of the draw.
unfoldable pub draw_best_available : ℕ → ℕ → ℕ → Exec CreditLineManager (ℕ × ℕ) CreditError
draw_best_available amount now now' = do
  lines ← get
  best ← or_raise (best_available_line amount now lines) (no_eligible_line amount)
  line ← unwrap (get_line best.id lines)
  let (r, line') = draw amount now' line
  put (set_line best.id line' lines)
  remaining ← lift r
  pure (best.id, remaining)

pub lines_from_provider : String → CreditLineManager → List CreditLine
lines_from_provider provider lines = keep (λ l. l.provider =? provider) lines

-- Both sums and each product wrap at 64 bits, and the result is cut to 32 bits.
unfoldable pub weighted_avg_rate_bps : CreditLineManager → Option ℕ
weighted_avg_rate_bps lines =
    let active_lines = keep (λ l. allows_draws l.status) lines in
    let total_limit = wrap64 (sum_of (λ l. l.limit) active_lines) in
    let weighted_sum = wrap64 (sum_of (λ l. wrap64 (l.limit * l.interest_rate_bps)) active_lines) in
    if length active_lines == 0
    then none
    else if total_limit == 0
    then none
    else some (weighted_sum / total_limit % 4294967296)
