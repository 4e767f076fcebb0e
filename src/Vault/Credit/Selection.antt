-- ===== src/Vault/Credit/Selection.antt =====
-- `best_available_line` of protocol/src/vault/credit.rs chooses the cheapest eligible line.
use nova_protocol.Common.{
  ℕ, ◌-◌, ◌≤◌, ◌<◌, ◌≡◌, ◌≢◌, ◌⊎◌, ◌↔◌, refl, inl, inr, true, false, List, [], ◌∷◌, arith, none,
  some, All, keep, Bool-cases, In, In-keep, All-keep, if◌then◌else◌,
}
use mathlib.Core.Path.{subst}
use nova_protocol.Vault.Credit.{CreditLine, available, active}
use nova_protocol.Vault.Credit.Manager.{
  CreditLineManager, is_after, is_eligible, min_from, min_by, best_available_line,
}

-- `a` is at least as good as `b`: cheaper, or as cheap with at least as much room.
abbrev pub NotWorse : CreditLine → CreditLine → Type 0
NotWorse a b =
    (a.interest_rate_bps < b.interest_rate_bps)
    ⊎ ((a.interest_rate_bps ≡ b.interest_rate_bps) × (available b ≤ available a))

NotWorse-trans : (a b c : CreditLine) → NotWorse a b → NotWorse b c → NotWorse a c
NotWorse-trans a b c h k = ground arith

next-NotWorse :
    (best l : CreditLine)
    → let next = if is_after best l then l else best in NotWorse next best × NotWorse next l
next-NotWorse best l = ground arith

min_from-NotWorse :
    (best : CreditLine) (ls : List CreditLine) (b : CreditLine)
    → NotWorse best b
    → NotWorse (min_from best ls) b × All (NotWorse (min_from best ls)) ls
unfolding min_from
min_from-NotWorse best [] b h = (h, tt)
min_from-NotWorse best (l ∷ ls) b h =
    let next = if is_after best l then l else best in
    let (n, m) = next-NotWorse best l in
    (
      (min_from-NotWorse next ls b (NotWorse-trans next best b n h)).0,
      min_from-NotWorse next ls l m,
    )

min_from-In : (best : CreditLine) (ls : List CreditLine) → In (min_from best ls) (best ∷ ls)
unfolding min_from
min_from-In best [] = inl refl
min_from-In best (l ∷ ls) =
    let m = min_from-In (if is_after best l then l else best) ls in
    elim (Bool-cases (is_after best l)) [
      | inl after ↦ ground (arith, m)
      | inr ahead ↦ ground (arith, m)
    ]

min_by-best :
    (ls : List CreditLine) (l : CreditLine) → min_by ls ≡ some l → In l ls × All (NotWorse l) ls
min_by-best [] l e = cc
min_by-best (x ∷ ls) l e =
    let same : min_from x ls ≡ l = cc in
    subst (λ m. In m (x ∷ ls) × All (NotWorse m) (x ∷ ls)) same
      (min_from-In x ls, min_from-NotWorse x ls x (inr (refl, omega arith)))

-- The line that is chosen is one of the manager's, is active, has not expired and covers the
-- amount, and no other such line is cheaper, or as cheap with more room.
pub best_available_line-some :
    (amount now : ℕ) (lines : CreditLineManager) (l : CreditLine)
    → best_available_line amount now lines ≡ some l
    → In l lines
      × (l.status ≡ active)
      × (now ≤ l.expires_at)
      × (amount ≤ l.limit - l.used)
      × All (λ m. is_eligible amount now m ≡ true → NotWorse l m) lines
unfolding best_available_line
best_available_line-some amount now lines l e =
    let (kept, best) = min_by-best (keep (is_eligible amount now) lines) l e in
    let (member, pass) = In-keep (is_eligible amount now) l lines kept in
    (
      member,
      ground arith,
      ground arith,
      ground arith,
      All-keep (NotWorse l) (is_eligible amount now) lines best,
    )

-- No line is chosen exactly when none is eligible.
pub best_available_line-none :
    (amount now : ℕ) (lines : CreditLineManager)
    → (best_available_line amount now lines ≡ none)
      ↔ All (λ m. is_eligible amount now m ≡ false) lines
unfolding best_available_line
best_available_line-none amount now lines = (fwd lines, bwd lines)
  where
    not_none : {l : CreditLine} → some l ≢ none
    not_none e = cc

    fwd :
        (ls : List CreditLine)
        → min_by (keep (is_eligible amount now) ls) ≡ none
        → All (λ m. is_eligible amount now m ≡ false) ls
    fwd [] h = tt
    fwd (x ∷ ls) h = elim (Bool-cases (is_eligible amount now x)) [
      | inl pass ↦ absurd (not_none (rw pass at h))
      | inr fail ↦ (fail, fwd ls (rw fail at h))
    ]

    bwd :
        (ls : List CreditLine)
        → All (λ m. is_eligible amount now m ≡ false) ls
        → min_by (keep (is_eligible amount now) ls) ≡ none
    bwd [] h = refl
    bwd (x ∷ ls) (h, hs) = rw h (bwd ls hs)
