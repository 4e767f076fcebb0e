-- ===== src/Contracts/Dispute/Lifecycle.antt =====
-- Who may do what in a dispute of contracts/src/dispute_resolution.rs, and what stays fixed.
use nova_protocol.Common.{
  ℕ, ◌≡◌, ◌≢◌, ◌⊎◌, ◌↔◌, refl, sym, inl, inr, String, true, false, none, some, List, [], ◌∷◌, ◌++◌,
  arith, All, same_iff, string_key, All-append,
}
use mathlib.Core.List.{append-nil, append_assoc}
use nova_protocol.Common.Exec.{ok, err}
use nova_protocol.Contracts.Dispute.{
  Dispute, Evidence, DisputeStatus, Resolution, open_status, under_review, resolved_for_initiator,
  resolved_for_respondent, cancelled, already_resolved, is_unresolved, ruling, create,
  submit_evidence, resolve, cancel,
}
use nova_protocol.Contracts.Dispute.Calls.{Call, apply, run}

abbrev pub IsParty : Dispute → String → Type 0
IsParty d party = (party ≡ d.initiator) ⊎ (party ≡ d.respondent)

abbrev pub IsOngoing : Dispute → Type 0
IsOngoing d = (d.status ≡ open_status) ⊎ (d.status ≡ under_review)

-- Evidence is accepted exactly from a party of a dispute that is open or under review, which it
-- leaves under review; refused, it changes nothing.
pub submit_evidence_lem :
    (party description data_hash : String) (now : ℕ) (d : Dispute)
    → let (r, d') = submit_evidence party description data_hash now d in
      ((r ≡ ok tt) ↔ (IsParty d party × IsOngoing d))
      × (r ≢ ok tt → d' ≡ d)
      × (r ≡ ok tt → d'.status ≡ under_review)
unfolding submit_evidence
submit_evidence_lem party description data_hash now d = (
  ground (arith, same_iff party d.initiator, same_iff party d.respondent),
  ground arith,
  ground arith,
)

-- A ruling is accepted exactly on a dispute that is open or under review and with a signature that
-- is not empty. It then sets the ruled status and the date; refused, it changes nothing, and on a
-- dispute that has a ruling the error is `already_resolved`.
pub resolve_lem :
    (resolution : Resolution) (signature : String) (now : ℕ) (d : Dispute)
    → let (r, d') = resolve resolution signature now d in
      ((r ≡ ok tt) ↔ (IsOngoing d × (signature ≢ "")))
      × (r ≢ ok tt → d' ≡ d)
      × (r ≡ ok tt → (d'.status ≡ ruling resolution) × (d'.resolved_at ≡ some now))
      × ((d.status ≡ resolved_for_initiator) ⊎ (d.status ≡ resolved_for_respondent)
          → r ≡ err already_resolved)
unfolding resolve
resolve_lem resolution signature now d =
    (ground (arith, same_iff signature ""), ground arith, ground arith, ground arith)

-- A cancellation is accepted exactly from the initiator of a dispute that is open or under review.
-- It then sets the status and the date; refused, it changes nothing.
pub cancel_lem :
    (caller : String) (now : ℕ) (d : Dispute)
    → let (r, d') = cancel caller now d in
      ((r ≡ ok tt) ↔ ((caller ≡ d.initiator) × IsOngoing d))
      × (r ≢ ok tt → d' ≡ d)
      × (r ≡ ok tt → (d'.status ≡ cancelled) × (d'.resolved_at ≡ some now))
unfolding cancel
cancel_lem caller now d = (ground (arith, same_iff caller d.initiator), ground arith, ground arith)

abbrev pub FromParty : String → String → Evidence → Type 0
FromParty a b x = (x.submitted_by ≡ a) ⊎ (x.submitted_by ≡ b)

-- Between two calls: a dispute has a resolution date exactly when it is closed, an open one has no
-- evidence, and all evidence comes from its parties.
pub record IsValid (d : Dispute) : Type 0 where
  pub dated : (d.resolved_at ≡ none) ↔ (is_unresolved d.status ≡ true)
  pub open_empty : d.status ≡ open_status → d.evidence ≡ []
  pub from_parties : All (FromParty d.initiator d.respondent) d.evidence

-- A submission is refused, or appends one item of its party.
submit_evidence-cases :
    (party description data_hash : String) (now : ℕ) (d : Dispute)
    → let d' = (submit_evidence party description data_hash now d).1 in
      let item : Evidence = record {
        submitted_by = party;
        description = description;
        data_hash = data_hash;
        timestamp = now;
      } in
      (d' ≡ d)
      ⊎ (IsParty d party
          × (is_unresolved d.status ≡ true)
          × (d' ≡ record d { evidence = d.evidence ++ item ∷ []; status = under_review }))
unfolding submit_evidence
submit_evidence-cases party description data_hash now d =
    ground (arith, same_iff party d.initiator, same_iff party d.respondent)

-- A ruling or a cancellation is refused, or closes the dispute and dates it.
resolve-cases :
    (resolution : Resolution) (signature : String) (now : ℕ) (d : Dispute)
    → let d' = (resolve resolution signature now d).1 in
      (d' ≡ d) ⊎ (d' ≡ record d { status = ruling resolution; resolved_at = some now })
unfolding resolve
resolve-cases resolution signature now d = ground arith

cancel-cases :
    (caller : String) (now : ℕ) (d : Dispute)
    → let d' = (cancel caller now d).1 in
      (d' ≡ d) ⊎ (d' ≡ record d { status = cancelled; resolved_at = some now })
unfolding cancel
cancel-cases caller now d = ground arith

closed-IsValid :
    (s : DisputeStatus) (now : ℕ) (d : Dispute)
    → is_unresolved s ≡ false
    → IsValid d
    → IsValid (record d { status = s; resolved_at = some now })
closed-IsValid s now d closed h = record {
  dated = ground arith;
  open_empty = λ e. ground arith;
  from_parties = h.from_parties;
}

ruling-closed : (resolution : Resolution) → is_unresolved (ruling resolution) ≡ false
ruling-closed resolution = ground arith

pub create-IsValid :
    (id escrow_id initiator respondent reason : String) (now : ℕ)
    → IsValid (create id escrow_id initiator respondent reason now)
unfolding create
create-IsValid id escrow_id initiator respondent reason now = record {
  dated = ground arith;
  open_empty = λ _. refl;
  from_parties = tt;
}

pub apply-IsValid : (now : ℕ) (c : Call) (d : Dispute) → IsValid d → IsValid (apply now c d)
unfolding apply
apply-IsValid now (Call.submit_evidence party description data_hash) d h =
    elim (submit_evidence-cases party description data_hash now d) [
      | inl same ↦ rw same h
      | inr (who, ongoing, e) ↦ rw e (record {
        dated = ground arith;
        open_empty = λ closed. cc;
        from_parties =
            All-append (FromParty d.initiator d.respondent) d.evidence _ h.from_parties (who, tt);
      })
    ]
apply-IsValid now (Call.resolve resolution signature) d h =
    elim (resolve-cases resolution signature now d) [
      | inl same ↦ rw same h
      | inr e ↦ rw e (closed-IsValid (ruling resolution) now d (ruling-closed resolution) h)
    ]
apply-IsValid now (Call.cancel caller) d h = elim (cancel-cases caller now d) [
  | inl same ↦ rw same h
  | inr e ↦ rw e (closed-IsValid cancelled now d refl h)
]

-- Every sequence of calls, refused ones included, keeps a valid dispute valid.
pub run-IsValid_dispute : (cs : List (ℕ × Call)) (d : Dispute) → IsValid d → IsValid (run cs d)
unfolding run
run-IsValid_dispute [] d h = h
run-IsValid_dispute ((now, c) ∷ cs) d h =
    run-IsValid_dispute cs (apply now c d) (apply-IsValid now c d h)

apply-closed :
    (now : ℕ) (c : Call) (d : Dispute) → is_unresolved d.status ≡ false → apply now c d ≡ d
unfolding apply submit_evidence resolve cancel
apply-closed now (Call.submit_evidence party description data_hash) d h = ground arith
apply-closed now (Call.resolve resolution signature) d h = ground arith
apply-closed now (Call.cancel caller) d h = ground arith

-- A dispute that is resolved or cancelled never changes again.
pub run-closed :
    (cs : List (ℕ × Call)) (d : Dispute) → is_unresolved d.status ≡ false → run cs d ≡ d
unfolding run
run-closed [] d h = refl
run-closed ((now, c) ∷ cs) d h = rw (apply-closed now c d h) (run-closed cs d h)

-- `e` continues `d`: the same parties, and the evidence of `d` with more behind it.
abbrev pub Extends : Dispute → Dispute → Type 0
Extends d e =
    (e.initiator ≡ d.initiator)
    × (e.respondent ≡ d.respondent)
    × ((xs : List Evidence) × (e.evidence ≡ d.evidence ++ xs))

Extends-refl : (d : Dispute) → Extends d d
Extends-refl d = (refl, refl, ([], sym (append-nil d.evidence)))

apply-Extends : (now : ℕ) (c : Call) (d : Dispute) → Extends d (apply now c d)
unfolding apply
apply-Extends now (Call.submit_evidence party description data_hash) d =
    elim (submit_evidence-cases party description data_hash now d) [
      | inl same ↦ rw same (Extends-refl d)
      | inr (who, ongoing, e) ↦ rw e (refl, refl, (_, refl))
    ]
apply-Extends now (Call.resolve resolution signature) d =
    elim (resolve-cases resolution signature now d) [
      | inl same ↦ rw same (Extends-refl d)
      | inr e ↦ rw e (refl, refl, ([], sym (append-nil d.evidence)))
    ]
apply-Extends now (Call.cancel caller) d = elim (cancel-cases caller now d) [
  | inl same ↦ rw same (Extends-refl d)
  | inr e ↦ rw e (refl, refl, ([], sym (append-nil d.evidence)))
]

Extends-trans : (a b c : Dispute) → Extends a b → Extends b c → Extends a c
Extends-trans a b c (i, r, (xs, e)) (i', r', (ys, e')) =
    (cc, cc, (xs ++ ys, rw (e', e) (append_assoc a.evidence xs ys)))

-- Evidence is append-only: no sequence of calls removes or reorders what was submitted.
pub run-Extends : (cs : List (ℕ × Call)) (d : Dispute) → Extends d (run cs d)
unfolding run
run-Extends [] d = Extends-refl d
run-Extends ((now, c) ∷ cs) d =
    Extends-trans d (apply now c d) (run cs (apply now c d)) (apply-Extends now c d)
      (run-Extends cs (apply now c d))
