-- ===== src/Contracts/Dispute.antt =====
-- contracts/src/dispute_resolution.rs: a dispute over an escrow. Strings are compared whole; `now`
-- is the value of `Utc::now()` at the call.
pub mod Calls
pub mod Lifecycle
mod Tests
use nova_protocol.Common.{
  ℕ, String, Bool, true, false, not, ◌&&◌, Option, none, some, List, [], ◌∷◌, ◌++◌, ◌=?◌,
  string_key, if◌then◌else◌,
}
use nova_protocol.Common.Exec.{Result, ok, err, Exec, ◌>>=◌, ◌>>◌, get, put, raise_if}

pub data DisputeStatus : Type 0 where
  open_status under_review resolved_for_initiator resolved_for_respondent cancelled : DisputeStatus

pub data Resolution : Type 0 where
  for_initiator for_respondent : Resolution

pub data DisputeError : Type 0 where
  invalid_state : String → String → DisputeError
  unauthorized : String → DisputeError
  invalid_arbiter_signature already_resolved : DisputeError
  invalid_resolution : String → DisputeError

-- `Display for DisputeStatus`
abbrev pub to_string : DisputeStatus → String
to_string open_status = "Open"
to_string under_review = "UnderReview"
to_string resolved_for_initiator = "ResolvedForInitiator"
to_string resolved_for_respondent = "ResolvedForRespondent"
to_string cancelled = "Cancelled"

pub record Evidence : Type 0 where
  pub submitted_by : String
  pub description : String
  pub data_hash : String
  pub timestamp : ℕ

pub record Dispute : Type 0 where
  pub id : String
  pub escrow_id : String
  pub initiator : String
  pub respondent : String
  pub reason : String
  pub evidence : List Evidence
  pub status : DisputeStatus
  pub created_at : ℕ
  pub resolved_at : Option ℕ

abbrev pub is_open : DisputeStatus → Bool
is_open open_status = true
is_open _ = false

-- The arm `Open | UnderReview` of the matches.
abbrev pub is_unresolved : DisputeStatus → Bool
is_unresolved open_status = true
is_unresolved under_review = true
is_unresolved _ = false

abbrev pub Method : Type 0
Method = Exec Dispute (Unit {0}) DisputeError

-- `id` is the fresh UUID.
pub create : String → String → String → String → String → ℕ → Dispute
create id escrow_id initiator respondent reason now = record {
  id = id;
  escrow_id = escrow_id;
  initiator = initiator;
  respondent = respondent;
  reason = reason;
  evidence = [];
  status = open_status;
  created_at = now;
  resolved_at = none;
}

pub submit_evidence : String → String → String → ℕ → Method
submit_evidence party description data_hash now = do
  d ← get
  raise_if (not (party =? d.initiator) && not (party =? d.respondent)) (unauthorized party)
  raise_if (not (is_unresolved d.status)) (invalid_state (to_string d.status) "Open or UnderReview")
  put (record d {
    evidence =
        d.evidence
        ++ (record {
          submitted_by = party;
          description = description;
          data_hash = data_hash;
          timestamp = now;
        })
          ∷ [];
    status = if is_open d.status then under_review else d.status;
  })

resolve_guard : DisputeStatus → Option DisputeError
resolve_guard open_status = none
resolve_guard under_review = none
resolve_guard resolved_for_initiator = some already_resolved
resolve_guard resolved_for_respondent = some already_resolved
resolve_guard cancelled = some (invalid_state "Cancelled" "Open or UnderReview")

abbrev pub ruling : Resolution → DisputeStatus
ruling for_initiator = resolved_for_initiator
ruling for_respondent = resolved_for_respondent

pub resolve : Resolution → String → ℕ → Method
unfolding resolve_guard
resolve resolution arbiter_signature now d = elim (resolve_guard d.status) [
  | some x ↦ (err x, d)
  | none ↦
      if arbiter_signature =? ""
      then (err invalid_arbiter_signature, d)
      else (ok tt, record d { status = ruling resolution; resolved_at = some now })
]

pub cancel : String → ℕ → Method
cancel caller now = do
  d ← get
  raise_if (not (caller =? d.initiator)) (unauthorized caller)
  raise_if (not (is_unresolved d.status)) (invalid_state (to_string d.status) "Open or UnderReview")
  put (record d { status = cancelled; resolved_at = some now })
