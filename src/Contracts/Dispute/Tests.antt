-- ===== src/Contracts/Dispute/Tests.antt =====
-- The theorems about contracts/src/dispute_resolution.rs at concrete disputes.
use nova_protocol.Common.{ℕ, ◌≡◌, refl, none, some, List, [], ◌∷◌}
use nova_protocol.Contracts.Dispute.{Dispute, open_status, cancelled, for_initiator}
use nova_protocol.Contracts.Dispute.Calls.{Call, run}
use nova_protocol.Contracts.Dispute.Lifecycle.{run-closed}

abbrev opened : Dispute
opened = record {
  id = "d1";
  escrow_id = "e1";
  initiator = "alice";
  respondent = "bob";
  reason = "late";
  evidence = [];
  status = open_status;
  created_at = 1;
  resolved_at = none;
}

abbrev dropped : Dispute
dropped = record opened { status = cancelled; resolved_at = some 4 }

abbrev calls : List (ℕ × Call)
calls =
    (2, Call.submit_evidence "bob" "photo" "00ff")
    ∷ (3, Call.submit_evidence "carol" "photo" "00ff")
    ∷ (4, Call.resolve for_initiator "sig")
    ∷ (5, Call.cancel "alice")
    ∷ []

run-closed_example : run calls dropped ≡ dropped
run-closed_example = run-closed calls dropped refl
