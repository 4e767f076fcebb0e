-- ===== src/Contracts/Dispute/Calls.antt =====
-- Sequences of calls on one dispute of contracts/src/dispute_resolution.rs.
use nova_protocol.Common.{ℕ, String, List, [], ◌∷◌}
use nova_protocol.Contracts.Dispute
use nova_protocol.Contracts.Dispute.{Dispute, Resolution}

pub data Call : Type 0 where
  submit_evidence : String → String → String → Call
  resolve : Resolution → String → Call
  cancel : String → Call

unfoldable pub apply : ℕ → Call → Dispute → Dispute
apply now (submit_evidence party description data_hash) d =
    (Dispute.submit_evidence party description data_hash now d).1
apply now (resolve resolution signature) d = (Dispute.resolve resolution signature now d).1
apply now (cancel caller) d = (Dispute.cancel caller now d).1

unfoldable pub run : List (ℕ × Call) → Dispute → Dispute
run [] d = d
run ((now, c) ∷ cs) d = run cs (apply now c d)
