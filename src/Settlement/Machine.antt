-- ===== src/Settlement/Machine.antt =====
-- The runs of the state machine of protocol/src/ntp/settlement.rs.
use mathlib.Core.Path.{subst}
use nova_protocol.Common.{
  ℕ, ◌+◌, ◌-◌, ◌≤◌, ◌<◌, ◌≡◌, ◌⊎◌, inl, inr, refl, sym, ap, ◌∙◌, true, false, none, some, List, [],
  ◌∷◌, arith, leb, Bool-cases, String,
}
use nova_protocol.Settlement.{
  SettlementResult, timed_out, SettlementState, SettlementStateMachine, pending, validating,
  expired, settled, refused, with_timeout, mark_validating, mark_confirmed, mark_rejected,
  check_timeout, is_terminal, elapsed_ms,
}

-- The calls that change a machine.
pub data Call : Type 0 where
  call_validating : Call
  call_confirmed call_rejected : SettlementResult → Call
  call_timeout : ℕ → Call

pub apply : Call → SettlementStateMachine → SettlementStateMachine
apply call_validating m = mark_validating m
apply (call_confirmed r) m = mark_confirmed r m
apply (call_rejected r) m = mark_rejected r m
apply (call_timeout now) m = (check_timeout now m).1

pub run : List Call → SettlementStateMachine → SettlementStateMachine
run [] m = m
run (c ∷ cs) m = run cs (apply c m)

-- The state diagram: the steps from one state to another.
infix 40 ◌⟶◌
pub data ◌⟶◌ : SettlementState → SettlementState → Type 0 where
  validate : pending ⟶ validating
  confirm : (r : SettlementResult) → pending ⟶ settled r
  reject : (r : SettlementResult) → pending ⟶ refused r
  expire : pending ⟶ expired
  confirm_valid : (r : SettlementResult) → validating ⟶ settled r
  reject_invalid : (r : SettlementResult) → validating ⟶ refused r
  expire_validating : validating ⟶ expired

-- What a call may do: it leaves the machine as it is, or takes one step of the diagram and changes
-- nothing else.
abbrev Stays : SettlementStateMachine → SettlementStateMachine → Type 0
Stays m m' = (m' ≡ m) ⊎ ((s : SettlementState) × (m.state ⟶ s) × (m' ≡ record m { state = s }))

moved :
    (m m' : SettlementStateMachine) (s t : SettlementState)
    → m.state ≡ s
    → s ⟶ t
    → m' ≡ record m { state = t }
    → Stays m m'
moved m m' s t q e h = inr (t, rw q e, h)

apply-Stays :
    (c : Call) (m : SettlementStateMachine) (s : SettlementState)
    → m.state ≡ s
    → Stays m (apply c m)
unfolding apply mark_validating mark_confirmed mark_rejected check_timeout
apply-Stays call_validating m pending q =
    moved m _ pending validating q validate (ground (arith, q))
apply-Stays call_validating m validating q = inl (ground (arith, q))
apply-Stays call_validating m expired q = inl (ground (arith, q))
apply-Stays call_validating m (settled r) q = inl (ground (arith, q))
apply-Stays call_validating m (refused r) q = inl (ground (arith, q))
apply-Stays (call_confirmed x) m pending q =
    moved m _ pending (settled x) q (confirm x) (ground (arith, q))
apply-Stays (call_confirmed x) m validating q =
    moved m _ validating (settled x) q (confirm_valid x) (ground (arith, q))
apply-Stays (call_confirmed x) m expired q = inl (ground (arith, q))
apply-Stays (call_confirmed x) m (settled r) q = inl (ground (arith, q))
apply-Stays (call_confirmed x) m (refused r) q = inl (ground (arith, q))
apply-Stays (call_rejected x) m pending q =
    moved m _ pending (refused x) q (reject x) (ground (arith, q))
apply-Stays (call_rejected x) m validating q =
    moved m _ validating (refused x) q (reject_invalid x) (ground (arith, q))
apply-Stays (call_rejected x) m expired q = inl (ground (arith, q))
apply-Stays (call_rejected x) m (settled r) q = inl (ground (arith, q))
apply-Stays (call_rejected x) m (refused r) q = inl (ground (arith, q))
apply-Stays (call_timeout now) m pending q =
    elim (Bool-cases (leb m.timeout_ms (elapsed_ms now m))) [
      | inl t ↦ moved m _ pending expired q expire (ground (arith, q, t))
      | inr t ↦ inl (ground (arith, q, t))
    ]
apply-Stays (call_timeout now) m validating q =
    elim (Bool-cases (leb m.timeout_ms (elapsed_ms now m))) [
      | inl t ↦ moved m _ validating expired q expire_validating (ground (arith, q, t))
      | inr t ↦ inl (ground (arith, q, t))
    ]
apply-Stays (call_timeout now) m expired q = inl (ground (arith, q))
apply-Stays (call_timeout now) m (settled r) q = inl (ground (arith, q))
apply-Stays (call_timeout now) m (refused r) q = inl (ground (arith, q))

infix 40 ◌⟶⋆◌
pub data ◌⟶⋆◌ : SettlementState → SettlementState → Type 0 where
  stop : (s : SettlementState) → s ⟶⋆ s
  go : (s t u : SettlementState) → s ⟶ t → t ⟶⋆ u → s ⟶⋆ u

-- From a terminal state the diagram has no step.
terminal_stuck :
    (m : SettlementStateMachine) (s t : SettlementState)
    → m.state ≡ s
    → s ⟶ t
    → is_terminal m ≡ false
unfolding is_terminal
terminal_stuck m s t q validate = ground (arith, q)
terminal_stuck m s t q (confirm r) = ground (arith, q)
terminal_stuck m s t q (reject r) = ground (arith, q)
terminal_stuck m s t q expire = ground (arith, q)
terminal_stuck m s t q (confirm_valid r) = ground (arith, q)
terminal_stuck m s t q (reject_invalid r) = ground (arith, q)
terminal_stuck m s t q expire_validating = ground (arith, q)

-- Every run of calls refines the diagram: it takes the state along its steps and changes nothing
-- else of the machine, and in a terminal state it changes nothing at all.
pub run-⟶⋆ :
    (cs : List Call) (m : SettlementStateMachine)
    → (m.state ⟶⋆ (run cs m).state)
      × (run cs m ≡ record m { state = (run cs m).state })
      × (is_terminal m ≡ true → run cs m ≡ m)
unfolding run
run-⟶⋆ [] m = (stop m.state, refl, λ _. refl)
run-⟶⋆ (c ∷ cs) m =
    let (path, same, fixed) = run-⟶⋆ cs (apply c m) in
    elim (apply-Stays c m m.state refl) [
      | inl q ↦ (
        subst (λ n. n.state ⟶⋆ (run cs (apply c m)).state) q path,
        same
            ∙ ap {A = SettlementStateMachine} (λ n. record n { state = (run cs (apply c m)).state })
                q,
        λ t. fixed (subst (λ n. is_terminal n ≡ true) (sym q) t) ∙ q,
      )
      | inr (s, e, q) ↦ (
        go m.state s (run cs (apply c m)).state e
            (subst (λ n. n.state ⟶⋆ (run cs (apply c m)).state) q path),
        same
            ∙ ap {A = SettlementStateMachine} (λ n. record n { state = (run cs (apply c m)).state })
                q,
        λ t. absurd (let f = terminal_stuck m m.state s refl e in ground (arith, t, f)),
      )
    ]

at_deadline :
    (now : ℕ) (m : SettlementStateMachine) (tx_start timeout_ms : ℕ)
    → m.started_at ≡ tx_start
    → m.timeout_ms ≡ timeout_ms
    → let (r, m') = check_timeout now m in
      (tx_start + timeout_ms ≤ now → is_terminal m' ≡ true)
      × (tx_start ≤ now → now < tx_start + timeout_ms → (r ≡ none) × (m' ≡ m))
      × (is_terminal m ≡ true → (r ≡ none) × (m' ≡ m))
      × (is_terminal m ≡ false
          → tx_start + timeout_ms ≤ now
          → (r ≡ some (timed_out (now - tx_start) timeout_ms))
            × (m' ≡ record m { state = expired }))
unfolding check_timeout is_terminal
at_deadline now m tx_start timeout_ms b l = (
  λ h. ground arith,
  λ k h. (ground arith, ground arith),
  λ h. (ground arith, ground arith),
  λ h k. (ground arith, ground arith),
)

-- A machine that is asked at its deadline or later is in a terminal state afterwards, whatever was
-- called before. Asked before it, after its start, it stays as it is. Only a machine that expires at the call gives
-- a result, the elapsed time with the limit.
pub check_timeout_lem :
    (now tx_start timeout_ms : ℕ) (tx_hash session_id : String) (cs : List Call)
    → let m = run cs (with_timeout tx_start tx_hash session_id timeout_ms) in
      let (r, m') = check_timeout now m in
      (tx_start + timeout_ms ≤ now → is_terminal m' ≡ true)
      × (tx_start ≤ now → now < tx_start + timeout_ms → (r ≡ none) × (m' ≡ m))
      × (is_terminal m ≡ true → (r ≡ none) × (m' ≡ m))
      × (is_terminal m ≡ false
          → tx_start + timeout_ms ≤ now
          → (r ≡ some (timed_out (now - tx_start) timeout_ms))
            × (m' ≡ record m { state = expired }))
check_timeout_lem now tx_start timeout_ms tx_hash session_id cs =
    let start : SettlementStateMachine = with_timeout tx_start tx_hash session_id timeout_ms in
    let m : SettlementStateMachine = run cs start in
    let (_, same, _) = run-⟶⋆ cs start in
    let began : m.started_at ≡ tx_start = ap (λ n. n.started_at) same in
    let limit : m.timeout_ms ≡ timeout_ms = ap (λ n. n.timeout_ms) same in
    at_deadline now m tx_start timeout_ms began limit
