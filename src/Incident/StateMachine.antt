-- ===== src/Incident/StateMachine.antt =====
-- internal/incident/state_machine/transition.go
use go_on_call_agent.Prelude.{
  Bool, true, false, Option, none, some, List, [], ◌∷◌, any, ◌<>◌, if◌then◌else◌, ◌≡◌, ◌≢◌, arith,
}
use go_on_call_agent.Errors.{Error, plain}
use go_on_call_agent.Incident.{
  Status, opened, investigating, waiting_approval, mitigating, verifying, resolved, failed,
  status_text, status_eq, is_terminal, valid,
}

-- The table `transitions`, read through `AllowedTargets`; a missing key gives no target.
unfoldable pub allowed_targets : Status → List Status
allowed_targets opened = investigating ∷ failed ∷ []
allowed_targets investigating = waiting_approval ∷ failed ∷ []
allowed_targets waiting_approval = mitigating ∷ failed ∷ []
allowed_targets mitigating = verifying ∷ failed ∷ []
allowed_targets verifying = resolved ∷ failed ∷ []
allowed_targets _ = []

unfoldable pub can_transition : Status → Status → Bool
unfolding allowed_targets status_eq
can_transition current next = any (λ target. status_eq target next) (allowed_targets current)

-- A *TransitionError, by the text of its Error method.
unfoldable pub transition_error : Status → Status → Error
transition_error from to =
    plain ("invalid incident state transition: " <> status_text from <> " -> " <> status_text to)

-- `none` is a nil error.
unfoldable pub transition : Status → Status → Option Error
transition current next =
    if can_transition current next then none else some (transition_error current next)

-- An allowed target is a valid status other than OPEN, and only a status that is not terminal has one.
pub can_transition_ends :
    (a b : Status)
    → can_transition a b ≡ true
    → (is_terminal a ≡ false) × (valid a ≡ true) × (valid b ≡ true) × (b ≢ opened)
unfolding can_transition is_terminal
can_transition_ends a b h = ground arith
