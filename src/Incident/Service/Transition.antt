-- ===== src/Incident/Service/Transition.antt =====
-- transitionWithAudit: its cases.
use go_on_call_agent.Prelude.{
  String, true, Option, some, List, [], ◌∷◌, ◌≡◌, arith, str_eq, ◌⊎◌, inl, inr, Bool-cases,
  if◌then◌else◌, ◌<>◌,
}
use go_on_call_agent.Errors.{Error, sentinel, wrap, invalid_transition, Result, ok, err}
use go_on_call_agent.Dict.{Dict, lookup}
use go_on_call_agent.Incident.{Incident, Status}
use go_on_call_agent.Incident.Event.{IncidentEvent, Value}
use go_on_call_agent.Incident.StateMachine.{can_transition, transition, transition_error}
use go_on_call_agent.Incident.Store.{Memory, update_with_events, add_events}
use go_on_call_agent.Incident.Store.Writes.{
  stored, bumped, update_with_events-cases, update_with_event_lem,
}
use go_on_call_agent.Incident.Service.{
  Stamp, moved, status_event, audit_event, write_transition, update_error, transition_commit,
}

-- The events that one transition writes, in order.
abbrev pub transition_events :
    Stamp → Incident → Status → String → String → String → Dict Value → List (Option IncidentEvent)
transition_events t inc to reason err_msg event_type payload =
    if str_eq event_type ""
    then some (status_event t inc to reason err_msg) ∷ []
    else some (status_event t inc to reason err_msg)
      ∷ some (audit_event t inc to event_type payload)
      ∷ []

pub write_transition_lem :
    (m : Memory) (t : Stamp) (inc : Incident) (to : Status) (reason err_msg event_type : String)
    (payload : Dict Value)
    → write_transition m t inc to reason err_msg event_type payload
      ≡ update_with_events m
          (moved t inc to)
          (transition_events t inc to reason err_msg event_type payload)
unfolding write_transition
write_transition_lem m t inc to reason err_msg event_type payload =
    elim (Bool-cases (str_eq event_type "")) [
      | inl plain_move ↦
          rw plain_move
            (update_with_event_lem m (moved t inc to) (some (status_event t inc to reason err_msg)))
      | inr audited ↦ rw audited
    ]

-- A transition that went through.
pub record Moved (m : Memory) (t : Stamp) (inc : Incident) (to : Status)
    (evs : List (Option IncidentEvent)) (r : Result Incident × Memory) : Type 0 where
  pub allowed : can_transition inc.status to ≡ true
  pub cur : Incident
  pub found : lookup inc.id m.items ≡ some cur
  pub same_version : cur.version ≡ inc.version
  pub result :
      r ≡ (ok (bumped (moved t inc to)), add_events (stored m (bumped (moved t inc to))) evs)

module _ (m : Memory) (t : Stamp) (id : String) (inc : Incident) (to : Status)
    (reason err_msg event_type : String) (payload : Dict Value) where
  pub transition_commit-cases :
      ((e : Error) × (transition_commit m t id inc to reason err_msg event_type payload
          ≡ (err e, m)))
      ⊎ Moved m t inc to
          (transition_events t inc to reason err_msg event_type payload)
          (transition_commit m t id inc to reason err_msg event_type payload)
  unfolding transition_commit transition
  transition_commit-cases = elim (Bool-cases (can_transition inc.status to)) [
    | inr refused ↦ inl (
      wrap "" (sentinel invalid_transition) (": " <> (transition_error inc.status to).text),
      ground arith,
    )
    | inl allowed ↦
        elim (update_with_events-cases m (moved t inc to)
          (transition_events t inc to reason err_msg event_type payload)) [
            | inl (e, failed) ↦ inl (
              update_error id e,
              ground (arith, write_transition_lem m t inc to reason err_msg event_type payload),
            )
            | inr u ↦ inr (record {
              allowed = allowed;
              cur = u.cur;
              found = unfold moved in u.found;
              same_version = unfold moved in u.same_version;
              result = ground (
                arith,
                write_transition_lem m t inc to reason err_msg event_type payload,
                u.result,
              );
            })
          ]
  ]
