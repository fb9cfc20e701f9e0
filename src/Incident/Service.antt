-- ===== src/Incident/Service.antt =====
-- internal/incident/service/service.go over the in-memory repository. The clock and the uuids come
-- in as a stamp; metrics are left out.
pub mod Transition
pub mod Audit
pub mod Create
pub mod Recovery
pub mod Effect
pub mod Lifecycle
pub mod Terminal
use go_on_call_agent.Prelude.{
  ℕ, String, Bool, true, false, Option, none, some, List, [], ◌∷◌, str_eq, ◌==◌, ◌<>◌, ◌||◌,
  if◌then◌else◌,
}
use go_on_call_agent.Errors.{
  Error, sentinel, wrap, is, not_found, conflict, concurrent_modification, invalid_input,
  invalid_transition, Result, ok, err,
}
use go_on_call_agent.Dict.{Dict, insert}
use go_on_call_agent.Incident.{
  Incident, Status, opened, mitigating, verifying, resolved, investigating, failed, raw, status_eq,
  status_text, make_fingerprint,
}
use go_on_call_agent.Incident.Event.{
  IncidentEvent, Value, text, new_incident_event, new_audit_event, incident_created,
  status_transition,
}
use go_on_call_agent.Incident.StateMachine.{transition}
use go_on_call_agent.Incident.Store.{
  Memory, create_with_event, update_with_event, update_with_events, get_by_id, get_by_fingerprint,
  get_active_by_fingerprint, list_events,
}

-- What one call draws from the clock and from the uuid generator.
pub record Stamp : Type 0 where
  pub now : ℕ
  pub id : String
  pub event_id : String
  pub audit_id : String

pub record CreateIncidentInput : Type 0 where
  pub service : String
  pub severity : String
  pub title : String
  pub description : String
  pub alert_name : String

-- The incident that Create builds.
unfoldable pub new_incident : Stamp → CreateIncidentInput → String → Incident
new_incident t input fingerprint = record {
  id = "inc_" <> t.id;
  service = input.service;
  severity = if str_eq input.severity "" then "MEDIUM" else input.severity;
  title = input.title;
  description = input.description;
  alert_name = input.alert_name;
  fingerprint = fingerprint;
  status = opened;
  started_at = t.now;
  resolved_at = none;
  created_at = t.now;
  updated_at = t.now;
  version = 0;
}

unfoldable pub created_event : Stamp → Incident → IncidentEvent
created_event t inc =
    new_incident_event t.event_id t.now inc.id incident_created (raw "") opened "alert firing" ""

-- The answer after a refused write: the incident that another request created meanwhile.
unfoldable pub after_conflict : Memory → String → Error → Result (Incident × Bool)
after_conflict m fingerprint e =
    if is e conflict
    then elim (get_active_by_fingerprint m fingerprint) [
      | ok existing ↦ ok (existing, false)
      | err _ ↦ err e
    ]
    else err e

-- Create from the write on; other requests may have run since the search for duplicates.
unfoldable pub create_commit :
    Memory → Stamp → CreateIncidentInput → String → Result (Incident × Bool) × Memory
create_commit m t input fingerprint =
    let inc = new_incident t input fingerprint in
    let (r, m') = create_with_event m inc (some (created_event t inc)) in
    elim r [ ok _ ↦ (ok (inc, true), m') | err e ↦ (after_conflict m' fingerprint e, m') ]

-- Create, over the digest of `Fingerprint`.
unfoldable pub create :
    (String → String) → Memory → Stamp → CreateIncidentInput → Result (Incident × Bool) × Memory
create digest m t input =
    if str_eq input.service ""
    then (err (wrap "" (sentinel invalid_input) ": service is required"), m)
    else if str_eq input.title ""
    then (err (wrap "" (sentinel invalid_input) ": title is required"), m)
    else let fingerprint = make_fingerprint digest input.service input.alert_name input.title in
      elim (get_active_by_fingerprint m fingerprint) [
        | ok existing ↦ (ok (existing, false), m)
        | err e ↦ if is e not_found then create_commit m t input fingerprint else (err e, m)
      ]

-- The incident that a transition writes, from the one that it has read.
unfoldable pub moved : Stamp → Incident → Status → Incident
moved t inc to = record inc {
  status = to;
  updated_at = t.now;
  resolved_at = if status_eq to resolved then some t.now else inc.resolved_at;
}

unfoldable pub status_event : Stamp → Incident → Status → String → String → IncidentEvent
status_event t inc to reason err_msg =
    new_incident_event t.event_id t.now inc.id status_transition inc.status to reason err_msg

-- The audit event has the caller's entries and the two statuses.
unfoldable pub audit_event : Stamp → Incident → Status → String → Dict Value → IncidentEvent
audit_event t inc to event_type payload =
    new_audit_event t.audit_id t.now inc.id event_type
      (insert "to" (text (status_text to)) (insert "from" (text (status_text inc.status)) payload))

-- The write of transitionWithAudit: one event, or two if the caller names an event type.
unfoldable pub write_transition :
    Memory
    → Stamp
    → Incident
    → Status
    → String
    → String
    → String
    → Dict Value
    → Result Incident × Memory
write_transition m t inc to reason err_msg event_type payload =
    if str_eq event_type ""
    then update_with_event m (moved t inc to) (some (status_event t inc to reason err_msg))
    else update_with_events m (moved t inc to) (
        some (status_event t inc to reason err_msg)
        ∷ some (audit_event t inc to event_type payload)
        ∷ [])

-- The error of a refused update, as the caller of the service sees it.
unfoldable pub update_error : String → Error → Error
update_error id e =
    if is e concurrent_modification
    then wrap "" (sentinel concurrent_modification) (": incident " <> id)
    else e

-- transitionWithAudit from the write on, with the incident that it has read; other requests may have
-- run since.
unfoldable pub transition_commit :
    Memory
    → Stamp
    → String
    → Incident
    → Status
    → String
    → String
    → String
    → Dict Value
    → Result Incident × Memory
transition_commit m t id inc to reason err_msg event_type payload =
    elim (transition inc.status to) [
      | some e ↦ (err (wrap "" (sentinel invalid_transition) (": " <> e.text)), m)
      | none ↦
          let (r, m') = write_transition m t inc to reason err_msg event_type payload in
          elim r [ ok inc' ↦ (ok inc', m') | err e ↦ (err (update_error id e), m') ]
    ]

-- transitionWithAudit
unfoldable pub transition_with_audit :
    Memory
    → Stamp
    → String
    → Status
    → String
    → String
    → String
    → Dict Value
    → Result Incident × Memory
transition_with_audit m t id to reason err_msg event_type payload = elim (get_by_id m id) [
  | err e ↦ (err e, m)
  | ok inc ↦ transition_commit m t id inc to reason err_msg event_type payload
]

-- Transition, and MoveTo, which only calls it
unfoldable pub move_to : Memory → Stamp → String → Status → Result Incident × Memory
move_to m t id to = transition_with_audit m t id to "state machine transition" "" "" []

-- MoveToWithAudit
unfoldable pub move_to_with_audit :
    Memory → Stamp → String → Status → String → Dict Value → Result Incident × Memory
move_to_with_audit m t id to event_type payload =
    transition_with_audit m t id to "state machine transition" "" event_type payload

-- Fail
unfoldable pub fail : Memory → Stamp → String → String → String → Result Incident × Memory
fail m t id reason err_msg = transition_with_audit m t id failed reason err_msg "" []

-- Analyze
unfoldable pub analyze : Memory → Stamp → String → Result Incident × Memory
analyze m t id = move_to m t id investigating

-- Resolve
unfoldable pub resolve : Memory → Stamp → String → Result Incident × Memory
resolve m t id = move_to m t id resolved

-- PendingApprovalExpirer, on the state of the component that implements it; `none` is a nil interface.
abbrev pub Expirer : Type 0 → Type 0
Expirer S = Option (String → S → Result ℕ × S)

unfoldable pub expire_pending : {S : Type 0} → Expirer S → String → S → Result ℕ × S
expire_pending none id s = (ok 0, s)
expire_pending (some f) id s = f id s

-- The incident and the event that close an incident whose alert has recovered.
unfoldable pub closed_externally : Stamp → Incident → Incident
closed_externally t inc = record inc {
  status = resolved;
  resolved_at = some t.now;
  updated_at = t.now;
}

unfoldable pub recovery_event : Stamp → Incident → IncidentEvent
recovery_event t inc =
    new_incident_event t.event_id t.now inc.id status_transition inc.status resolved
      "external alert resolved" ""

-- ResolveExternally where no incident of the fingerprint is active.
unfoldable pub resolve_history : Memory → String → Error → Result Incident
resolve_history m fingerprint e =
    if is e not_found
    then elim (get_by_fingerprint m fingerprint) [
      | ok latest ↦ ok latest
      | err g ↦ err (
          if is g not_found
          then wrap "" (sentinel not_found) ": no incident for fingerprint"
          else g)
    ]
    else err e

-- ResolveExternally
unfoldable pub resolve_externally :
    {S : Type 0} → Expirer S → Memory → S → Stamp → String → Result Incident × Memory × S
resolve_externally expirer m s t fingerprint = elim (get_active_by_fingerprint m fingerprint) [
  | err e ↦ (resolve_history m fingerprint e, m, s)
  | ok inc ↦
      if status_eq inc.status mitigating || status_eq inc.status verifying
      then (
        err (
            wrap "" (sentinel invalid_transition)
              (": incident " <> inc.id <> " is " <> status_text inc.status)),
        m,
        s,
      )
      else let (r, s') = expire_pending expirer inc.id s in
        elim r [
          | err e ↦ (err (wrap ("expire pending approvals of " <> inc.id <> ": ") e ""), m, s')
          | ok _ ↦
              let (r', m') =
                update_with_event m (closed_externally t inc) (some (recovery_event t inc)) in
              (r', m', s')
        ]
]

-- ListEvents
unfoldable pub list_incident_events : Memory → String → Result (List IncidentEvent)
list_incident_events m id = elim (get_by_id m id) [ ok _ ↦ ok (list_events m id) | err e ↦ err e ]
