-- ===== src/Incident/Service/Audit.antt =====
-- The invariant of the incidents, and that a transition keeps it.
use go_on_call_agent.Prelude.{
  String, true, false, Option, some, List, [], ◌∷◌, ◌≡◌, refl, sym, ◌∙◌, ap, arith, str_eq, inl,
  inr, Bool-cases,
}
use go_on_call_agent.Errors.{Result, ok, Result-cases}
use go_on_call_agent.Dict.{Dict, lookup}
use go_on_call_agent.Incident.{Incident, Status, valid, to_status-status_text}
use go_on_call_agent.Incident.Event.{
  IncidentEvent, Value, status_transition, new_incident_event, new_audit_event,
}
use go_on_call_agent.Incident.StateMachine.{can_transition_ends}
use go_on_call_agent.Incident.Store.{Memory, new_memory, get_by_id, list_events}
use go_on_call_agent.Incident.Store.Writes.{stored, bumped, present, AllOf, items-add_events}
use go_on_call_agent.Incident.Store.Unique.{IsUnique, IsUnique-nil, update-IsUnique}
use go_on_call_agent.Incident.Store.Audit.{
  IsAudited, replay, replay-nil, replay-audit_event, is_status_type, replay-status_event,
  write-IsAudited,
}
use go_on_call_agent.Incident.Service.{
  Stamp, moved, status_event, audit_event, transition_commit, transition_with_audit,
}
use go_on_call_agent.Incident.Service.Transition.{transition_events, Moved, transition_commit-cases}

-- No fingerprint has two active incidents, and every incident's events replay to its status.
pub record IsValid (m : Memory) : Type 0 where
  pub unique : IsUnique m.items
  pub audited : IsAudited m

-- What was read of an incident, if nothing has written it since.
abbrev pub IsSnapshot : Memory → Incident → Type 0
IsSnapshot m inc =
    (cur : Incident) → lookup inc.id m.items ≡ some cur → cur.version ≡ inc.version → cur ≡ inc

module _ (t : Stamp) (inc : Incident) (to : Status) (reason err_msg event_type : String)
    (payload : Dict Value) where
  abbrev pub evs : List (Option IncidentEvent)
  evs = transition_events t inc to reason err_msg event_type payload

  pub transition_events-own : AllOf inc.id evs
  unfolding status_event audit_event new_incident_event new_audit_event
  transition_events-own = elim (Bool-cases (str_eq event_type "")) [
    | inl bare ↦ rw bare (refl, tt)
    | inr audited ↦ rw audited (refl, (refl, tt))
  ]

  transition_events-replay :
      is_status_type event_type ≡ false
      → valid inc.status ≡ true
      → valid to ≡ true
      → replay inc.status (present evs) ≡ some to
  unfolding status_event audit_event new_audit_event is_status_type
  transition_events-replay kind known target = elim (Bool-cases (str_eq event_type "")) [
    | inl bare ↦ rw bare (first [] ∙ replay-nil to)
    | inr audited ↦ rw audited (
        first (audit_event t inc to event_type payload ∷ [])
        ∙ replay-audit_event to (audit_event t inc to event_type payload) [] kind
        ∙ replay-nil to)
  ]
    where
      first :
          (rest : List IncidentEvent)
          → replay inc.status (status_event t inc to reason err_msg ∷ rest) ≡ replay to rest
      first rest =
          replay-status_event t.event_id t.now inc.id status_transition inc.status to reason err_msg
            rest refl (to_status-status_text inc.status known) target

  -- A transition that goes through keeps the invariant.
  pub Moved-IsValid :
      (m : Memory) (r : Result Incident × Memory)
      → IsValid m
      → IsSnapshot m inc
      → is_status_type event_type ≡ false
      → Moved m t inc to evs r
      → IsValid r.1
  unfolding moved
  Moved-IsValid m r h snap kind v =
      let (alive, known, target, _) = can_transition_ends inc.status to v.allowed in
      let same : v.cur ≡ inc = snap v.cur v.found v.same_version in
      rw v.result record {
        unique = rw (items-add_events (stored m (bumped (moved t inc to))) evs) (
            update-IsUnique m.items h.unique (bumped (moved t inc to)) v.cur v.found
              (ap (λ i. i.fingerprint) (sym same)) (λ _. rw same alive));
        audited =
            write-IsAudited m (bumped (moved t inc to)) evs transition_events-own inc.status
              h.audited target (rw same at (h.audited.replayed inc.id v.cur v.found))
              (transition_events-replay kind known target);
      }

pub new_memory-IsValid : IsValid new_memory
unfolding lookup
new_memory-IsValid = record {
  unique = IsUnique-nil;
  audited = record {
    known = λ k i h. cc;
    replayed = λ k i h. cc;
    quiet = λ k h. unfold list_events in refl;
  };
}

-- A stored incident is a snapshot of itself.
pub get_by_id-lookup :
    (m : Memory) (id : String) (inc : Incident)
    → get_by_id m id ≡ ok inc
    → lookup id m.items ≡ some inc
unfolding get_by_id
get_by_id-lookup m id inc h = ground arith

module _ (m : Memory) (t : Stamp) (id : String) (to : Status) (reason err_msg event_type : String)
    (payload : Dict Value) (h : IsValid m) (kind : is_status_type event_type ≡ false) where
  -- Also where other requests ran between the read of the incident and the write.
  pub transition_commit-IsValid :
      (inc : Incident)
      → IsSnapshot m inc
      → IsValid (transition_commit m t id inc to reason err_msg event_type payload).1
  transition_commit-IsValid inc snap =
      elim (transition_commit-cases m t id inc to reason err_msg event_type payload) [
        | inl (e, refused) ↦ rw refused h
        | inr v ↦ Moved-IsValid t inc to reason err_msg event_type payload m _ h snap kind v
      ]

  get_by_id-IsSnapshot : (inc : Incident) → get_by_id m id ≡ ok inc → IsSnapshot m inc
  get_by_id-IsSnapshot inc read cur found same =
      let at : lookup id m.items ≡ some inc = get_by_id-lookup m id inc read in
      let key : inc.id ≡ id = h.unique.keyed id inc at in cc

  -- Every transition, refused or not, keeps the invariant.
  pub transition_with_audit-IsValid :
      IsValid (transition_with_audit m t id to reason err_msg event_type payload).1
  unfolding transition_with_audit
  transition_with_audit-IsValid = elim (Result-cases (get_by_id m id)) [
    | inr (e, missing) ↦ rw (transition_with_audit, missing) h
    | inl (inc, read) ↦
        rw (transition_with_audit, read)
          (transition_commit-IsValid inc (get_by_id-IsSnapshot inc read))
  ]
