-- ===== src/Incident/Store/Writes.antt =====
-- What the writing methods of Memory do, as the cases that their callers split on.
use go_on_call_agent.Prelude.{
  ◌==◌, String, true, false, Option, none, some, List, [], ◌∷◌, ◌++◌, any, snoc, ◌≡◌, refl, ◌⊎◌,
  inl, inr, arith, str_eq, eq_iff, if◌then◌else◌, Option-cases, Bool-cases,
}
use mathlib.Core.List.{append-nil, append_assoc}
use go_on_call_agent.Errors.{
  Error, is, sentinel, not_found, concurrent_modification, conflict, ok, err,
}
use go_on_call_agent.Dict.{lookup, insert, values, get_list}
use go_on_call_agent.Dict.Laws.{lookup-insert}
use go_on_call_agent.Incident.{Incident, next_version}
use go_on_call_agent.Incident.Event.{IncidentEvent}
use go_on_call_agent.Incident.Store.{
  Memory, blocks, check_create_conflicts, check_update_conflicts, check_event_conflict,
  check_events, create_locked, update_locked, add_event_locked, add_events, create_with_event,
  update_with_event, update_with_events,
}

abbrev pub stored : Memory → Incident → Memory
stored m inc = record m { items = insert inc.id inc m.items }

abbrev pub bumped : Incident → Incident
bumped inc = record inc { version = next_version inc.version }

-- What a creation has found and done.
pub record Created (m : Memory) (inc : Incident) (ev : Option IncidentEvent) : Type 0 where
  pub fresh : lookup inc.id m.items ≡ none
  pub unblocked : any (blocks inc) (values m.items) ≡ false
  pub result : create_with_event m inc ev ≡ (ok tt, add_event_locked (stored m inc) ev)

-- The only refusal of an event is a conflict.
check_event_conflict-cases :
    (m : Memory) (ev : Option IncidentEvent)
    → (check_event_conflict m ev ≡ none) ⊎ (check_event_conflict m ev ≡ some (sentinel conflict))
unfolding check_event_conflict
check_event_conflict-cases m none = inl refl
check_event_conflict-cases m (some ev) = ground arith

-- A creation is refused by a conflict and writes nothing, or it writes the incident and the event.
pub create_with_event-cases :
    (m : Memory) (inc : Incident) (ev : Option IncidentEvent)
    → ((e : Error) × (create_with_event m inc ev ≡ (err e, m)) × (is e conflict ≡ true))
      ⊎ Created m inc ev
unfolding create_with_event create_locked check_create_conflicts
create_with_event-cases m inc ev = elim (Option-cases (lookup inc.id m.items)) [
  | inr (x, found) ↦ inl (sentinel conflict, ground arith, refl)
  | inl fresh ↦ elim (Bool-cases (any (blocks inc) (values m.items))) [
    | inl hit ↦ inl (sentinel conflict, ground arith, refl)
    | inr clear ↦ elim (check_event_conflict-cases m ev) [
      | inr taken ↦ inl (sentinel conflict, ground arith, refl)
      | inl free ↦ inr (record { fresh = fresh; unblocked = clear; result = ground arith })
    ]
  ]
]

-- What an update has found and done.
pub record Updated (m : Memory) (inc : Incident) (evs : List (Option IncidentEvent)) : Type 0 where
  pub cur : Incident
  pub found : lookup inc.id m.items ≡ some cur
  pub same_version : cur.version ≡ inc.version
  pub result :
      update_with_events m inc evs ≡ (ok (bumped inc), add_events (stored m (bumped inc)) evs)

pub update_with_events-cases :
    (m : Memory) (inc : Incident) (evs : List (Option IncidentEvent))
    → ((e : Error) × (update_with_events m inc evs ≡ (err e, m))) ⊎ Updated m inc evs
unfolding update_with_events update_locked check_update_conflicts
update_with_events-cases m inc evs = elim (Option-cases (lookup inc.id m.items)) [
  | inl missing ↦ inl (sentinel not_found, ground arith)
  | inr (cur, found) ↦ elim (Bool-cases (cur.version == inc.version)) [
    | inr stale ↦ inl (sentinel concurrent_modification, ground arith)
    | inl same ↦ elim (Option-cases (check_events m [] evs)) [
      | inr (e, taken) ↦ inl (e, ground arith)
      | inl free ↦
          inr (record {
            cur = cur;
            found = found;
            same_version = ground arith;
            result = ground arith;
          })
    ]
  ]
]

-- An update of the stored version with unused event ids returns.
pub update_with_events-ok :
    (m : Memory) (inc cur : Incident) (evs : List (Option IncidentEvent))
    → lookup inc.id m.items ≡ some cur
    → cur.version ≡ inc.version
    → check_events m [] evs ≡ none
    → (update_with_events m inc evs).0 ≡ ok (bumped inc)
unfolding update_with_events update_locked check_update_conflicts
update_with_events-ok m inc cur evs found same free = ground arith

-- One event is a list of one.
pub update_with_event_lem :
    (m : Memory) (inc : Incident) (ev : Option IncidentEvent)
    → update_with_event m inc ev ≡ update_with_events m inc (ev ∷ [])
unfolding update_with_event update_with_events check_events add_events check_event_conflict
update_with_event_lem m inc none = ground arith
update_with_event_lem m inc (some ev) = ground arith

-- Writing events leaves the incidents alone.
pub items-add_events :
    (m : Memory) (evs : List (Option IncidentEvent)) → (add_events m evs).items ≡ m.items
unfolding add_events add_event_locked
items-add_events m [] = refl
items-add_events m (none ∷ evs) = items-add_events m evs
items-add_events m (some ev ∷ evs) = items-add_events (add_event_locked m (some ev)) evs

-- The events of the list, without the nil ones.
abbrev pub present : List (Option IncidentEvent) → List IncidentEvent
present [] = []
present (none ∷ evs) = present evs
present (some ev ∷ evs) = ev ∷ present evs

-- Every event of the list is about the incident.
abbrev pub AllOf : String → List (Option IncidentEvent) → Type 0
AllOf id [] = Unit
AllOf id (none ∷ evs) = AllOf id evs
AllOf id (some ev ∷ evs) = (ev.incident_id ≡ id) × AllOf id evs

add_event_locked-none : (m : Memory) → add_event_locked m none ≡ m
unfolding add_event_locked
add_event_locked-none m = refl

events-add_event :
    (m : Memory) (ev : IncidentEvent) (id k : String)
    → ev.incident_id ≡ id
    → get_list (lookup k (add_event_locked m (some ev)).events) ≡ (
        if str_eq id k
        then snoc (get_list (lookup k m.events)) ev
        else get_list (lookup k m.events))
unfolding add_event_locked
events-add_event m ev id k e = ground (
  arith,
  lookup-insert ev.incident_id k (snoc (get_list (lookup ev.incident_id m.events)) ev) m.events,
  eq_iff ev.incident_id k,
)

-- The events go behind those that the incident has, and no other incident's events change.
pub events-add_events :
    (m : Memory) (evs : List (Option IncidentEvent)) (id k : String)
    → AllOf id evs
    → get_list (lookup k (add_events m evs).events) ≡ (
        if str_eq id k
        then get_list (lookup k m.events) ++ present evs
        else get_list (lookup k m.events))
unfolding add_events
events-add_events m [] id k h = ground (arith, append-nil (get_list (lookup k m.events)))
events-add_events m (none ∷ evs) id k h =
    rw (add_events, add_event_locked-none m) (events-add_events m evs id k h)
events-add_events m (some ev ∷ evs) id k h = ground (
  arith,
  events-add_events (add_event_locked m (some ev)) evs id k,
  events-add_event m ev id k,
  append_assoc (get_list (lookup k m.events)) (ev ∷ []) (present evs),
)
