-- ===== src/Incident/Store.antt =====
-- internal/incident/repository/memory.go and event_memory.go: the in-memory repository of incidents
-- and their audit events. One method is one critical section, so it is one function.
pub mod Writes
pub mod Listing
pub mod Audit
pub mod Search
pub mod Unique
use go_on_call_agent.Prelude.{
  ℕ, String, Bool, true, false, Option, none, some, List, [], ◌∷◌, ◌++◌, ◌&&◌, ◌||◌, any, snoc, not,
  str_eq, ltb, leb, ◌==◌, if◌then◌else◌, ◌≡◌, refl, length,
}
use go_on_call_agent.Errors.{
  Error, Sentinel, sentinel, not_found, conflict, concurrent_modification, Result, ok, err,
}
use go_on_call_agent.Dict.{Dict, lookup, insert, values, get_list}
use go_on_call_agent.Incident.{
  Incident, Status, raw, is_terminal, status_eq, status_text, next_version,
}
use go_on_call_agent.Incident.Event.{IncidentEvent}

pub record Memory : Type 0 where
  pub items : Dict Incident
  pub events : Dict (List IncidentEvent)

-- NewMemory
abbrev pub new_memory : Memory
new_memory = record { items = []; events = [] }

-- The test in the loop of checkCreateConflicts.
unfoldable pub blocks : Incident → Incident → Bool
blocks inc existing =
    not (str_eq existing.fingerprint "")
    && (str_eq existing.fingerprint inc.fingerprint && not (is_terminal existing.status))

-- checkCreateConflicts; `none` is a nil error.
unfoldable pub check_create_conflicts : Memory → Incident → Option Error
check_create_conflicts m inc = elim (lookup inc.id m.items) [
  | some _ ↦ some (sentinel conflict)
  | none ↦ if any (blocks inc) (values m.items) then some (sentinel conflict) else none
]

version_conflict : Option Incident → Incident → Option Error
version_conflict none inc = some (sentinel not_found)
version_conflict (some cur) inc =
    if cur.version == inc.version then none else some (sentinel concurrent_modification)

-- checkUpdateConflicts
unfoldable pub check_update_conflicts : Memory → Incident → Option Error
unfolding version_conflict
check_update_conflicts m inc = version_conflict (lookup inc.id m.items) inc

-- checkEventConflict, where `none` is a nil event: event ids are unique across incidents.
unfoldable pub check_event_conflict : Memory → Option IncidentEvent → Option Error
check_event_conflict m none = none
check_event_conflict m (some ev) =
    if any (λ list. any (λ (existing : IncidentEvent). str_eq existing.id ev.id) list)
      (values m.events)
    then some (sentinel conflict)
    else none

-- addEventLocked; the clone is a copy, which a value is already.
unfoldable pub add_event_locked : Memory → Option IncidentEvent → Memory
add_event_locked m none = m
add_event_locked m (some ev) = record m {
  events = insert ev.incident_id (snoc (get_list (lookup ev.incident_id m.events)) ev) m.events;
}

-- createLocked makes the checks of checkCreateConflicts again, and writes.
unfoldable pub create_locked : Memory → Incident → Result Memory
unfolding check_create_conflicts
create_locked m inc = elim (check_create_conflicts m inc) [
  | some e ↦ err e
  | none ↦ ok (record m { items = insert inc.id inc m.items })
]

-- updateLocked makes the checks of checkUpdateConflicts again, and writes the next version.
unfoldable pub update_locked : Memory → Incident → Result Memory
unfolding check_update_conflicts
update_locked m inc = elim (check_update_conflicts m inc) [
  | some e ↦ err e
  | none ↦ ok (record m {
    items = insert inc.id (record inc { version = next_version inc.version }) m.items;
  })
]

-- CreateWithEvent
unfoldable pub create_with_event :
    Memory → Incident → Option IncidentEvent → Result (Unit {0}) × Memory
create_with_event m inc ev = elim (check_create_conflicts m inc) [
  | some e ↦ (err e, m)
  | none ↦ elim (check_event_conflict m ev) [
    | some e ↦ (err e, m)
    | none ↦ elim (create_locked m inc) [
      | err e ↦ (err e, m)
      | ok m' ↦ (ok tt, add_event_locked m' ev)
    ]
  ]
]

-- Create
unfoldable pub create : Memory → Incident → Result (Unit {0}) × Memory
unfolding create_with_event
create m inc = create_with_event m inc none

-- The loop of UpdateWithEvents over the events, with the ids seen so far; `none` is a nil event.
unfoldable pub check_events : Memory → List String → List (Option IncidentEvent) → Option Error
check_events m seen [] = none
check_events m seen (none ∷ evs) = check_events m seen evs
check_events m seen (some ev ∷ evs) =
    let rest = check_events m (ev.id ∷ seen) evs in
    elim (check_event_conflict m (some ev)) [
      | some e ↦ some e
      | none ↦ if any (str_eq ev.id) seen then some (sentinel conflict) else rest
    ]

unfoldable pub add_events : Memory → List (Option IncidentEvent) → Memory
add_events m [] = m
add_events m (ev ∷ evs) = add_events (add_event_locked m ev) evs

-- UpdateWithEvents. The result is the caller's incident after `inc.Version++`.
unfoldable pub update_with_events :
    Memory → Incident → List (Option IncidentEvent) → Result Incident × Memory
update_with_events m inc evs = elim (check_update_conflicts m inc) [
  | some e ↦ (err e, m)
  | none ↦ elim (check_events m [] evs) [
    | some e ↦ (err e, m)
    | none ↦ elim (update_locked m inc) [
      | err e ↦ (err e, m)
      | ok m' ↦ (ok (record inc { version = next_version inc.version }), add_events m' evs)
    ]
  ]
]

-- UpdateWithEvent
unfoldable pub update_with_event :
    Memory → Incident → Option IncidentEvent → Result Incident × Memory
update_with_event m inc ev = elim (check_update_conflicts m inc) [
  | some e ↦ (err e, m)
  | none ↦ elim (check_event_conflict m ev) [
    | some e ↦ (err e, m)
    | none ↦ elim (update_locked m inc) [
      | err e ↦ (err e, m)
      | ok m' ↦ (ok (record inc { version = next_version inc.version }), add_event_locked m' ev)
    ]
  ]
]

-- Update
unfoldable pub update : Memory → Incident → Result Incident × Memory
unfolding update_with_event
update m inc = update_with_event m inc none

-- ListEvents
unfoldable pub list_events : Memory → String → List IncidentEvent
list_events m incident_id = get_list (lookup incident_id m.events)

abbrev pub or_not_found : Option Incident → Result Incident
or_not_found none = err (sentinel not_found)
or_not_found (some inc) = ok inc

-- GetByID
unfoldable pub get_by_id : Memory → String → Result Incident
get_by_id m id = or_not_found (lookup id m.items)

-- One round of the search loops: keep the newer of the two.
abbrev pub newer : Option Incident → Incident → Option Incident
newer none inc = some inc
newer (some found) inc = if ltb found.created_at inc.created_at then some inc else some found

-- The loop of GetByFingerprint and GetActiveByFingerprint.
unfoldable pub newest : (Incident → Bool) → Option Incident → List Incident → Option Incident
newest keep found [] = found
newest keep found (inc ∷ rest) = newest keep (if keep inc then newer found inc else found) rest

-- GetByFingerprint
unfoldable pub get_by_fingerprint : Memory → String → Result Incident
unfolding newest
get_by_fingerprint m fingerprint =
    or_not_found (newest (λ inc. str_eq inc.fingerprint fingerprint) none (values m.items))

abbrev pub is_active_of : String → Incident → Bool
is_active_of fingerprint inc = str_eq inc.fingerprint fingerprint && not (is_terminal inc.status)

-- GetActiveByFingerprint
unfoldable pub get_active_by_fingerprint : Memory → String → Result Incident
unfolding newest
get_active_by_fingerprint m fingerprint =
    or_not_found (newest (is_active_of fingerprint) none (values m.items))
