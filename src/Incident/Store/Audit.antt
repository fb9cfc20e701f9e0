-- ===== src/Incident/Store/Audit.antt =====
-- The audit trail: what the events of an incident say of its status. `replay` is the reader's view:
-- it follows the status events, and fails where one does not start from the status reached so far.
use go_on_call_agent.Prelude.{
  ℕ, String, Bool, true, false, Option, none, some, List, [], ◌∷◌, ◌++◌, ◌||◌, ◌≡◌, refl, sym, ◌∙◌,
  arith, str_eq, eq_iff, if◌then◌else◌, String-cases, Bool-cases, inl, inr, ◌⊎◌,
}
use go_on_call_agent.Dict.{lookup, insert}
use go_on_call_agent.Dict.Laws.{lookup-insert}
use go_on_call_agent.Incident.{
  Incident, Status, raw, valid, status_eq, status_text, to_status, to_status-status_text,
  status_eq_self,
}
use go_on_call_agent.Incident.Event.{
  IncidentEvent, incident_created, status_transition, new_incident_event, insert_nonempty,
  payload_string, status_change_from, status_change_to,
}
use go_on_call_agent.Incident.Store.{Memory, list_events, add_events}
use go_on_call_agent.Incident.Store.Writes.{
  stored, present, AllOf, events-add_events, items-add_events,
}

unfoldable pub is_status_type : String → Bool
is_status_type t = str_eq t incident_created || str_eq t status_transition

unfoldable pub replay : Status → List IncidentEvent → Option Status
replay cur [] = some cur
replay cur (e ∷ es) =
    let moved = replay (status_change_to e) es in
    let same = replay cur es in
    if is_status_type e.event_type
    then (if status_eq (status_change_from e) cur then moved else none)
    else same

pub replay-append :
    (s t : Status) (xs ys : List IncidentEvent)
    → replay s xs ≡ some t
    → replay s (xs ++ ys) ≡ replay t ys
unfolding replay
replay-append s t [] ys h = ground arith
replay-append s t (e ∷ xs) ys h = elim (Bool-cases (is_status_type e.event_type)) [
  | inr audit ↦ rw (replay, audit) (replay-append s t xs ys (rw (replay, audit) at h))
  | inl status ↦ elim (Bool-cases (status_eq (status_change_from e) s)) [
    | inr broken ↦ cc (rw (replay, status, broken) at h)
    | inl joined ↦
        rw (replay, status, joined)
          (replay-append (status_change_to e) t xs ys (rw (replay, status, joined) at h))
  ]
]

pub replay-nil : (s : Status) → replay s [] ≡ some s
unfolding replay
replay-nil s = refl

-- An event of another type leaves the trail where it is.
pub replay-audit_event :
    (s : Status) (e : IncidentEvent) (es : List IncidentEvent)
    → is_status_type e.event_type ≡ false
    → replay s (e ∷ es) ≡ replay s es
unfolding replay
replay-audit_event s e es kind = rw kind

-- A status event of the program carries the statuses that it was made from.
pub status_change-new_incident_event :
    (uuid : String) (now : ℕ) (id event_type : String) (from to : Status) (reason err_msg : String)
    → let e = new_incident_event uuid now id event_type from to reason err_msg in
      (status_change_from e ≡ to_status (status_text from))
      × (status_change_to e ≡ to_status (status_text to))
unfolding status_change_from status_change_to payload_string new_incident_event insert_nonempty
    lookup insert
status_change-new_incident_event uuid now id event_type from to reason err_msg =
    (ground arith, ground arith)

-- One status event takes the trail from `from` to `to`; an audit event of another type changes nothing.
module _ (uuid : String) (now : ℕ) (id event_type : String) (from to : Status)
    (reason err_msg : String) (rest : List IncidentEvent) where
  pub replay-status_event :
      is_status_type event_type ≡ true
      → to_status (status_text from) ≡ from
      → valid to ≡ true
      → replay from (new_incident_event uuid now id event_type from to reason err_msg ∷ rest)
        ≡ replay to rest
  unfolding replay
  replay-status_event kind known target = ground (
    arith,
    status_change-new_incident_event uuid now id event_type from to reason err_msg,
    status_eq_self from,
    to_status-status_text to target,
    event_type-new_incident_event,
  )
    where
      event_type-new_incident_event :
          (new_incident_event uuid now id event_type from to reason err_msg).event_type ≡ event_type
      event_type-new_incident_event = unfold new_incident_event in refl

pub record IsAudited (m : Memory) : Type 0 where
  pub known : (k : String) (i : Incident) → lookup k m.items ≡ some i → valid i.status ≡ true
  pub replayed :
      (k : String) (i : Incident)
      → lookup k m.items ≡ some i
      → replay (raw "") (list_events m k) ≡ some i.status
  pub quiet : (k : String) → lookup k m.items ≡ none → list_events m k ≡ []

-- A write of an incident with events of its own.
module _ (m : Memory) (inc : Incident) (evs : List (Option IncidentEvent))
    (own : AllOf inc.id evs) where
  abbrev after : Memory
  after = add_events (stored m inc) evs

  pub list_events-write :
      (k : String)
      → list_events after k
        ≡ (if str_eq inc.id k then list_events m k ++ present evs else list_events m k)
  unfolding list_events
  list_events-write k = events-add_events (stored m inc) evs inc.id k own

  pub lookup-write :
      (k : String) → lookup k after.items ≡ (if str_eq inc.id k then some inc else lookup k m.items)
  lookup-write k = rw (items-add_events (stored m inc) evs) (lookup-insert inc.id k inc m.items)

  -- At the written incident the new values are found, elsewhere the old ones.
  at_written :
      (k : String)
      → ((k ≡ inc.id)
          × (lookup k after.items ≡ some inc)
          × (list_events after k ≡ list_events m inc.id ++ present evs))
        ⊎ ((lookup k after.items ≡ lookup k m.items) × (list_events after k ≡ list_events m k))
  at_written k = elim (String-cases inc.id k) [
    | inl same ↦ inl (
      sym same,
      ground (arith, lookup-write k, eq_iff inc.id k),
      ground (arith, list_events-write k, eq_iff inc.id k),
    )
    | inr differ ↦ inr (
      ground (arith, lookup-write k, eq_iff inc.id k),
      ground (arith, list_events-write k, eq_iff inc.id k),
    )
  ]

  -- The events take the trail from the status that was stored (from none, for a new incident) to the
  -- new one.
  pub write-IsAudited :
      (before : Status)
      → IsAudited m
      → valid inc.status ≡ true
      → replay (raw "") (list_events m inc.id) ≡ some before
      → replay before (present evs) ≡ some inc.status
      → IsAudited after
  write-IsAudited before h target so_far trail = record {
    known = λ k i there. elim (at_written k) [
      | inl (e, new, l) ↦ let is_new : i ≡ inc = cc in rw is_new target
      | inr (old, l) ↦ h.known k i (sym old ∙ there)
    ];
    replayed = λ k i there. elim (at_written k) [
      | inl (e, new, l) ↦
          let is_new : i ≡ inc = cc in
          rw (l, is_new)
            (replay-append (raw "") before (list_events m inc.id) (present evs) so_far ∙ trail)
      | inr (old, l) ↦ rw l (h.replayed k i (sym old ∙ there))
    ];
    quiet = λ k absent. elim (at_written k) [
      | inl (e, new, l) ↦ cc
      | inr (old, l) ↦ l ∙ h.quiet k (sym old ∙ absent)
    ];
  }
