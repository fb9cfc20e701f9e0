-- ===== src/Incident/Service/Create.antt =====
-- Create: deduplication by fingerprint, and the race that the repository decides.
use go_on_call_agent.Prelude.{
  String, Bool, true, false, Option, none, some, List, [], ◌∷◌, ◌≡◌, refl, ◌∙◌, arith, str_eq,
  eq_iff, inl, inr, Bool-cases,
}
use go_on_call_agent.Errors.{
  Error, Result, ok, err, Result-cases, is, not_found, conflict, invalid_input, wrap, sentinel,
}
use go_on_call_agent.Dict.{lookup}
use go_on_call_agent.Dict.Laws.{lookup-insert}
use go_on_call_agent.Incident.{Incident, opened, raw, to_status, is_terminal, make_fingerprint}
use go_on_call_agent.Incident.Event.{IncidentEvent, incident_created, new_incident_event}
use go_on_call_agent.Incident.Store.{
  Memory, create_with_event, add_events, get_active_by_fingerprint,
}
use go_on_call_agent.Incident.Store.Writes.{
  stored, Created, create_with_event-cases, items-add_events,
}
use go_on_call_agent.Incident.Store.Unique.{create-IsUnique}
use go_on_call_agent.Incident.Store.Search.{get_active-lookup}
use go_on_call_agent.Incident.Store.Audit.{
  is_status_type, replay-nil, replay-status_event, write-IsAudited,
}
use go_on_call_agent.Incident.Service.{
  Stamp, CreateIncidentInput, new_incident, created_event, after_conflict, create_commit, create,
}
use go_on_call_agent.Incident.Service.Audit.{IsValid}

abbrev pub fingerprint_of : (String → String) → CreateIncidentInput → String
fingerprint_of digest input = make_fingerprint digest input.service input.alert_name input.title

-- What an answer of Create says: an error comes with an unchanged store; an incident is stored and
-- active, with the fingerprint; the flag says whether this call stored it.
abbrev pub Answered : Memory → String → Result (Incident × Bool) × Memory → Type 0
Answered m fingerprint (err e, m') = m' ≡ m
Answered m fingerprint (ok (i, true), m') =
    (lookup i.id m.items ≡ none)
    × ((lookup i.id m'.items ≡ some i)
        × (i.fingerprint ≡ fingerprint)
        × (is_terminal i.status ≡ false))
Answered m fingerprint (ok (i, false), m') =
    (m' ≡ m)
    × ((lookup i.id m.items ≡ some i)
        × (i.fingerprint ≡ fingerprint)
        × (is_terminal i.status ≡ false))

module _ (m : Memory) (t : Stamp) (input : CreateIncidentInput) (fingerprint : String) where
  abbrev pub inc : Incident
  inc = new_incident t input fingerprint

  abbrev pub evs : List (Option IncidentEvent)
  evs = some (created_event t inc) ∷ []

  created-IsValid :
      IsValid m
      → Created m inc (some (created_event t inc))
      → IsValid (add_events (stored m inc) evs)
  unfolding new_incident created_event new_incident_event is_status_type to_status
  created-IsValid h c = record {
    unique =
        rw (items-add_events (stored m inc) evs) (create-IsUnique m.items h.unique inc c.unblocked);
    audited =
        write-IsAudited m inc evs (refl, tt) (raw "") h.audited refl
          (rw (h.audited.quiet inc.id c.fresh) (replay-nil (raw "")))
          (replay-status_event t.event_id t.now inc.id incident_created (raw "") opened
              "alert firing" "" [] refl refl refl
            ∙ replay-nil opened);
  }

  pub commit_refused :
      (e : Error)
      → create_with_event m inc (some (created_event t inc)) ≡ (err e, m)
      → create_commit m t input fingerprint ≡ (after_conflict m fingerprint e, m)
  unfolding create_commit
  commit_refused e h = ground (arith, h)

  pub commit_done :
      Created m inc (some (created_event t inc))
      → create_commit m t input fingerprint ≡ (ok (inc, true), add_events (stored m inc) evs)
  unfolding create_commit add_events
  commit_done c = ground (arith, c.result)

  -- The write keeps the invariant, also where other requests ran since the search for duplicates.
  pub create_commit-IsValid : IsValid m → IsValid (create_commit m t input fingerprint).1
  create_commit-IsValid h = elim (create_with_event-cases m inc (some (created_event t inc))) [
    | inl (e, refused, _) ↦ rw (commit_refused e refused) h
    | inr c ↦ rw (commit_done c) (created-IsValid h c)
  ]

  lookup-done : lookup inc.id (add_events (stored m inc) evs).items ≡ some inc
  lookup-done =
      rw (items-add_events (stored m inc) evs)
        (ground (arith, lookup-insert inc.id inc.id inc m.items, eq_iff inc.id inc.id))

  after_conflict-Answered :
      (e : Error) → IsValid m → Answered m fingerprint (after_conflict m fingerprint e, m)
  unfolding after_conflict
  after_conflict-Answered e h = elim (Bool-cases (is e conflict)) [
    | inr other ↦ rw other refl
    | inl clash ↦ elim (Result-cases (get_active_by_fingerprint m fingerprint)) [
      | inr (g, missing) ↦ rw (clash, missing) refl
      | inl (i, found) ↦ rw (clash, found) (refl, get_active-lookup m h.unique fingerprint i found)
    ]
  ]

  -- However the race ends, the answer is true of the store.
  pub create_commit-Answered :
      IsValid m → Answered m fingerprint (create_commit m t input fingerprint)
  create_commit-Answered h = elim (create_with_event-cases m inc (some (created_event t inc))) [
    | inl (e, refused, _) ↦ rw (commit_refused e refused) (after_conflict-Answered e h)
    | inr c ↦ rw (commit_done c) (
      c.fresh,
      (lookup-done, unfold new_incident in refl, unfold new_incident is_terminal in refl),
    )
  ]

-- The branches of Create.
pub data Route (digest : String → String) (m : Memory) (t : Stamp) (input : CreateIncidentInput)
    (r : Result (Incident × Bool) × Memory) : Type 0 where
  invalid : (e : Error) → r ≡ (err e, m) → Route digest m t input r
  duplicate :
      (i : Incident)
      → get_active_by_fingerprint m (fingerprint_of digest input) ≡ ok i
      → r ≡ (ok (i, false), m)
      → Route digest m t input r
  commit : r ≡ create_commit m t input (fingerprint_of digest input) → Route digest m t input r

module _ (digest : String → String) (m : Memory) (t : Stamp) (input : CreateIncidentInput) where
  pub create-Route : Route digest m t input (create digest m t input)
  unfolding create
  create-Route = elim (Bool-cases (str_eq input.service "")) [
    | inl bad ↦ invalid (wrap "" (sentinel invalid_input) ": service is required") (ground arith)
    | inr named ↦ elim (Bool-cases (str_eq input.title "")) [
      | inl bad ↦ invalid (wrap "" (sentinel invalid_input) ": title is required") (ground arith)
      | inr titled ↦
          elim (Result-cases (get_active_by_fingerprint m (fingerprint_of digest input))) [
            | inl (i, found) ↦ duplicate i found (ground arith)
            | inr (e, missing) ↦ elim (Bool-cases (is e not_found)) [
              | inl absent ↦ commit (ground arith)
              | inr broken ↦ invalid e (ground arith)
            ]
          ]
    ]
  ]

  -- Create keeps the invariant on every branch.
  pub create-IsValid : IsValid m → IsValid (create digest m t input).1
  create-IsValid h = at create-Route
    where
      at : Route digest m t input (create digest m t input) → IsValid (create digest m t input).1
      at (invalid e r) = rw r h
      at (duplicate i found r) = rw r h
      at (commit r) = rw r (create_commit-IsValid m t input _ h)

  -- The answer of Create is true of the store on every branch.
  pub create-Answered :
      IsValid m → Answered m (fingerprint_of digest input) (create digest m t input)
  create-Answered h = at create-Route
    where
      at :
          Route digest m t input (create digest m t input)
          → Answered m (fingerprint_of digest input) (create digest m t input)
      at (invalid e r) = rw r refl
      at (duplicate i found r) = rw r (refl, get_active-lookup m h.unique _ i found)
      at (commit r) = rw r (create_commit-Answered m t input _ h)
