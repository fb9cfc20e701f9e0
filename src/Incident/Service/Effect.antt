-- ===== src/Incident/Service/Effect.antt =====
-- What a transition changes, and what it leaves alone.
use go_on_call_agent.Prelude.{
  String, true, Option, none, some, List, [], ◌++◌, ◌≡◌, ◌≢◌, refl, arith, eq_iff, inl, inr,
}
use go_on_call_agent.Errors.{Result, ok, err, Result-cases}
use go_on_call_agent.Dict.{Dict, lookup}
use go_on_call_agent.Incident.{Incident, Status, next_version}
use go_on_call_agent.Incident.Event.{Value, IncidentEvent}
use go_on_call_agent.Incident.StateMachine.{can_transition, transition}
use go_on_call_agent.Incident.Store.{Memory, get_by_id, list_events, check_events}
use go_on_call_agent.Incident.Store.Writes.{bumped, present, update_with_events-ok}
use go_on_call_agent.Incident.Store.Unique.{IsUnique}
use go_on_call_agent.Incident.Store.Audit.{lookup-write, list_events-write}
use go_on_call_agent.Incident.Service.{Stamp, moved, transition_commit, transition_with_audit}
use go_on_call_agent.Incident.Service.Audit.{get_by_id-lookup, transition_events-own}
use go_on_call_agent.Incident.Service.Transition.{
  transition_events, Moved, transition_commit-cases, write_transition_lem,
}

-- An error changes nothing. A success takes the incident along one edge of the table, with the next
-- version, appends the events of the transition to its events, and touches no other incident.
abbrev pub HasEffect :
    Memory
    → String
    → Status
    → (Incident → List (Option IncidentEvent))
    → Result Incident × Memory
    → Type 0
HasEffect m id to evs (err e, m') = m' ≡ m
HasEffect m id to evs (ok inc, m') =
    (old : Incident) × (lookup id m.items ≡ some old)
    × (can_transition old.status to ≡ true)
    × (lookup id m'.items ≡ some inc)
    × (inc.status ≡ to)
    × (inc.version ≡ next_version old.version)
    × (list_events m' id ≡ list_events m id ++ present (evs old))
    × ((k : String)
        → k ≢ id
        → (lookup k m'.items ≡ lookup k m.items) × (list_events m' k ≡ list_events m k))

module _ (m : Memory) (t : Stamp) (id : String) (to : Status) (reason err_msg event_type : String)
    (payload : Dict Value) (unique : IsUnique m.items) where
  abbrev pub evs : Incident → List (Option IncidentEvent)
  evs old = transition_events t old to reason err_msg event_type payload

  Moved-HasEffect :
      (inc : Incident) (r : Result Incident × Memory)
      → lookup id m.items ≡ some inc
      → Moved m t inc to (evs inc) r
      → HasEffect m id to evs r
  unfolding moved
  Moved-HasEffect inc r at v =
      let key : inc.id ≡ id = unique.keyed id inc at in
      let new : Incident = bumped (moved t inc to) in
      let own = transition_events-own t inc to reason err_msg event_type payload in
      rw v.result (
        inc,
        at,
        v.allowed,
        ground (arith, lookup-write m new (evs inc) own id, eq_iff inc.id id),
        refl,
        refl,
        ground (arith, list_events-write m new (evs inc) own id, eq_iff inc.id id),
        λ k other. (
          ground (arith, lookup-write m new (evs inc) own k, eq_iff inc.id k),
          ground (arith, list_events-write m new (evs inc) own k, eq_iff inc.id k),
        ),
      )

  -- A transition of a stored incident has its effect on every branch.
  pub transition_with_audit-HasEffect :
      HasEffect m id to evs (transition_with_audit m t id to reason err_msg event_type payload)
  unfolding transition_with_audit
  transition_with_audit-HasEffect = elim (Result-cases (get_by_id m id)) [
    | inr (e, missing) ↦ rw (transition_with_audit, missing) refl
    | inl (inc, read) ↦
        rw (transition_with_audit, read)
          (elim (transition_commit-cases m t id inc to reason err_msg event_type payload) [
            | inl (e, refused) ↦ rw refused refl
            | inr v ↦ Moved-HasEffect inc _ (get_by_id-lookup m id inc read) v
          ])
  ]

  pub transition_with_audit-succeeds :
      (old : Incident)
      → lookup id m.items ≡ some old
      → can_transition old.status to ≡ true
      → check_events m [] (evs old) ≡ none
      → (inc : Incident) × ((transition_with_audit m t id to reason err_msg event_type payload).0
          ≡ ok inc)
  unfolding transition_with_audit transition_commit get_by_id transition moved
  transition_with_audit-succeeds old at allowed free =
      let key : old.id ≡ id = unique.keyed id old at in
      let here : lookup old.id m.items ≡ some old = cc in
      let wrote = update_with_events-ok m (moved t old to) old (evs old) here refl free in
      (
        bumped (moved t old to),
        ground (arith, write_transition_lem m t old to reason err_msg event_type payload, wrote),
      )
