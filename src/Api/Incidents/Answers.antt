-- ===== src/Api/Incidents/Answers.antt =====
-- The answers of the incident handlers, by what is stored.
use mathlib.Core.Path.{subst}
use go_on_call_agent.Prelude.{
  ℕ, String, true, false, Option, none, some, List, [], ◌∷◌, ◌≡◌, refl, sym, arith, inl, inr,
  Bool-cases, Option-cases, ◌<>◌,
}
use go_on_call_agent.Errors.{Error, Result, ok, err, sentinel, not_found, invalid_transition, wrap}
use go_on_call_agent.Dict.{lookup}
use go_on_call_agent.Incident.{Incident, Status, investigating}
use go_on_call_agent.Incident.StateMachine.{can_transition, transition, transition_error}
use go_on_call_agent.Incident.Event.{IncidentEvent}
use go_on_call_agent.Incident.Store.{Memory, get_by_id, check_events}
use go_on_call_agent.Incident.Store.Unique.{IsUnique}
use go_on_call_agent.Incident.Service.{
  Stamp, move_to, transition_with_audit, transition_commit, analyze,
}
use go_on_call_agent.Incident.Service.Effect.{
  HasEffect, evs, transition_with_audit-HasEffect, transition_with_audit-succeeds,
}
use go_on_call_agent.Runtime.Diagnose.{DiagnosisResult}
use go_on_call_agent.World.{World, drawn}
use go_on_call_agent.Api.Response.{Response, json, status}
use go_on_call_agent.Api.Incidents.{
  IncidentHandler, AnalyzeResponse, error_status, respond_error, to_incident_response, hand_on,
  after_analyze, analyze_one,
}

-- What a move of an incident returns, by what is stored.
pub data Told (m : Memory) (id : String) (to : Status) (r : Result Incident × Memory) : Type 0 where
  absent : lookup id m.items ≡ none → r ≡ (err (sentinel not_found), m) → Told m id to r
  forbidden :
      (old : Incident)
      → lookup id m.items ≡ some old
      → can_transition old.status to ≡ false
      → r ≡ (
        err (wrap "" (sentinel invalid_transition) (": " <> (transition_error old.status to).text)),
        m,
      )
      → Told m id to r
  taken :
      (old inc : Incident) (m' : Memory)
      → lookup id m.items ≡ some old
      → can_transition old.status to ≡ true
      → r ≡ (ok inc, m')
      → lookup id m'.items ≡ some inc
      → inc.status ≡ to
      → Told m id to r

module _ (m : Memory) (t : Stamp) (id : String) (to : Status) (unique : IsUnique m.items) where
  abbrev events_of : Incident → List (Option IncidentEvent)
  events_of old = evs m t id to "state machine transition" "" "" [] unique old

  taken-Told :
      (old : Incident) (r : Result Incident × Memory)
      → lookup id m.items ≡ some old
      → can_transition old.status to ≡ true
      → HasEffect m id to events_of r
      → ((inc : Incident) × (r.0 ≡ ok inc))
      → Told m id to r
  taken-Told old (err e, m') at allowed effect (inc, done) = cc
  taken-Told old (ok inc, m') at allowed (o, there, edge, stored, stands, version, trail, others)
        fine =
      taken old inc m' at allowed refl stored stands

  pub move_to-Told :
      ((old : Incident) → lookup id m.items ≡ some old → check_events m [] (events_of old) ≡ none)
      → Told m id to (move_to m t id to)
  unfolding move_to transition_with_audit transition_commit get_by_id transition
  move_to-Told fresh = elim (Option-cases (lookup id m.items)) [
    | inl gone ↦ absent gone (ground (arith, gone))
    | inr (old, at) ↦ elim (Bool-cases (can_transition old.status to)) [
      | inr barred ↦ forbidden old at barred (ground (arith, at, barred))
      | inl allowed ↦
          taken-Told old _ at allowed
            (transition_with_audit-HasEffect m t id to "state machine transition" "" "" [] unique)
            (transition_with_audit-succeeds m t id to "state machine transition" "" "" [] unique old
              at allowed (fresh old at))
    ]
  ]

-- What Analyze answers, by what is stored: beside the response, the world and the ids published.
pub data Analyzed (h : IncidentHandler) (w : World) (id : String)
    (out : Response AnalyzeResponse × World × List String) : Type 0 where
  unknown :
      lookup id w.incidents.items ≡ none
      → status out.0 ≡ 404
      → out.1.incidents ≡ w.incidents
      → out.2 ≡ []
      → Analyzed h w id out
  barred :
      (old : Incident)
      → lookup id w.incidents.items ≡ some old
      → can_transition old.status investigating ≡ false
      → status out.0 ≡ 409
      → out.1.incidents ≡ w.incidents
      → out.2 ≡ []
      → Analyzed h w id out
  handed_on :
      (old inc : Incident) (before : World) (answer : AnalyzeResponse)
      → lookup id w.incidents.items ≡ some old
      → can_transition old.status investigating ≡ true
      → inc.status ≡ investigating
      → lookup id before.incidents.items ≡ some inc
      → out.0 ≡ json 200 answer
      → answer.incident ≡ to_incident_response inc
      → out.1.incidents ≡ before.incidents
      → ((publish : ℕ → String → Option Error) → h.publisher ≡ some publish → out.2 ≡ inc.id ∷ [])
      → (h.publisher ≡ none → out.2 ≡ [])
      → Analyzed h w id out

module _ (source : ℕ → Stamp) (h : IncidentHandler)
    (leaves : (d : World → Incident → Result DiagnosisResult × World)
      → h.diagnoser ≡ some d
      → (v : World) (i : Incident) → (d v i).1.incidents ≡ v.incidents) where
  hand_on-incidents :
      (inc : Incident) (w : World) → (hand_on source h inc w).1.incidents ≡ w.incidents
  unfolding hand_on
  hand_on-incidents inc w = elim (Option-cases h.publisher) [
    | inr (publish, there) ↦ ground (arith, there)
    | inl alone ↦ elim (Option-cases h.diagnoser) [
      | inl silent ↦ ground (arith, alone, silent)
      | inr (d, there) ↦ rw (hand_on, alone, there) (leaves d there w inc)
    ]
  ]

  hand_on-published :
      (inc : Incident) (w : World) (publish : ℕ → String → Option Error)
      → h.publisher ≡ some publish
      → (hand_on source h inc w).2 ≡ inc.id ∷ []
  unfolding hand_on
  hand_on-published inc w publish there = rw (hand_on, there) refl

  hand_on-silent :
      (inc : Incident) (w : World) → h.publisher ≡ none → (hand_on source h inc w).2 ≡ []
  unfolding hand_on
  hand_on-silent inc w alone = elim (Option-cases h.diagnoser) [
    | inl silent ↦ rw (hand_on, alone, silent) refl
    | inr (d, there) ↦ rw (hand_on, alone, there) refl
  ]

  -- Analyze over HTTP, on unique incidents, with a fresh event id and a diagnoser that leaves the
  -- incidents alone: 404 if there is no incident, 409 if its status has no edge to INVESTIGATING, and in
  -- both cases nothing is changed or published; else 200, with the incident that is now stored, and it
  -- is published exactly once if there is a publisher. No other status occurs.
  pub analyze_one_lem :
      (w : World) (id : String)
      → (unique : IsUnique w.incidents.items)
      → ((old : Incident)
          → lookup id w.incidents.items ≡ some old
          → check_events w.incidents []
              (events_of w.incidents (source w.draws) id investigating unique old)
            ≡ none)
      → Analyzed h w id (analyze_one source h w id)
  unfolding analyze_one analyze after_analyze respond_error error_status
  analyze_one_lem w id unique fresh =
      let finish = λ (p : Result Incident × Memory).
        after_analyze source h p.0 (record (drawn w) { incidents = p.1 }) in
      let at_end = λ (p : Result Incident × Memory). Analyzed h w id (finish p) in
      elim (move_to-Told w.incidents (source w.draws) id investigating unique fresh) [
        | absent gone out ↦ subst at_end (sym out) (unknown gone refl refl refl)
        | forbidden old at no_edge out ↦
            subst at_end (sym out) (barred old at no_edge refl refl refl)
        | taken old inc m' at allowed out stored stands ↦
            let before = record (drawn w) { incidents = m' } in
            subst at_end (sym out) (
              handed_on old inc before
                (record {
                  incident = to_incident_response inc;
                  diagnosis = (hand_on source h inc before).0;
                })
                at allowed stands stored refl refl (hand_on-incidents inc before)
                (hand_on-published inc before) (hand_on-silent inc before))
      ]
