-- ===== src/Approval/Service/Moves.antt =====
-- The parts of the approval service: the incident's move, and the conditional update.
use go_on_call_agent.Prelude.{
  ℕ, String, Option, none, some, [], ◌≡◌, ◌≢◌, refl, inl, inr, String-cases, eq_iff, str_eq-of_ne,
}
use go_on_call_agent.Errors.{Error, Result, ok, err, Result-cases}
use go_on_call_agent.Incident.{Incident, Status}
use go_on_call_agent.Incident.Store.{Memory}
use go_on_call_agent.Incident.Store.Audit.{is_status_type}
use go_on_call_agent.Incident.Service.Audit.{IsValid, transition_with_audit-IsValid}
use go_on_call_agent.Incident.Service.{Stamp, move_to}
use go_on_call_agent.Incident.Service.Effect.{HasEffect, transition_with_audit-HasEffect}
use go_on_call_agent.Incident.Service.Transition.{transition_events}
use go_on_call_agent.Approval.{Approval}
use go_on_call_agent.World.{World, drawn, Stands}
use go_on_call_agent.Approval.Service.{Wiring, approval_incident_id, move_incident}

module _ (source : ℕ → Stamp) (wiring : Wiring) where
  -- How moveIncident ends: with an error and no change, or with the bound incident in the new status.
  -- Approvals, runs and calls stay as they are.
  pub data MoveEnd (w : World) (a : Approval) (next : Status) (out : Option Error × World)
      : Type 0 where
    unmoved :
        (e : Error)
        → out.0 ≡ some e
        → out.1.incidents ≡ w.incidents
        → out.1.approvals ≡ w.approvals
        → out.1.calls ≡ w.calls
        → MoveEnd w a next out
    moved :
        (k : String)
        → out.0 ≡ none
        → approval_incident_id source wiring w a ≡ ok k
        → (k ≢ "" → Stands out.1 k next)
        → IsValid out.1.incidents
        → out.1.runs ≡ w.runs
        → out.1.approvals ≡ w.approvals
        → out.1.calls ≡ w.calls
        → MoveEnd w a next out

  module _ (w : World) (a : Approval) (next : Status) (valid : IsValid w.incidents) where
    bound-MoveEnd :
        (k : String) (x : Result Incident × Memory) (explain : Error → Error)
        → approval_incident_id source wiring w a ≡ ok k
        → IsValid x.1
        → HasEffect w.incidents k next
            (λ i. transition_events (source w.draws) i next "state machine transition" "" "" [])
            x
        → MoveEnd w a next (elim x.0 [
          | ok _ ↦ (none, record (drawn w) { incidents = x.1 })
          | err e ↦ (some (explain e), record (drawn w) { incidents = x.1 })
        ])
    unfolding drawn
    bound-MoveEnd k (err e, m) explain bound keeps same = unmoved (explain e) refl same refl refl
    bound-MoveEnd k (ok inc, m) explain bound keeps
          (old, was, allowed, is_now, there, version, trail, rest) =
        moved k refl bound (λ named. (inc, is_now, there)) keeps refl refl refl

    pub move_incident-MoveEnd : MoveEnd w a next (move_incident source wiring w a next)
    unfolding move_incident
    move_incident-MoveEnd = elim (Result-cases (approval_incident_id source wiring w a)) [
      | inr (e, unbound) ↦ rw (move_incident, unbound) (unmoved e refl refl refl refl)
      | inl (k, bound) ↦ elim (String-cases k "") [
        | inl empty ↦
            rw (move_incident, bound, (eq_iff k "").1 empty)
              (moved k refl bound (λ named. absurd (named empty)) valid refl refl refl)
        | inr named ↦
            let keeps : IsValid (move_to w.incidents (source w.draws) k next).1 =
              unfold move_to is_status_type in
              transition_with_audit-IsValid w.incidents (source w.draws) k next
                "state machine transition" "" "" [] valid refl in
            let effect : HasEffect w.incidents k next
                (λ i. transition_events (source w.draws) i next "state machine transition" "" "" [])
                (move_to w.incidents (source w.draws) k next) =
              unfold move_to in
              transition_with_audit-HasEffect w.incidents (source w.draws) k next
                "state machine transition" "" "" [] valid.unique in
            rw (move_incident, bound, str_eq-of_ne k "" named)
              (bound-MoveEnd k (move_to w.incidents (source w.draws) k next) _ bound keeps effect)
      ]
    ]
