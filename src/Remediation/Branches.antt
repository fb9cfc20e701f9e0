-- ===== src/Remediation/Branches.antt =====
-- The moves of the remediation, and its two branches behind the verification.
use go_on_call_agent.Prelude.{
  ℕ, String, Bool, true, false, ◌≡◌, refl, sym, ◌∙◌, ap, inl, inr, Bool-cases,
}
use go_on_call_agent.Errors.{Error, Result, ok, err, is_err}
use go_on_call_agent.Dict.{Dict, lookup}
use go_on_call_agent.Incident.{Incident, Status, resolved, failed}
use go_on_call_agent.Incident.Event.{Value, verification_failed, postmortem_generated}
use go_on_call_agent.Incident.Store.{Memory}
use go_on_call_agent.Incident.Store.Audit.{is_status_type}
use go_on_call_agent.Incident.Service.{Stamp, move_to_with_audit}
use go_on_call_agent.Incident.Service.Audit.{IsValid, transition_with_audit-IsValid}
use go_on_call_agent.Incident.Service.Effect.{HasEffect, transition_with_audit-HasEffect}
use go_on_call_agent.Incident.Service.Transition.{transition_events}
use go_on_call_agent.Verifier.{Float64, SequenceResult}
use go_on_call_agent.World.{World, ExecutionResult, drawn, publish, Stands}
use go_on_call_agent.Report.{Platform, RemediationResult}
use go_on_call_agent.Deployment.{Codec}
use go_on_call_agent.Remediation.{
  Remediation, move, publish_if, verification_failure, verification_success,
}
use go_on_call_agent.Remediation.Finish.{IsRefused, moving}

pub IsRefused-same :
    (source : ℕ → Stamp) (v w : World) (id : String) (to : Status) (e : Error)
    → v.incidents ≡ w.incidents
    → v.draws ≡ w.draws
    → IsRefused source v id to e
    → IsRefused source w id to e
IsRefused-same source v w id to e same draws (event_type, payload, h) =
    (event_type, payload, rw (sym same, sym draws) h)

-- How one move of an incident ends.
pub data Step (source : ℕ → Stamp) (w : World) (id : String) (to : Status)
    (out : Result Incident × World) : Type 0 where
  stays :
      (e : Error)
      → out.0 ≡ err e
      → out.1.incidents ≡ w.incidents
      → IsRefused source w id to e
      → Step source w id to out
  goes :
      (inc : Incident)
      → out.0 ≡ ok inc
      → Stands out.1 id to
      → IsValid out.1.incidents
      → Step source w id to out

module _ (F : Float64) (source : ℕ → Stamp) (codec : Codec) (platform : Platform)
    (r : Remediation F) where
  pub move-Step :
      (w : World) (id : String) (to : Status) (event_type : String) (payload : Dict Value)
      → IsValid w.incidents
      → is_status_type event_type ≡ false
      → Step source w id to (move F source codec platform r w id to event_type payload)
  unfolding move
  move-Step w id to event_type payload h kind =
      let t = source w.draws in
      let why : String = "state machine transition" in
      let out = move_to_with_audit w.incidents t id to event_type payload in
      let valid : IsValid out.1 =
        unfold move_to_with_audit in
        transition_with_audit-IsValid w.incidents t id to why "" event_type payload h kind in
      let effect : HasEffect w.incidents id to
          (λ i. transition_events t i to why "" event_type payload) out =
        unfold move_to_with_audit in
        transition_with_audit-HasEffect w.incidents t id to why "" event_type payload h.unique in
      at out effect valid refl
    where
      at :
          (x : Result Incident × Memory)
          → HasEffect w.incidents id to
              (λ i.
                transition_events
                  (source w.draws)
                  i
                  to
                  "state machine transition"
                  ""
                  event_type
                  payload)
              x
          → IsValid x.1
          → (move_to_with_audit w.incidents (source w.draws) id to event_type payload).0 ≡ x.0
          → Step source w id to (x.0, record (drawn w) { incidents = x.1 })
      at (err e, m) same valid from = stays e refl same (event_type, payload, from)
      at (ok inc, m) (old, was, allowed, is_now, there, next, trail, rest) valid from =
          goes inc refl (inc, is_now, there) valid

  -- The answer of one of the two branches behind the verification.
  pub data Closed (w : World) (id operation_id : String) (to : Status) (won : Bool)
      (out : Result ExecutionResult × World) : Type 0 where
    refused :
        (f : Error)
        → out.0 ≡ err (moving F source codec platform r id to f)
        → out.1.incidents ≡ w.incidents
        → IsRefused source w id to f
        → Closed w id operation_id to won out
    closed :
        (x : ExecutionResult)
        → out.0 ≡ ok x
        → x.verified ≡ won
        → x.operation_id ≡ operation_id
        → Stands out.1 id to
        → Closed w id operation_id to won out

  publish_if-incidents :
      (run_id typ : String) (w : World)
      → (publish_if F source codec platform r run_id typ w).incidents ≡ w.incidents
  unfolding publish_if publish
  publish_if-incidents run_id typ w = elim (Bool-cases r.broker) [
    | inl on ↦ rw on refl
    | inr off ↦ rw off refl
  ]

  module _ (w : World) (h : IsValid w.incidents) where
    close :
        (id op : String) (to : Status) (won : Bool) (out : Result Incident × World)
        → Step source w id to out
        → (x : ExecutionResult) → x.verified ≡ won
        → x.operation_id ≡ op
        → (run_id typ : String)
        → Closed w id op to won (elim out.0 [
          | err e ↦ (err (moving F source codec platform r id to e), out.1)
          | ok _ ↦ (ok x, publish_if F source codec platform r run_id typ out.1)
        ])
    close id op to won out (stays e is_err same why) x v o run_id typ =
        rw is_err (refused e refl same why)
    close id op to won out (goes inc is_ok (i, at, is_to) valid) x v o run_id typ = rw is_ok (
        closed x refl v o
          (i, ap (λ m. lookup id m.items) (publish_if-incidents run_id typ out.1) ∙ at, is_to))

    pub failure-Closed :
        (run_id id approval_id : String) (res : RemediationResult)
        → Closed w id res.operation_id failed false
            (verification_failure F source codec platform r w run_id id approval_id res)
    unfolding verification_failure
    failure-Closed run_id id approval_id res =
        let kind : is_status_type verification_failed ≡ false = unfold is_status_type in refl in
        close id _ failed false _ (move-Step w id failed _ _ h kind) _ refl refl run_id _

    pub success-Closed :
        (inc : Incident) (run_id id approval_id action : String) (seq : SequenceResult F)
        (res : RemediationResult)
        → Closed w id res.operation_id resolved true (
            verification_success F source codec platform r w inc run_id id approval_id action seq
              res)
    unfolding verification_success
    success-Closed inc run_id id approval_id action seq res =
        let kind : is_status_type postmortem_generated ≡ false = unfold is_status_type in refl in
        close id _ resolved true _ (move-Step w id resolved _ _ h kind) _ refl refl run_id _
