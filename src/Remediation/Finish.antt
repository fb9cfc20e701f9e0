-- ===== src/Remediation/Finish.antt =====
-- How the remediation ends: what its answer says of the store, and why.
use go_on_call_agent.Prelude.{
  ℕ, String, Bool, true, false, none, some, ◌≡◌, ◌≢◌, ◌<>◌, not, ◌||◌, ◌⊎◌,
}
use go_on_call_agent.Errors.{Error, wrap, is, result_unknown, Result, ok, err, is_err}
use go_on_call_agent.Dict.{Dict, lookup}
use go_on_call_agent.Incident.{
  Incident, Status, mitigating, verifying, resolved, failed, status_text,
}
use go_on_call_agent.Incident.Event.{Value}
use go_on_call_agent.Incident.Service.{Stamp, move_to_with_audit}
use go_on_call_agent.Run.{AgentRun, get_run}
use go_on_call_agent.Verifier.{Float64}
use go_on_call_agent.World.{World, ExecutionResult, Stands}
use go_on_call_agent.Report.{Platform}
use go_on_call_agent.Deployment
use go_on_call_agent.Deployment.{Codec}
use go_on_call_agent.Remediation.{Remediation, sequence}

-- The incident service refuses the move, with its next stamp and some audit event.
abbrev pub IsRefused : (ℕ → Stamp) → World → String → Status → Error → Type 0
IsRefused source w id to e =
    (event_type : String) × (payload : Dict Value) × ((move_to_with_audit w.incidents
        (source w.draws) id to event_type payload).0
      ≡ err e)

module _ (F : Float64) (source : ℕ → Stamp) (codec : Codec) (platform : Platform)
    (r : Remediation F) where
  -- The verification was interrupted, or it did not pass.
  abbrev pub lost : String → Bool
  lost id =
      Deployment.is_some (sequence F source codec platform r id).1
      || not (sequence F source codec platform r id).0.passed

  -- What the deployment tool answers.
  abbrev pub acted : String → String → String → Result ExecutionResult
  acted approval_id action arguments =
      (Deployment.execute codec r.restart approval_id action arguments).0

  abbrev pub moving : String → Status → Error → Error
  moving id to f = wrap ("move incident " <> id <> " to " <> status_text to <> ": ") f ""

  -- A service is missing or the run has no incident, and nothing was done.
  abbrev pub IsIdle : World → String → Result ExecutionResult × World → Type 0
  IsIdle w run_id out =
      (is_err out.0 ≡ true)
      × (out.1 ≡ w)
      × ((run : AgentRun)
          → r.incident_svc ≡ true
          → r.run_repo ≡ true
          → get_run w.runs run_id ≡ ok run
          → run.incident_id ≡ "")

  -- The incident is missing or not MITIGATING, and nothing was done.
  abbrev pub IsTurnedAway : World → String → Result ExecutionResult × World → Type 0
  IsTurnedAway w id out =
      (is_err out.0 ≡ true)
      × (out.1 ≡ w)
      × ((inc : Incident) → lookup id w.incidents.items ≡ some inc → inc.status ≢ mitigating)

  -- How Execute ends once it acts, in the answer, in the store and in the cause.
  pub data Finish (w : World) (id approval_id action arguments : String)
      (out : Result ExecutionResult × World) : Type 0 where
    -- the result of the action is unknown, and the incident stays as it was
    untold :
        (e : Error)
        → acted approval_id action arguments ≡ err e
        → is e result_unknown ≡ true
        → out.0 ≡ err e
        → out.1.incidents ≡ w.incidents
        → Finish w id approval_id action arguments out
    -- the service refused the move behind the action, which goes by the action's result
    unmoved :
        (to : Status) (f : Error)
        → ((to ≡ failed) × (is_err (acted approval_id action arguments) ≡ true))
          ⊎ ((to ≡ verifying) × (is_err (acted approval_id action arguments) ≡ false))
        → IsRefused source w id to f
        → is_err out.0 ≡ true
        → out.1.incidents ≡ w.incidents
        → Finish w id approval_id action arguments out
    -- the action failed, and the incident with it
    action_error :
        (e : Error)
        → acted approval_id action arguments ≡ err e
        → is e result_unknown ≡ false
        → out.0 ≡ err e
        → Stands out.1 id failed
        → Finish w id approval_id action arguments out
    -- the service refused the move behind the verification, which goes by the verdict
    interrupted :
        (done : ExecutionResult) (before : World) (to : Status) (f : Error)
        → acted approval_id action arguments ≡ ok done
        → ((to ≡ failed) × (lost id ≡ true)) ⊎ ((to ≡ resolved) × (lost id ≡ false))
        → IsRefused source before id to f
        → out.0 ≡ err (moving id to f)
        → out.1.incidents ≡ before.incidents
        → Stands out.1 id verifying
        → Finish w id approval_id action arguments out
    unverified :
        (x done : ExecutionResult)
        → acted approval_id action arguments ≡ ok done
        → out.0 ≡ ok x
        → x.verified ≡ false
        → x.operation_id ≡ done.operation_id
        → Stands out.1 id failed
        → lost id ≡ true
        → Finish w id approval_id action arguments out
    verified :
        (x done : ExecutionResult)
        → acted approval_id action arguments ≡ ok done
        → out.0 ≡ ok x
        → x.verified ≡ true
        → x.operation_id ≡ done.operation_id
        → Stands out.1 id resolved
        → (sequence F source codec platform r id).1 ≡ none
        → (sequence F source codec platform r id).0.passed ≡ true
        → Finish w id approval_id action arguments out
