-- ===== src/Approval/Service/Requesting.antt =====
-- Request on every branch.
use go_on_call_agent.Prelude.{ℕ, String, none, some, ◌≡◌, ◌≢◌}
use go_on_call_agent.Errors.{Error, Result, ok, err}
use go_on_call_agent.Errors
use go_on_call_agent.Dict.{lookup}
use go_on_call_agent.Incident.{waiting_approval}
use go_on_call_agent.Incident.Service.{Stamp}
use go_on_call_agent.Approval.{Approval, pending, expired}
use go_on_call_agent.World.{World, Stands}
use go_on_call_agent.Approval.Service.{Wiring, approval_incident_id}

-- How Request ends; in no case does it call the deployment endpoint.
pub data Requested (source : ℕ → Stamp) (wiring : Wiring) (w : World)
    (out : Result Approval × World) : Type 0 where
  -- the run or its incident is not there, or the id is taken: nothing is stored
  refused :
      (e : Error)
      → out.0 ≡ err e
      → out.1.approvals ≡ w.approvals
      → out.1.incidents ≡ w.incidents
      → out.1.calls ≡ w.calls
      → Requested source wiring w out
  -- the incident could not be moved: the approval that was stored cannot be used
  lapsed :
      (e : Error) (a b : Approval)
      → lookup a.id w.approvals ≡ none
      → out.0 ≡ err e
      → lookup a.id out.1.approvals ≡ some b
      → b.status ≡ expired
      → out.1.incidents ≡ w.incidents
      → out.1.calls ≡ w.calls
      → Requested source wiring w out
  -- a new approval is pending, and its incident waits
  asked :
      (a : Approval) (k : String)
      → lookup a.id w.approvals ≡ none
      → out.0 ≡ ok a
      → lookup a.id out.1.approvals ≡ some a
      → a.status ≡ pending
      → approval_incident_id source wiring w a ≡ ok k
      → (k ≢ "" → Stands out.1 k waiting_approval)
      → out.1.calls ≡ w.calls
      → Requested source wiring w out
