-- ===== src/Api/Approvals.antt =====
-- internal/api/handler/approval.go, over the approval service.
pub mod Answers
use go_on_call_agent.Prelude.{
  ℕ, String, Bool, true, false, List, not, str_eq, ◌&&◌, ◌||◌, if◌then◌else◌,
}
use go_on_call_agent.Errors.{
  Error, plain, is, sentinel, not_found, not_pending, expired, Result, ok, err,
}
use go_on_call_agent.Incident.Service.{Stamp}
use go_on_call_agent.Run.{get_run}
use go_on_call_agent.Approval.{Approval, get}
use go_on_call_agent.Approval.Listing.{list_by_run, list_pending}
use go_on_call_agent.Approval.Service.{Wiring, approve, reject}
use go_on_call_agent.Sorting.{Sorter}
use go_on_call_agent.World.{World}
use go_on_call_agent.Api.Auth.{Context}
use go_on_call_agent.Api.Response.{Response, json, failure}

-- The status that respondError gives to an error.
unfoldable pub error_status : Error → ℕ
error_status e =
    if is e not_found then 404 else if is e not_pending || is e expired then 409 else 500

-- respondError
unfoldable pub respond_error : {A : Type 0} → Error → Response A
respond_error e = failure (error_status e) e.text

-- The answer to a call of the service.
unfoldable pub respond : {A : Type 0} → Result A → Response A
respond (ok a) = json 200 a
respond (err e) = respond_error e

-- approvalActor
unfoldable pub approval_actor : Context → String
approval_actor c = if not (str_eq c.actor "") then c.actor else "anonymous"

module _ (source : ℕ → Stamp) (wiring : Wiring) (S : Sorter) where
  -- List, of the query's status.
  unfoldable pub list : World → String → Response (List Approval)
  list w wanted =
      if not (str_eq wanted "") && not (str_eq wanted "PENDING")
      then failure 400 "unsupported status filter: only PENDING is supported"
      else json 200 (list_pending S w.approvals)

  -- ListByRun, behind the service's GetRun.
  unfoldable pub list_of_run : World → String → Response (List Approval)
  list_of_run w run_id =
      if not wiring.run_repo
      then respond_error (sentinel not_found)
      else elim (get_run w.runs run_id) [
        | err e ↦ respond_error e
        | ok run ↦ json 200 (list_by_run S w.approvals run_id)
      ]

  -- Get
  unfoldable pub get_one : World → String → Response Approval
  get_one w id = respond (get w.approvals id)

  -- Approve
  unfoldable pub approve_one : World → String → Context → Response Approval × World
  approve_one w id c =
      let (r, w') = approve source wiring w id (approval_actor c) in (respond r, w')

  -- Reject
  unfoldable pub reject_one : World → String → Context → Response Approval × World
  reject_one w id c = let (r, w') = reject source wiring w id (approval_actor c) in (respond r, w')
