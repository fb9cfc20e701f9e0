-- ===== src/Approval/Service.antt =====
-- internal/execution/approval/service.go over the in-memory repositories. `source` gives the clock
-- readings and uuids in the order of the draws. Contexts are left out: the in-memory repositories
-- ignore them; the approval id that a context carries is an argument. Metrics are left out.
pub mod Moves
pub mod Steps
pub mod Approving
pub mod Expiring
pub mod Requesting
use go_on_call_agent.Prelude.{
  ℕ, suc, String, Bool, true, false, Option, none, some, List, [], ◌∷◌, not, str_eq, ◌<>◌, ◌||◌,
  if◌then◌else◌,
}
use go_on_call_agent.Errors.{
  Error, sentinel, plain, wrap, is, not_found, conflict, not_pending, invalid_request,
  result_unknown, Result, ok, err,
}
use go_on_call_agent.Errors
use go_on_call_agent.Incident.{Status, waiting_approval, mitigating, status_text}
use go_on_call_agent.Incident
use go_on_call_agent.Incident.Store.{Memory, get_by_id}
use go_on_call_agent.Incident.Service.{Stamp, move_to}
use go_on_call_agent.Run.{get_run, AgentRun}
use go_on_call_agent.Approval.{
  Approval, ApprovalStatus, pending, approved, executing, executed, failed, rejected, expired,
  unknown, create, get, transition_status, expire_pending_by_incident,
}
use go_on_call_agent.World.{World, ExecutionResult, Executor, publish, drawn}

-- Which components are wired into the service: each may be nil.
pub record Wiring : Type 0 where
  pub incident_svc : Bool
  pub run_repo : Bool
  pub executor : Option Executor

abbrev pub keep : Approval → Approval
keep a = a

module _ (source : ℕ → Stamp) (wiring : Wiring) where
  open wiring use {incident_svc, run_repo, executor}

  abbrev pub now : World → ℕ
  now w = (source w.draws).now

  -- resolveIncidentID
  unfoldable pub resolve_incident_id : World → String → Result String
  resolve_incident_id w run_id =
      if not run_repo
      then ok ""
      else if str_eq run_id ""
      then err (wrap "" (sentinel invalid_request) ": run_id is required to bind an approval")
      else elim (get_run w.runs run_id) [
        | err e ↦ err (wrap "" (sentinel invalid_request) (": run " <> run_id <> ": " <> e.text))
        | ok run ↦
            if incident_svc
            then elim (get_by_id w.incidents run.incident_id) [
              | err e ↦ err (
                  wrap "" (sentinel invalid_request)
                    (": incident " <> run.incident_id <> " of run " <> run_id <> ": " <> e.text))
              | ok _ ↦ ok run.incident_id
            ]
            else ok run.incident_id
      ]

  -- approvalIncidentID
  unfoldable pub approval_incident_id : World → Approval → Result String
  approval_incident_id w a =
      if not incident_svc
      then ok ""
      else if not (str_eq a.incident_id "")
      then ok a.incident_id
      else if not run_repo || str_eq a.run_id ""
      then err (plain ("approval " <> a.id <> " is not bound to any incident"))
      else elim (get_run w.runs a.run_id) [
        | err e ↦ err (wrap ("resolve incident of approval " <> a.id <> ": ") e "")
        | ok run ↦ ok run.incident_id
      ]

  -- moveIncident; `none` is a nil error.
  unfoldable pub move_incident : World → Approval → Status → Option Error × World
  move_incident w a next = elim (approval_incident_id w a) [
    | err e ↦ (some e, w)
    | ok incident_id ↦
        if str_eq incident_id ""
        then (none, w)
        else let (r, m) = move_to w.incidents (source w.draws) incident_id next in
          elim r [
            | ok _ ↦ (none, record (drawn w) { incidents = m })
            | err e ↦ (
              some (
                  wrap ("move incident " <> incident_id <> " to " <> status_text next <> ": ") e
                    ""),
              record (drawn w) { incidents = m },
            )
          ]
  ]

  -- One call of TransitionStatus on the repository.
  unfoldable pub step :
      World
      → String
      → ApprovalStatus
      → ApprovalStatus
      → (Approval → Approval)
      → Result Approval × World
  step w id from to mutate =
      let (r, m) = transition_status w.approvals (now w) id from to mutate in
      (r, record (drawn w) { approvals = m })

  -- expire: the error that it returns, and the state.
  unfoldable pub expire : World → Approval → ApprovalStatus → Error → Error × World
  expire w a from cause =
      let (r, w') = step w a.id from expired (λ b. record b { error = cause.text }) in
      elim r [
        | err e ↦
            if is e conflict
            then (wrap "" (sentinel Errors.expired) (": " <> cause.text), w')
            else (wrap ("expire approval " <> a.id <> " after " <> cause.text <> ": ") e "", w')
        | ok _ ↦ (
          wrap "" (sentinel Errors.expired) (": " <> cause.text),
          publish a.run_id "action.expired" w',
        )
      ]

  -- The approval that Request builds.
  unfoldable pub new_approval :
      World → String → String → String → String → String → String → Approval
  new_approval w incident_id run_id tool_call_id action arguments reason = record {
    id = "ap_" <> (source w.draws).id;
    incident_id = incident_id;
    run_id = run_id;
    tool_call_id = tool_call_id;
    action = action;
    arguments = arguments;
    reason = reason;
    status = pending;
    approved_by = "";
    result = "";
    error = "";
    operation_id = "";
    created_at = now w;
    updated_at = now w;
    approved_at = none;
  }

  -- Request from the stored approval on: the incident waits, or the approval expires.
  unfoldable pub await_approval : World → Approval → Result Approval × World
  await_approval w a =
      let (moved, w') = move_incident w a waiting_approval in
      elim moved [
        | none ↦ (ok a, publish a.run_id "approval.required" w')
        | some e ↦
            let (x, w'') = expire w' a pending e in
            (err (if is x Errors.expired then e else x), w'')
      ]

  -- Request
  unfoldable pub request :
      World → String → String → String → String → String → Result Approval × World
  request w run_id tool_call_id action arguments reason = elim (resolve_incident_id w run_id) [
    | err e ↦ (err e, w)
    | ok incident_id ↦
        let a = new_approval w incident_id run_id tool_call_id action arguments reason in
        let (r, m) = create w.approvals a in
        elim r [
          | err e ↦ (err e, drawn w)
          | ok _ ↦ await_approval (record (drawn w) { approvals = m }) a
        ]
  ]

  -- A conflict of the condition means that another request has the approval.
  unfoldable pub claim_error : String → Error → Error
  claim_error id e = if is e conflict then wrap "" (sentinel not_pending) (": " <> id) else e

  -- The status of a finished execution.
  unfoldable pub final_status : Result ExecutionResult → ApprovalStatus
  final_status (ok _) = executed
  final_status (err e) = if is e result_unknown then unknown else failed

  -- What the final write records of it.
  unfoldable pub record_result : Result ExecutionResult → Approval → Approval
  record_result (ok x) a = record a { result = x.output; operation_id = x.operation_id }
  record_result (err e) a = record a { error = e.text }

  -- The text of a status.
  abbrev pub approval_text : ApprovalStatus → String
  approval_text pending = "PENDING"
  approval_text approved = "APPROVED"
  approval_text executing = "EXECUTING"
  approval_text executed = "EXECUTED"
  approval_text failed = "FAILED"
  approval_text rejected = "REJECTED"
  approval_text expired = "EXPIRED"
  approval_text unknown = "UNKNOWN"

  -- executeClaimed from the return of the executor on.
  unfoldable pub persist_result :
      World → Approval → Result ExecutionResult → Result Approval × World
  persist_result w a r =
      let (s, w') = step w a.id executing (final_status r) (record_result r) in
      elim s [
        | err e ↦ (
          err (
              wrap
                ("persist approval "
                  <> a.id
                  <> " result as "
                  <> approval_text (final_status r)
                  <> ": ")
                e ""),
          w',
        )
        | ok done ↦ (ok done, publish done.run_id "action.completed" w')
      ]

  -- executeClaimed
  unfoldable pub execute_claimed : Executor → World → Approval → Result Approval × World
  execute_claimed run w a =
      let (r, w') = step w a.id approved executing keep in
      elim r [
        | err e ↦ (err (claim_error a.id e), w')
        | ok next ↦
            let (x, w'') =
              run next.id next.action next.arguments next.run_id
                (publish next.run_id "action.executing" w') in
            persist_result w'' next x
      ]

  -- Approve behind the claim: the incident moves and the action runs, or the approval expires.
  unfoldable pub approve_claimed : World → Approval → Result Approval × World
  approve_claimed w a =
      let (moved, w') = move_incident w a mitigating in
      elim moved [
        | some e ↦ let (x, w'') = expire w' a approved e in (err x, w'')
        | none ↦ elim executor [ none ↦ (ok a, w') | some run ↦ execute_claimed run w' a ]
      ]

  -- Approve
  unfoldable pub approve : World → String → String → Result Approval × World
  approve w id approved_by =
      let (r, w') =
        step w id pending approved
          (λ a. record a { approved_by = approved_by; approved_at = some (now w) }) in
      elim r [
        | err e ↦ (err (claim_error id e), w')
        | ok a ↦ approve_claimed (publish a.run_id "action.approved" w') a
      ]

  -- Reject
  unfoldable pub reject : World → String → String → Result Approval × World
  reject w id rejected_by =
      let (r, w') =
        step w id pending rejected
          (λ a. record a { approved_by = rejected_by; approved_at = some (now w) }) in
      elim r [
        | err e ↦ (err (claim_error id e), w')
        | ok a ↦
            let (moved, w'') = move_incident w' a Incident.failed in
            elim moved [
              | some e ↦ (err e, w'')
              | none ↦ (ok a, publish a.run_id "action.rejected" w'')
            ]
      ]

  -- ExpirePending
  unfoldable pub expire_pending : World → String → Result ℕ × World
  expire_pending w incident_id =
      if str_eq incident_id ""
      then (err (wrap "" (sentinel invalid_request) ": incident_id is required"), w)
      else let (r, m) = expire_pending_by_incident w.approvals (now w) incident_id in
        (r, record (drawn w) { approvals = m })
