-- ===== src/Approval/Service/Steps.antt =====
-- What the approval service does behind a conditional update that wrote.
use go_on_call_agent.Prelude.{
  false, ℕ, String, true, some, ◌≡◌, refl, ◌∙◌, ap, arith, ◌<>◌, str_eq_self,
}
use go_on_call_agent.Errors.{
  Error, is, not_pending, sentinel, wrap, Result, ok, err, is_err, Result-cases,
}
use go_on_call_agent.Errors
use go_on_call_agent.Dict.{lookup, insert}
use go_on_call_agent.Dict.Laws.{lookup-insert}
use go_on_call_agent.Incident.Service.{Stamp}
use go_on_call_agent.Approval.{
  Approval, ApprovalStatus, Approvals, approved, executing, expired, next_approval,
  transition_status,
}
use go_on_call_agent.Approval.Writes.{approval_eq_self}
use go_on_call_agent.World.{World, ExecutionResult, Executor, drawn, publish}
use go_on_call_agent.Approval.Service.{
  Wiring, now, keep, step, expire, execute_claimed, persist_result, final_status, record_result,
}

module _ (source : ℕ → Stamp) (wiring : Wiring) where
  -- A conditional update of an approval that has the expected status writes it.
  pub step_written :
      (w : World) (id : String) (from to : ApprovalStatus) (mutate : Approval → Approval)
      (cur : Approval)
      → lookup id w.approvals ≡ some cur
      → cur.status ≡ from
      → step source wiring w id from to mutate ≡ (
        ok (next_approval (now source wiring w) to mutate cur),
        record (drawn w) {
          approvals = insert id (next_approval (now source wiring w) to mutate cur) w.approvals;
        },
      )
  unfolding step transition_status
  step_written w id from to mutate cur there same =
      rw (step, transition_status, there, same, approval_eq_self from) refl

  pub lookup_written :
      (id : String) (a : Approval) (m : Approvals) → lookup id (insert id a m) ≡ some a
  lookup_written id a m = ground (arith, lookup-insert id id a m, str_eq_self id)

  record_result-status :
      (x : Result ExecutionResult) (a : Approval)
      → (record_result source wiring x a).status ≡ a.status
  unfolding record_result
  record_result-status (ok x) a = refl
  record_result-status (err e) a = refl

  -- The services' branches behind a conditional update that wrote.
  module _ (w : World) (a b : Approval) (v : World) where
    persist_result-written :
        (x : Result ExecutionResult)
        → step source wiring w a.id executing
            (final_status source wiring x)
            (record_result source wiring x)
          ≡ (ok b, v)
        → persist_result source wiring w a x ≡ (ok b, publish b.run_id "action.completed" v)
    unfolding persist_result
    persist_result-written x e = ground (arith, e)

    execute_claimed-written :
        (run : Executor)
        → step source wiring w a.id approved executing keep ≡ (ok b, v)
        → let start = publish b.run_id "action.executing" v in
          let x = run b.id b.action b.arguments b.run_id start in
          execute_claimed source wiring run w a ≡ persist_result source wiring x.1 b x.0
    unfolding execute_claimed
    execute_claimed-written run e = ground (arith, e)

    expire-written :
        (from : ApprovalStatus) (cause : Error)
        → step source wiring w a.id from expired (λ c. record c { error = cause.text }) ≡ (ok b, v)
        → expire source wiring w a from cause ≡ (
          wrap "" (sentinel Errors.expired) (": " <> cause.text),
          publish a.run_id "action.expired" v,
        )
    unfolding expire
    expire-written from cause e = ground (arith, e)

  -- Behind an execution that leaves the approval as it is, the result is recorded.
  persist_result-records :
      (w : World) (a cur : Approval) (x : Result ExecutionResult)
      → lookup a.id w.approvals ≡ some cur
      → cur.status ≡ executing
      → let out = persist_result source wiring w a x in
        (done : Approval) × (out.0 ≡ ok done)
        × (lookup a.id out.1.approvals ≡ some done)
        × (done.status ≡ final_status source wiring x)
        × (out.1.incidents ≡ w.incidents)
  unfolding publish drawn
  persist_result-records w a cur x there is_exec =
      let to = final_status source wiring x in
      let done = next_approval (now source wiring w) to (record_result source wiring x) cur in
      rw
        (persist_result-written w a done _ x
          (step_written w a.id executing to (record_result source wiring x) cur there is_exec))
        (done, refl, lookup_written a.id done w.approvals, record_result-status x _, refl)

  -- The claimed approval is handed to the executor, and its result is recorded.
  pub execute_claimed-runs :
      (run : Executor) (w : World) (a : Approval)
      → ((i c g l : String) (v : World) → (run i c g l v).1.approvals ≡ v.approvals)
      → lookup a.id w.approvals ≡ some a
      → a.status ≡ approved
      → let out = execute_claimed source wiring run w a in
        (start : World) × (next : Approval) × (done : Approval) × (lookup a.id start.approvals
          ≡ some next)
        × (next.status ≡ executing)
        × (start.incidents ≡ w.incidents)
        × (start.calls ≡ w.calls)
        × (start.runs ≡ w.runs)
        × (out.0 ≡ ok done)
        × (lookup a.id out.1.approvals ≡ some done)
        × (done.status
            ≡ final_status source wiring (run a.id a.action a.arguments a.run_id start).0)
        × (out.1.incidents ≡ (run a.id a.action a.arguments a.run_id start).1.incidents)
  unfolding publish drawn
  execute_claimed-runs run w a leaves there claimed =
      let next = next_approval (now source wiring w) executing keep a in
      let v : World =
        publish a.run_id "action.executing"
          (record (drawn w) { approvals = insert a.id next w.approvals }) in
      let here : lookup a.id v.approvals ≡ some next = lookup_written a.id next w.approvals in
      let x = run a.id a.action a.arguments a.run_id v in
      let after : lookup a.id x.1.approvals ≡ some next =
        ap (lookup a.id) (leaves a.id a.action a.arguments a.run_id v) ∙ here in
      let (done, is_ok, stored, ends, kept) = persist_result-records x.1 next next x.0 after refl in
      rw
        (execute_claimed-written w a next _ run
          (step_written w a.id approved executing keep a there claimed))
        (v, next, done, here, refl, refl, refl, refl, is_ok, stored, ends, kept)

  -- An expired approval keeps the expiry as its status, and the incident is left.
  pub expire-ends :
      (w : World) (a : Approval) (from : ApprovalStatus) (cause : Error)
      → lookup a.id w.approvals ≡ some a
      → a.status ≡ from
      → let out = expire source wiring w a from cause in
        (b : Approval) × ((is out.0 Errors.expired ≡ true) × (is out.0 Errors.not_found ≡ false))
        × (lookup a.id out.1.approvals ≡ some b)
        × (b.status ≡ expired)
        × (out.1.calls ≡ w.calls)
        × (out.1.incidents ≡ w.incidents)
  unfolding publish drawn
  expire-ends w a from cause there same =
      let b =
        next_approval (now source wiring w) expired (λ c. record c { error = cause.text }) a in
      rw
        (expire-written w a b _ from cause
          (step_written w a.id from expired (λ c. record c { error = cause.text }) a there same))
        (b, (refl, refl), lookup_written a.id b w.approvals, refl, refl, refl)
