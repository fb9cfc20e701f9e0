-- ===== src/Approval/Service/Approving.antt =====
-- Approve on every branch, with the executor it calls.
use go_on_call_agent.Prelude.{
  false, ℕ, String, true, Option, none, some, ◌≡◌, ◌≢◌, refl, sym, ◌∙◌, ap, arith,
}
use mathlib.Core.Path.{subst}
use go_on_call_agent.Errors.{
  Error, sentinel, is, not_pending, not_found, sentinel, wrap, Result, ok, err, is_err,
  Result-cases,
}
use go_on_call_agent.Errors
use go_on_call_agent.Dict.{lookup, insert}
use go_on_call_agent.Incident.{mitigating}
use go_on_call_agent.Incident.Service.Audit.{IsValid}
use go_on_call_agent.Incident.Service.{Stamp}
use go_on_call_agent.Approval.{
  Approval, pending, approved, executing, expired, next_approval, transition_status,
}
use go_on_call_agent.Approval.Writes.{
  missing, taken, written, transition_status-Ending, approval_eq_self,
}
use go_on_call_agent.World.{World, Executor, drawn, publish, Stands}
use go_on_call_agent.Approval.Service.{
  approval_incident_id, Wiring, now, step, expire, approve, approve_claimed, execute_claimed,
  final_status, claim_error,
}
use go_on_call_agent.Approval.Service.Steps.{
  step_written, lookup_written, execute_claimed-runs, expire-ends,
}
use go_on_call_agent.Approval.Service.Moves.{MoveEnd, unmoved, moved, move_incident-MoveEnd}

-- How Approve ends.
pub data Approved (source : ℕ → Stamp) (wiring : Wiring) (run : Executor) (w : World) (id : String)
    (out : Result Approval × World) : Type 0 where
  -- the approval is missing, or not pending: nothing changes but the clock
  refused :
      (e : Error)
      → ((a : Approval)
          → lookup id w.approvals ≡ some a
          → (a.status ≢ pending) × (is e not_pending ≡ true) × (is e not_found ≡ false))
      → out ≡ (err e, drawn w)
      → Approved source wiring run w id out
  -- the incident could not be moved: nothing was executed, and the approval cannot be used again
  lapsed :
      (e : Error) (cur b : Approval)
      → lookup id w.approvals ≡ some cur
      → out.0 ≡ err e
      → is e Errors.expired ≡ true
      → is e not_found ≡ false
      → lookup id out.1.approvals ≡ some b
      → b.status ≡ expired
      → out.1.calls ≡ w.calls
      → out.1.incidents ≡ w.incidents
      → Approved source wiring run w id out
  -- the executor ran on the approval, claimed for it alone, with its incident in MITIGATING, and its
  -- result is recorded
  ran :
      (start : World) (cur next done : Approval) (k : String)
      → lookup id w.approvals ≡ some cur
      → cur.status ≡ pending
      → lookup id start.approvals ≡ some next
      → next.status ≡ executing
      → start.calls ≡ w.calls
      → start.runs ≡ w.runs
      → approval_incident_id source wiring w cur ≡ ok k
      → (k ≢ "" → Stands start k mitigating)
      → IsValid start.incidents
      → out.0 ≡ ok done
      → lookup id out.1.approvals ≡ some done
      → done.status
        ≡ final_status source wiring (run id cur.action cur.arguments cur.run_id start).0
      → out.1.incidents ≡ (run id cur.action cur.arguments cur.run_id start).1.incidents
      → Approved source wiring run w id out

module _ (source : ℕ → Stamp) (wiring : Wiring) (run : Executor)
    (leaves : (i c g l : String) (v : World) → (run i c g l v).1.approvals ≡ v.approvals) where
  -- Behind the claim, by the move's end.
  claimed-Approved :
      (w v : World) (cur a : Approval) (out : Option Error × World)
      → wiring.executor ≡ some run
      → lookup a.id w.approvals ≡ some cur
      → cur.status ≡ pending
      → lookup a.id v.approvals ≡ some a
      → a.status ≡ approved
      → a.action ≡ cur.action
      → a.arguments ≡ cur.arguments
      → a.run_id ≡ cur.run_id
      → approval_incident_id source wiring v a ≡ approval_incident_id source wiring w cur
      → v.calls ≡ w.calls
      → v.runs ≡ w.runs
      → v.incidents ≡ w.incidents
      → MoveEnd source wiring v a mitigating out
      → Approved source wiring run w a.id (elim out.0 [
        | some e ↦ (
          err (expire source wiring out.1 a approved e).0,
          (expire source wiring out.1 a approved e).1,
        )
        | none ↦ elim wiring.executor [
          | none ↦ (ok a, out.1)
          | some f ↦ execute_claimed source wiring f out.1 a
        ]
      ])
  claimed-Approved w v cur a out wired there was here claimed act args runs bind calls same_runs
        incs (unmoved e stuck same apps kept) =
      let (b, is_exp, stored, ends, k, i) =
        expire-ends source wiring out.1 a approved e (ap (lookup a.id) apps ∙ here) claimed in
      rw stuck (
        lapsed _ cur b there refl is_exp.0 is_exp.1 stored ends (k ∙ kept ∙ calls)
          (i ∙ same ∙ incs))
  claimed-Approved w v cur a out wired there was here claimed act args runs bind calls same_runs
        incs (moved k done bound stands keeps kept_runs apps kept) =
      let (start, next, fin, at, is_exec, i, c, rs, is_ok, stored, ends, after) =
        execute_claimed-runs source wiring run out.1 a leaves (ap (lookup a.id) apps ∙ here)
          claimed in
      let runs_it : (elim wiring.executor as (λ _. Result Approval × World) [
        | none ↦ (ok a, out.1)
        | some f ↦ execute_claimed source wiring f out.1 a
      ])
          ≡ execute_claimed source wiring run out.1 a =
        ap
          (λ f. elim f as (λ _. Result Approval × World) [
            | none ↦ (ok a, out.1)
            | some f ↦ execute_claimed source wiring f out.1 a
          ])
          wired in
      rw (done, runs_it)
        (ran start cur next fin k there was at is_exec (c ∙ kept ∙ calls)
          (rs ∙ kept_runs ∙ same_runs) (sym bind ∙ bound)
          (λ named.
            let (inc, found, is_to) = stands named in
            (inc, ap (λ m. lookup k m.items) i ∙ found, is_to))
          (rw i keeps) is_ok stored (rw (sym act, sym args, sym runs) ends)
          (rw (sym act, sym args, sym runs) after))

  approve_claimed-Approved :
      (w v : World) (cur a : Approval)
      → wiring.executor ≡ some run
      → IsValid w.incidents
      → lookup a.id w.approvals ≡ some cur
      → cur.status ≡ pending
      → lookup a.id v.approvals ≡ some a
      → a.status ≡ approved
      → a.action ≡ cur.action
      → a.arguments ≡ cur.arguments
      → a.run_id ≡ cur.run_id
      → approval_incident_id source wiring v a ≡ approval_incident_id source wiring w cur
      → v.calls ≡ w.calls
      → v.runs ≡ w.runs
      → v.incidents ≡ w.incidents
      → Approved source wiring run w a.id (approve_claimed source wiring v a)
  unfolding approve_claimed
  approve_claimed-Approved w v cur a wired valid there was here claimed act args runs bind calls
        same_runs incs =
      claimed-Approved w v cur a _ wired there was here claimed act args runs bind calls same_runs
        incs (move_incident-MoveEnd source wiring v a mitigating (rw incs valid))

  -- The two ends of the claim.
  module _ (w : World) (id by : String) where
    abbrev decided : Approval → Approval
    decided a = record a { approved_by = by; approved_at = some (now source wiring w) }

    approve_refused :
        (e : Error)
        → step source wiring w id pending approved decided ≡ (err e, drawn w)
        → approve source wiring w id by ≡ (err (claim_error source wiring id e), drawn w)
    unfolding approve
    approve_refused e h = ground (arith, h)

    approve_written :
        (a : Approval) (v : World)
        → step source wiring w id pending approved decided ≡ (ok a, v)
        → approve source wiring w id by
          ≡ approve_claimed source wiring (publish a.run_id "action.approved" v) a
    unfolding approve
    approve_written a v h = ground (arith, h)

    claim_error-taken :
        (is (claim_error source wiring id (sentinel Errors.conflict)) not_pending ≡ true)
        × (is (claim_error source wiring id (sentinel Errors.conflict)) not_found ≡ false)
    unfolding claim_error
    claim_error-taken = (refl, refl)

    step_refused :
        (e : Error)
        → transition_status w.approvals (now source wiring w) id pending approved decided
          ≡ (err e, w.approvals)
        → step source wiring w id pending approved decided ≡ (err e, drawn w)
    unfolding step drawn
    step_refused e h = rw (step, h) refl

    written-Approved :
        wiring.executor ≡ some run
        → IsValid w.incidents
        → ((a : Approval) → lookup id w.approvals ≡ some a → a.id ≡ id)
        → (cur : Approval) → lookup id w.approvals ≡ some cur
        → cur.status ≡ pending
        → Approved source wiring run w id (approve source wiring w id by)
    unfolding publish drawn approval_incident_id
    written-Approved wired valid keyed cur there same =
        let key : cur.id ≡ id = keyed cur there in
        let a : Approval = next_approval (now source wiring w) approved decided cur in
        let v : World = record (drawn w) { approvals = insert id a w.approvals } in
        let start : World = publish a.run_id "action.approved" v in
        rw
          (approve_written a v
            (step_written source wiring w id pending approved decided cur there same))
          (subst (λ k. Approved source wiring run w k (approve_claimed source wiring start a)) key
            (approve_claimed-Approved w start cur a wired valid
              (subst (λ k. lookup k w.approvals ≡ some cur) (sym key) there) same
              (subst (λ k. lookup k (insert id a w.approvals) ≡ some a) (sym key)
                (lookup_written source wiring id a w.approvals))
              refl refl refl refl refl refl refl refl))

    pub approve-Approved :
        wiring.executor ≡ some run
        → IsValid w.incidents
        → ((a : Approval) → lookup id w.approvals ≡ some a → a.id ≡ id)
        → Approved source wiring run w id (approve source wiring w id by)
    approve-Approved wired valid keyed =
        elim (transition_status-Ending w.approvals (now source wiring w) id pending approved
          decided) [
            | missing absent r ↦
                refused _ (λ a at. ground (arith, absent, at))
                  (approve_refused _ (step_refused _ r))
            | taken cur there other r ↦
                refused _
                  (λ a at. (
                    λ same. ground (arith, there, at, other, same, approval_eq_self pending),
                    claim_error-taken.0,
                    claim_error-taken.1,
                  ))
                  (approve_refused _ (step_refused _ r))
            | written cur there same r ↦ written-Approved wired valid keyed cur there same
          ]
