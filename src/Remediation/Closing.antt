-- ===== src/Remediation/Closing.antt =====
-- The approval service with the remediation as its executor.
use go_on_call_agent.Prelude.{
  ℕ, String, true, none, some, ◌≡◌, refl, sym, ◌∙◌, ap, arith, ◌⊎◌, inl, inr, Bool-cases, ◌||◌, not,
}
use go_on_call_agent.Errors.{is, result_unknown, Result, ok, err}
use go_on_call_agent.Dict.{lookup}
use go_on_call_agent.Incident.{resolved, failed}
use go_on_call_agent.Incident.Service.{Stamp}
use go_on_call_agent.Incident.Service.Audit.{IsValid}
use go_on_call_agent.Run.{AgentRun, get_run}
use go_on_call_agent.Verifier.{Float64}
use go_on_call_agent.Approval.{Approval, executed}
use go_on_call_agent.Approval.Service.{Wiring, approve, final_status}
use go_on_call_agent.Approval.Service.Approving.{Approved, refused, lapsed, ran, approve-Approved}
use go_on_call_agent.World.{World, ExecutionResult, Stands}
use go_on_call_agent.Report.{Platform}
use go_on_call_agent.Deployment
use go_on_call_agent.Deployment.{Codec}
use go_on_call_agent.Remediation.{Remediation, sequence, execute}
use go_on_call_agent.Remediation.Finish.{
  Finish, untold, unmoved, action_error, interrupted, unverified, verified,
}
use go_on_call_agent.Remediation.Outcomes.{execute-Finish}
use go_on_call_agent.Remediation.Approvals.{execute-approvals}

final_status-executed :
    (source : ℕ → Stamp) (wiring : Wiring) (x : Result ExecutionResult)
    → final_status source wiring x ≡ executed
    → (y : ExecutionResult) × (x ≡ ok y)
unfolding final_status
final_status-executed source wiring (ok y) h = (y, refl)
final_status-executed source wiring (err e) h = absurd (elim (Bool-cases (is e result_unknown)) [
  | inl lost ↦ ground (arith, lost, h)
  | inr known ↦ ground (arith, known, h)
])

module _ (F : Float64) (source : ℕ → Stamp) (codec : Codec) (platform : Platform)
    (r : Remediation F) where
  -- The incident is resolved and the verification passed, or it failed and the verification did not.
  abbrev pub IsClosed : World → String → Type 0
  IsClosed w id =
      (Stands w id resolved
        × ((sequence F source codec platform r id).1 ≡ none)
        × ((sequence F source codec platform r id).0.passed ≡ true))
      ⊎ (Stands w id failed
          × (Deployment.is_some (sequence F source codec platform r id).1
                || not (sequence F source codec platform r id).0.passed
              ≡ true))

  Finish-IsClosed :
      (w : World) (id approval_id action arguments : String) (y : ExecutionResult)
      (out : Result ExecutionResult × World)
      → out.0 ≡ ok y
      → Finish F source codec platform r w id approval_id action arguments out
      → IsClosed out.1 id
  Finish-IsClosed w id approval_id action arguments y out done (untold e did vague is_error same) =
      cc
  Finish-IsClosed w id approval_id action arguments y out done
        (unmoved to f why refusal is_error same) =
      ground (arith, is_error, done)
  Finish-IsClosed w id approval_id action arguments y out done
        (action_error e did known is_error there) =
      cc
  Finish-IsClosed w id approval_id action arguments y out done
        (interrupted fin before to f did why refusal is_error same there) =
      cc
  Finish-IsClosed w id approval_id action arguments y out done
        (unverified x fin did is_ok v op there bad) =
      inr (there, bad)
  Finish-IsClosed w id approval_id action arguments y out done
        (verified x did acted is_ok v op there calm won) =
      inl (there, calm, won)

  IsClosed-same :
      (v w : World) (id : String) → v.incidents ≡ w.incidents → IsClosed v id → IsClosed w id
  IsClosed-same v w id same (inl ((inc, found, is_to), calm, won)) =
      inl ((inc, sym (ap (λ m. lookup id m.items) same) ∙ found, is_to), calm, won)
  IsClosed-same v w id same (inr ((inc, found, is_to), rest)) =
      inr ((inc, sym (ap (λ m. lookup id m.items) same) ∙ found, is_to), rest)

  module _ (wiring : Wiring) (w : World) (id by : String) where
    -- Approve with the remediation as its executor: if it returns an approval that is EXECUTED, the
    -- incident of the approval's run is RESOLVED and the verification passed, or it is FAILED and the
    -- verification was interrupted or did not pass.
    pub approve-IsClosed :
        (done : Approval)
        → wiring.executor ≡ some (execute F source codec platform r)
        → IsValid w.incidents
        → ((a : Approval) → lookup id w.approvals ≡ some a → a.id ≡ id)
        → (approve source wiring w id by).0 ≡ ok done
        → done.status ≡ executed
        → (cur : Approval) × (run : AgentRun) × (lookup id w.approvals ≡ some cur)
          × (get_run w.runs cur.run_id ≡ ok run)
          × IsClosed (approve source wiring w id by).1 run.incident_id
    approve-IsClosed done wired valid keyed is_ok is_executed = at (
        approve-Approved source wiring (execute F source codec platform r)
          (execute-approvals F source codec platform r) w id by wired valid keyed)
      where
        at :
            Approved source wiring
              (execute F source codec platform r)
              w
              id
              (approve source wiring w id by)
            → (cur : Approval) × (run : AgentRun) × (lookup id w.approvals ≡ some cur)
              × (get_run w.runs cur.run_id ≡ ok run)
              × IsClosed (approve source wiring w id by).1 run.incident_id
        at (refused e other r') = absurd (cc)
        at (lapsed e was b before is_error x nf s st c i) = absurd (cc)
        at
              (ran start cur next fin k there was held is_exec calls runs bound stands keeps fin_ok
                stored ends after) =
            let same : fin ≡ done = cc in
            let end : final_status source wiring
                  (execute F source codec platform r id cur.action cur.arguments cur.run_id start).0
                ≡ executed =
              sym ends ∙ ap Approval.status same ∙ is_executed in
            let ends_at =
              execute F source codec platform r id cur.action cur.arguments cur.run_id start in
            let (y, gave) = final_status-executed source wiring ends_at.0 end in
            elim (execute-Finish F source codec platform r start cur.run_id id cur.action
              cur.arguments keeps) [
                | inl (bad, _, _) ↦ absurd (ground (arith, bad, gave))
                | inr (run, found, inl (bad, _, _)) ↦ absurd (ground (arith, bad, gave))
                | inr (run, found, inr (_, how)) ↦ (
                  cur,
                  run,
                  there,
                  ap (λ m. get_run m cur.run_id) (sym runs) ∙ found,
                  IsClosed-same ends_at.1 (approve source wiring w id by).1 run.incident_id
                      (sym after)
                      (Finish-IsClosed start run.incident_id id cur.action cur.arguments y ends_at
                        gave how),
                )
              ]
