-- ===== src/Remediation/Approvals.antt =====
-- The remediation as the executor of the approval service.
use go_on_call_agent.Prelude.{
  ℕ, String, Option, ◌≡◌, refl, arith, inl, inr, Bool-cases, ◌∙◌, ◌||◌, not, str_eq,
}
use go_on_call_agent.Errors.{Error, is, result_unknown, Result, ok, err, Result-cases}
use go_on_call_agent.Dict.{Dict}
use go_on_call_agent.Incident.{Incident, Status, is_terminal, status_eq, mitigating}
use go_on_call_agent.Incident.Event.{Value}
use go_on_call_agent.Incident.Service.{Stamp}
use go_on_call_agent.Verifier.{Float64, SequenceResult}
use go_on_call_agent.World.{World, ExecutionResult, drawn, publish}
use go_on_call_agent.Report.{Platform, RemediationResult}
use go_on_call_agent.Deployment
use go_on_call_agent.Deployment.{Codec}
use go_on_call_agent.Run.{get_run}
use go_on_call_agent.Incident.Store.{get_by_id}
use go_on_call_agent.Remediation.{
  Remediation, move, publish_if, verification_failure, verification_success, conclude, sequence,
  after_action, act, act_on, execute,
}

module _ (F : Float64) (source : ℕ → Stamp) (codec : Codec) (platform : Platform)
    (r : Remediation F) where
  move-approvals :
      (w : World) (id : String) (to : Status) (event_type : String) (payload : Dict Value)
      → (move F source codec platform r w id to event_type payload).1.approvals ≡ w.approvals
  unfolding move drawn
  move-approvals w id to event_type payload = refl

  publish_if-approvals :
      (run_id typ : String) (w : World)
      → (publish_if F source codec platform r run_id typ w).approvals ≡ w.approvals
  unfolding publish_if publish
  publish_if-approvals run_id typ w = elim (Bool-cases r.broker) [
    | inl on ↦ rw on refl
    | inr off ↦ rw off refl
  ]

  -- An answer behind a move, whichever way the move ended.
  answer-approvals :
      (x : Result Incident × World) (explain : Error → Error) (y : Result ExecutionResult)
      (run_id typ : String)
      → (elim x.0 as (λ _. Result ExecutionResult × World) [
        | err e ↦ (err (explain e), x.1)
        | ok _ ↦ (y, publish_if F source codec platform r run_id typ x.1)
      ]).1.approvals
        ≡ x.1.approvals
  answer-approvals (err e, v) explain y run_id typ = refl
  answer-approvals (ok i, v) explain y run_id typ = publish_if-approvals run_id typ v

  failure-approvals :
      (w : World) (run_id id approval_id : String) (res : RemediationResult)
      → (verification_failure F source codec platform r w run_id id approval_id res).1.approvals
        ≡ w.approvals
  unfolding verification_failure
  failure-approvals w run_id id approval_id res =
      answer-approvals _ _ _ run_id _ ∙ move-approvals w id _ _ _

  success-approvals :
      (w : World) (inc : Incident) (run_id id approval_id action : String) (seq : SequenceResult F)
      (res : RemediationResult)
      → (verification_success F source codec platform r w inc run_id id approval_id action seq
          res).1.approvals
        ≡ w.approvals
  unfolding verification_success
  success-approvals w inc run_id id approval_id action seq res =
      answer-approvals _ _ _ run_id _ ∙ move-approvals w id _ _ _

  conclude-approvals :
      (w : World) (inc : Incident) (run_id id approval_id action op : String)
      (seq : SequenceResult F × Option Error)
      → (conclude F source codec platform r w inc run_id id approval_id action op seq).1.approvals
        ≡ w.approvals
  unfolding conclude
  conclude-approvals w inc run_id id approval_id action op seq =
      elim (Bool-cases (Deployment.is_some seq.1 || not seq.0.passed)) [
        | inl bad ↦ rw (conclude, bad) (failure-approvals w run_id id approval_id _)
        | inr fine ↦
            rw (conclude, fine) (success-approvals w inc run_id id approval_id action seq.0 _)
      ]

  after-approvals :
      (w : World) (inc : Incident) (run_id id approval_id action : String)
      (x : Result ExecutionResult)
      → (after_action F source codec platform r w inc run_id id approval_id action x).1.approvals
        ≡ w.approvals
  unfolding after_action
  after-approvals w inc run_id id approval_id action (err e) =
      elim (Bool-cases (is e result_unknown)) [
        | inl lost ↦ rw lost refl
        | inr known ↦ rw known (either _ _ _ ∙ move-approvals w id _ _ _)
      ]
    where
      either :
          (x : Result Incident × World) (explain : Error → Error) (f : Error)
          → (elim x.0 as (λ _. Result ExecutionResult × World) [
            | err g ↦ (err (explain g), x.1)
            | ok _ ↦ (err f, x.1)
          ]).1.approvals
            ≡ x.1.approvals
      either (err g, v) explain f = refl
      either (ok i, v) explain f = refl
  after-approvals w inc run_id id approval_id action (ok done) =
      closing _ _ ∙ move-approvals w id _ _ _
    where
      closing :
          (x : Result Incident × World) (explain : Error → Error)
          → (elim x.0 as (λ _. Result ExecutionResult × World) [
            | err g ↦ (err (explain g), x.1)
            | ok _ ↦
                conclude F source codec platform r x.1 inc run_id id approval_id action
                  done.operation_id
                  (sequence F source codec platform r id)
          ]).1.approvals
            ≡ x.1.approvals
      closing (err g, v) explain = refl
      closing (ok i, v) explain =
          conclude-approvals v inc run_id id approval_id action done.operation_id _

  act_on-approvals :
      (w : World) (run_id id approval_id action arguments : String)
      → (act_on F source codec platform r w run_id id approval_id action arguments).1.approvals
        ≡ w.approvals
  unfolding act_on act
  act_on-approvals w run_id id approval_id action arguments =
      elim (Result-cases (get_by_id w.incidents id)) [
        | inr (e, missing) ↦ rw (act_on, missing) refl
        | inl (inc, read) ↦ elim (Bool-cases (is_terminal inc.status)) [
          | inl over ↦ rw (act_on, read, over) refl
          | inr live ↦ elim (Bool-cases (status_eq inc.status mitigating)) [
            | inr other ↦ rw (act_on, read, live, other) refl
            | inl here ↦
                rw (act_on, read, live, here) (after-approvals _ inc run_id id approval_id action _)
          ]
        ]
      ]

  -- The remediation leaves every approval as it is, on every branch, so that it can be the executor of
  -- the approval service.
  pub execute-approvals :
      (approval_id action arguments run_id : String) (w : World)
      → (execute F source codec platform r approval_id action arguments run_id w).1.approvals
        ≡ w.approvals
  execute-approvals approval_id action arguments run_id w = elim (Bool-cases r.incident_svc) [
    | inr off ↦ unfold execute in ground (arith, off)
    | inl svc ↦ elim (Bool-cases r.run_repo) [
      | inr off ↦ unfold execute in ground (arith, svc, off)
      | inl repo ↦ elim (Result-cases (get_run w.runs run_id)) [
        | inr (e, missing) ↦ unfold execute in ground (arith, svc, repo, missing)
        | inl (run, found) ↦ elim (Bool-cases (str_eq run.incident_id "")) [
          | inl empty ↦ unfold execute in ground (arith, svc, repo, found, empty)
          | inr bound ↦
              unfold execute in
              ground (
                arith,
                svc,
                repo,
                found,
                bound,
                act_on-approvals w run_id run.incident_id approval_id action arguments,
              )
        ]
      ]
    ]
  ]
