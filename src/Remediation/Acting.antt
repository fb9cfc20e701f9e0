-- ===== src/Remediation/Acting.antt =====
-- How the remediation ends once its action has run.
use go_on_call_agent.Prelude.{
  ℕ, String, true, false, none, ◌≡◌, refl, ◌∙◌, ap, arith, inl, inr, Bool-cases,
}
use go_on_call_agent.Errors.{Error, is, result_unknown, Result, ok, err, is_err, Result-cases}
use go_on_call_agent.Dict.{lookup}
use go_on_call_agent.Incident.{Incident, verifying, resolved, failed}
use go_on_call_agent.Incident.Event.{action_completed, action_failed}
use go_on_call_agent.Incident.Store.Audit.{is_status_type}
use go_on_call_agent.Incident.Service.{Stamp}
use go_on_call_agent.Incident.Service.Audit.{IsValid}
use go_on_call_agent.Verifier.{Float64}
use go_on_call_agent.World.{World, ExecutionResult, Stands}
use go_on_call_agent.Report.{Platform}
use go_on_call_agent.Deployment.{Codec}
use go_on_call_agent.Remediation.{
  Remediation, verification_result, conclude, sequence, after_action, act,
}
use go_on_call_agent.Remediation.Finish.{
  lost, acted, Finish, untold, unmoved, action_error, interrupted, unverified, verified,
}
use go_on_call_agent.Remediation.Branches.{
  IsRefused-same, Step, stays, goes, move-Step, Closed, refused, closed, failure-Closed,
  success-Closed,
}

module _ (F : Float64) (source : ℕ → Stamp) (codec : Codec) (platform : Platform)
    (r : Remediation F) where
  module _ (w : World) (h : IsValid w.incidents)
      (run_id id approval_id action arguments : String) where
    abbrev Ends : Result ExecutionResult × World → Type 0
    Ends = Finish F source codec platform r w id approval_id action arguments

    closed-Ends :
        (w' : World) (done : ExecutionResult) (out : Result ExecutionResult × World)
        → acted F source codec platform r approval_id action arguments ≡ ok done
        → Stands w' id verifying
        → (sequence F source codec platform r id).1 ≡ none
        → (sequence F source codec platform r id).0.passed ≡ true
        → Closed F source codec platform r w' id done.operation_id resolved true out
        → Ends out
    closed-Ends w' done out did (i, at, is_to) calm won (refused f is_err same why) =
        interrupted done w' resolved f did (inr (refl, ground (arith, calm, won))) why is_err same
          (i, ap (λ m. lookup id m.items) same ∙ at, is_to)
    closed-Ends w' done out did there calm won (closed x is_ok v o now) =
        verified x done did is_ok v o now calm won

    failed-Ends :
        (w' : World) (done : ExecutionResult) (out : Result ExecutionResult × World)
        → acted F source codec platform r approval_id action arguments ≡ ok done
        → Stands w' id verifying
        → lost F source codec platform r id ≡ true
        → Closed F source codec platform r w' id done.operation_id failed false out
        → Ends out
    failed-Ends w' done out did (i, at, is_to) bad (refused f is_err same why) =
        interrupted done w' failed f did (inl (refl, bad)) why is_err same
          (i, ap (λ m. lookup id m.items) same ∙ at, is_to)
    failed-Ends w' done out did there bad (closed x is_ok v o now) =
        unverified x done did is_ok v o now bad

    conclude-Ends :
        (w' : World) (inc : Incident) (done : ExecutionResult)
        → IsValid w'.incidents
        → Stands w' id verifying
        → acted F source codec platform r approval_id action arguments ≡ ok done
        → Ends (
            conclude F source codec platform r w' inc run_id id approval_id action done.operation_id
              (sequence F source codec platform r id))
    unfolding conclude verification_result
    conclude-Ends w' inc done valid there did =
        let seq = sequence F source codec platform r id in
        let res = verification_result F source codec platform r id done.operation_id seq.0 seq.1 in
        elim (Bool-cases (lost F source codec platform r id)) [
          | inl bad ↦
              rw (conclude, bad)
                (failed-Ends w' done _ did there bad
                  (failure-Closed F source codec platform r w' valid run_id id approval_id res))
          | inr fine ↦
              rw (conclude, fine)
                (closed-Ends w' done _ did there (ground (arith, fine)) (ground (arith, fine)) (
                  success-Closed F source codec platform r w' valid inc run_id id approval_id action
                    seq.0 res))
        ]

    -- The answer behind the first move, whose state is that of the start or has moved.
    after_error :
        (out : Result Incident × World) (e : Error) (explain : Error → Error)
        → acted F source codec platform r approval_id action arguments ≡ err e
        → is e result_unknown ≡ false
        → (w' : World) → w'.incidents ≡ w.incidents
        → w'.draws ≡ w.draws
        → Step source w' id failed out
        → Ends (elim out.0 [ err f ↦ (err (explain f), out.1) | ok _ ↦ (err e, out.1) ])
    after_error out e explain did known w' same draws (stays f refusal k why) = rw refusal (
        unmoved failed f (inl (refl, ap is_err did))
          (IsRefused-same source w' w id failed f same draws why) refl (k ∙ same))
    after_error out e explain did known w' same draws (goes inc is_ok there valid) =
        rw is_ok (action_error e did known refl there)

    after_done :
        (out : Result Incident × World) (done : ExecutionResult) (inc : Incident)
        (explain : Error → Error)
        → acted F source codec platform r approval_id action arguments ≡ ok done
        → (w' : World) → w'.incidents ≡ w.incidents
        → w'.draws ≡ w.draws
        → Step source w' id verifying out
        → Ends (elim out.0 [
          | err f ↦ (err (explain f), out.1)
          | ok _ ↦
              conclude F source codec platform r out.1 inc run_id id approval_id action
                done.operation_id
                (sequence F source codec platform r id)
        ])
    after_done out done inc explain did w' same draws (stays f refusal k why) = rw refusal (
        unmoved verifying f (inr (refl, ap is_err did))
          (IsRefused-same source w' w id verifying f same draws why) refl (k ∙ same))
    after_done out done inc explain did w' same draws (goes i is_ok there valid) =
        rw is_ok (conclude-Ends out.1 inc done valid there did)

    error-Ends :
        (w' : World) (inc : Incident) (e : Error)
        → w'.incidents ≡ w.incidents
        → w'.draws ≡ w.draws
        → acted F source codec platform r approval_id action arguments ≡ err e
        → Ends (after_action F source codec platform r w' inc run_id id approval_id action (err e))
    unfolding after_action
    error-Ends w' inc e same draws did =
        let kind : is_status_type action_failed ≡ false = unfold is_status_type in refl in
        let valid : IsValid w'.incidents = rw same h in
        elim (Bool-cases (is e result_unknown)) [
          | inl vague ↦ rw vague (untold e did vague refl same)
          | inr known ↦ rw known (
              after_error _ e _ did known w' same draws
                (move-Step F source codec platform r w' id failed action_failed _ valid kind))
        ]

    done-Ends :
        (w' : World) (inc : Incident) (done : ExecutionResult)
        → w'.incidents ≡ w.incidents
        → w'.draws ≡ w.draws
        → acted F source codec platform r approval_id action arguments ≡ ok done
        → Ends
            (after_action F source codec platform r w' inc run_id id approval_id action (ok done))
    unfolding after_action
    done-Ends w' inc done same draws did =
        let kind : is_status_type action_completed ≡ false = unfold is_status_type in refl in
        let valid : IsValid w'.incidents = rw same h in
        after_done _ done inc _ did w' same draws
          (move-Step F source codec platform r w' id verifying action_completed _ valid kind)

    pub act-Ends :
        (inc : Incident)
        → Ends (act F source codec platform r w inc run_id id approval_id action arguments)
    unfolding act
    act-Ends inc =
        elim (Result-cases (acted F source codec platform r approval_id action arguments)) [
          | inl (done, did) ↦ rw (act, did) (done-Ends _ inc done refl refl did)
          | inr (e, did) ↦ rw (act, did) (error-Ends _ inc e refl refl did)
        ]
