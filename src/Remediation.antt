-- ===== src/Remediation.antt =====
-- internal/execution/executor/remediation.go: the closed loop of execution, verification and closing.
-- The metrics come from outside. The contexts' deadlines are left out: the in-memory repositories ignore
-- them.
pub mod Finish
pub mod Branches
pub mod Acting
pub mod Outcomes
pub mod Approvals
pub mod Closing
use go_on_call_agent.Prelude.{
  ℕ, String, Bool, true, false, Option, none, some, List, [], ◌∷◌, ◌++◌, map, length, not, str_eq,
  ◌<>◌, ◌&&◌, ◌||◌, if◌then◌else◌,
}
use go_on_call_agent.Prelude.Int.{pos}
use go_on_call_agent.Errors.{Error, plain, wrap, join, is, result_unknown, Result, ok, err}
use go_on_call_agent.Dict.{Dict, insert, lookup, get_list}
use go_on_call_agent.Incident.{
  Incident, Status, mitigating, verifying, resolved, failed, status_eq, status_text, is_terminal,
}
use go_on_call_agent.Incident.Event.{
  Value, text, action_failed, action_completed, verification_failed, postmortem_generated,
}
use go_on_call_agent.Incident.Store.{get_by_id}
use go_on_call_agent.Incident.Service.{Stamp, move_to_with_audit}
use go_on_call_agent.Run.{AgentRun, AgentStep, MemoryRun, get_run}
use go_on_call_agent.Verifier.{
  Float64, RunConfig, Config, Check, Environment, Attempt, SequenceResult, verify_sequence,
}
use go_on_call_agent.World.{World, ExecutionResult, Executor, publish, drawn}
use go_on_call_agent.Deployment
use go_on_call_agent.Text.{is_blank}
use go_on_call_agent.Deployment.{Codec, Tool, is_nil}
use go_on_call_agent.Report.{RemediationResult, Platform, root_cause, last_checks, check_details}
use go_on_call_agent.Postmortem.{generate}

-- The fields of Remediation, but for the services, which the state holds; a nil field is false or none.
pub record Remediation (F : Float64) : Type 0 where
  pub restart : Tool
  pub thresholds : Config F
  pub gatherer : Option (String → Environment F)
  pub incident_svc : Bool
  pub run_repo : Bool
  pub generator : Bool
  pub broker : Bool
  pub verify_cfg : RunConfig

module _ (F : Float64) where
  open F use {decimal}

  module _ (source : ℕ → Stamp) (codec : Codec) (platform : Platform) (r : Remediation F) where
    -- MoveToWithAudit on the shared state.
    unfoldable pub move : World → String → Status → String → Dict Value → Result Incident × World
    move w id to event_type payload =
        let (x, m) = move_to_with_audit w.incidents (source w.draws) id to event_type payload in
        (x, record (drawn w) { incidents = m })

    -- publish
    unfoldable pub publish_if : String → String → World → World
    publish_if run_id typ w = if r.broker then publish run_id typ w else w

    abbrev moving : String → String → Error → Error
    moving id status e = wrap ("move incident " <> id <> " to " <> status <> ": ") e ""

    -- The result before the branch on the verification, with the status and the verdict of the branch.
    unfoldable pub verification_result :
        String → String → SequenceResult F → Option Error → RemediationResult
    verification_result id operation_id seq e = record {
      status = "";
      verified = false;
      incident_id = id;
      postmortem = "";
      checks = last_checks F seq.attempts;
      operation_id = operation_id;
      reason = elim e [ none ↦ seq.reason | some c ↦ "verification interrupted: " <> c.text ];
      attempts = length seq.attempts;
    }

    -- The branch of a verification that was interrupted or did not pass.
    unfoldable pub verification_failure :
        World → String → String → String → RemediationResult → Result ExecutionResult × World
    verification_failure w run_id id approval_id res =
        let res' = record res { status = "verify_failed" } in
        let data' = platform.marshal res' in
        let (x, w') = move w id failed verification_failed (
          ("approval_id", text approval_id)
          ∷ ("result", text data')
          ∷ ("operation_id", text res.operation_id)
          ∷ ("reason", text res.reason)
          ∷ []) in
        elim x [
          | err e ↦ (err (moving id "FAILED" e), w')
          | ok _ ↦ (
            ok (record {
              output = data';
              operation_id = res.operation_id;
              incident_id = id;
              verified = false;
            }),
            publish_if run_id "incident.verify_failed" w',
          )
        ]

    -- The postmortem, if there is a generator.
    unfoldable pub postmortem_text :
        World → Incident → String → String → String → SequenceResult F → String
    postmortem_text w inc run_id action operation_id seq =
        if r.generator
        then generate inc (root_cause platform w.runs run_id) (check_details F seq.attempts) (
            action
            <> " operation_id="
            <> operation_id
            <> "；连续验证通过 "
            <> decimal (pos seq.successes)
            <> " 次（共 "
            <> decimal (pos (length seq.attempts))
            <> " 次采集）")
        else ""

    -- The branch of a verification that passed.
    unfoldable pub verification_success :
        World
        → Incident
        → String
        → String
        → String
        → String
        → SequenceResult F
        → RemediationResult
        → Result ExecutionResult × World
    verification_success w inc run_id id approval_id action seq res =
        let res' = record res {
          status = "completed";
          verified = true;
          postmortem = postmortem_text w inc run_id action res.operation_id seq;
        } in
        let data' = platform.marshal res' in
        let (x, w') = move w id resolved postmortem_generated (
          ("approval_id", text approval_id)
          ∷ ("result", text data')
          ∷ ("postmortem", text res'.postmortem)
          ∷ ("operation_id", text res.operation_id)
          ∷ []) in
        elim x [
          | err e ↦ (err (moving id "RESOLVED" e), w')
          | ok _ ↦ (
            ok (record {
              output = data';
              operation_id = res.operation_id;
              incident_id = id;
              verified = true;
            }),
            publish_if run_id "incident.resolved" w',
          )
        ]

    -- The lines of Execute from the verification on.
    unfoldable pub conclude :
        World
        → Incident
        → String
        → String
        → String
        → String
        → String
        → SequenceResult F × Option Error
        → Result ExecutionResult × World
    conclude w inc run_id id approval_id action operation_id (seq, e) =
        if Deployment.is_some e || not seq.passed
        then verification_failure w run_id id approval_id
            (verification_result id operation_id seq e)
        else verification_success w inc run_id id approval_id action seq
            (verification_result id operation_id seq e)

    -- VerifySequence, of the gatherer for the incident.
    unfoldable pub sequence : String → SequenceResult F × Option Error
    sequence id =
        verify_sequence F r.thresholds r.verify_cfg
          (elim r.gatherer [ none ↦ none | some env ↦ some (env id) ])

    -- The lines of Execute behind the action.
    unfoldable pub after_action :
        World
        → Incident
        → String
        → String
        → String
        → String
        → Result ExecutionResult
        → Result ExecutionResult × World
    after_action w inc run_id id approval_id action (err e) =
        let (x, w') =
          move w id failed action_failed
            (("approval_id", text approval_id) ∷ ("error", text e.text) ∷ []) in
        if is e result_unknown
        then (err e, w)
        else elim x [ err f ↦ (err (join e (moving id "FAILED" f)), w') | ok _ ↦ (err e, w') ]
    after_action w inc run_id id approval_id action (ok done) =
        let (x, w') =
          move w id verifying action_completed
            (("approval_id", text approval_id) ∷ ("operation_id", text done.operation_id) ∷ []) in
        elim x [
          | err f ↦ (err (moving id "VERIFYING" f), w')
          | ok _ ↦ conclude w' inc run_id id approval_id action done.operation_id (sequence id)
        ]

    -- The action, on the incident that was read.
    unfoldable pub act :
        World
        → Incident
        → String
        → String
        → String
        → String
        → String
        → Result ExecutionResult × World
    act w inc run_id id approval_id action arguments =
        let (x, keys) = Deployment.execute codec r.restart approval_id action arguments in
        after_action (record w { calls = w.calls ++ keys }) inc run_id id approval_id action x

    -- Execute from the incident's id on.
    unfoldable pub act_on :
        World → String → String → String → String → String → Result ExecutionResult × World
    act_on w run_id id approval_id action arguments = elim (get_by_id w.incidents id) [
      | err e ↦ (err e, w)
      | ok inc ↦
          if is_terminal inc.status
          then (err (plain ("incident " <> id <> " is already " <> status_text inc.status)), w)
          else if not (status_eq inc.status mitigating)
          then (
            err (
                plain (
                  "incident "
                  <> id
                  <> " is "
                  <> status_text inc.status
                  <> ", remediation requires MITIGATING")),
            w,
          )
          else act w inc run_id id approval_id action arguments
    ]

    -- Execute
    unfoldable pub execute : Executor
    execute approval_id action arguments run_id w =
        if not r.incident_svc
        then (err (plain "no incident service configured, cannot verify or close any incident"), w)
        else if not r.run_repo
        then (
          err (
              plain (
                "no run repository configured, cannot resolve incident of run "
                <> platform.quoted run_id)),
          w,
        )
        else elim (get_run w.runs run_id) [
          | err e ↦
              (err (wrap ("resolve incident of run " <> platform.quoted run_id <> ": ") e ""), w)
          | ok run ↦
              if str_eq run.incident_id ""
              then (
                err (plain ("run " <> platform.quoted run_id <> " is not bound to an incident")),
                w,
              )
              else act_on w run_id run.incident_id approval_id action arguments
        ]
