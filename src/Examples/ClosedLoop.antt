-- ===== src/Examples/ClosedLoop.antt =====
-- Approvals from the request to the closed incident, and one subscription to the stream.
use go_on_call_agent.Prelude.{
  none, ◌≤◌, ◌<◌, length, snoc, List, [], ◌∷◌, ℕ, zero, suc, String, true, some, ◌≡◌, refl, ◌<>◌,
}
use go_on_call_agent.Errors.{Result, ok}
use go_on_call_agent.Incident.Service.{Stamp}
use go_on_call_agent.Approval.{Approval, executed}
use go_on_call_agent.Approval.Service.{Wiring, approve}
use go_on_call_agent.Run.{AgentRun}
use go_on_call_agent.Remediation
use go_on_call_agent.Remediation.Closing.{IsClosed, approve-IsClosed}
use go_on_call_agent.Examples.{valid, stamp, alert, to_status_request, after}
use go_on_call_agent.Incident.Service.Lifecycle.{Request, creation}
use go_on_call_agent.Incident.{investigating}
use go_on_call_agent.World.{World}
use go_on_call_agent.StreamBroker.{
  StreamBroker, new_stream_broker, publish as publish_event, subscribe, capacity,
}
use go_on_call_agent.StreamBroker.Replay.{channel, subscribe-replays}
use go_on_call_agent.Examples.Execution.{world, floats, codec, platform, loop, keyed, one_approval}
use go_on_call_agent.Dict.{get_list, lookup, insert, values}
use go_on_call_agent.World.{publish, drawn}
use go_on_call_agent.Run.{get_run}
use go_on_call_agent.Incident.{to_status, status_eq, is_terminal, identity_key, make_fingerprint}
use go_on_call_agent.Incident.Event.{new_audit_event, insert_nonempty, new_incident_event}
use go_on_call_agent.Incident.StateMachine.{
  allowed_targets, can_transition, transition_error, transition,
}
use go_on_call_agent.Incident.Store.{
  blocks, check_create_conflicts, check_update_conflicts, check_event_conflict, add_event_locked,
  create_locked, update_locked, create_with_event, create, check_events, add_events,
  update_with_events, update_with_event, update, list_events, get_by_id, newest, get_by_fingerprint,
  get_active_by_fingerprint,
}
use go_on_call_agent.Incident.Service.{
  new_incident, created_event, after_conflict, create_commit, create as service_create, moved,
  status_event, audit_event, write_transition, update_error, transition_commit,
  transition_with_audit, move_to, move_to_with_audit, fail, analyze, resolve, expire_pending,
  closed_externally, recovery_event, resolve_history, resolve_externally, list_incident_events,
}
use go_on_call_agent.Approval.{transition_status}
use go_on_call_agent.Approval.Service.{
  resolve_incident_id, approval_incident_id, move_incident, step, expire, new_approval,
  await_approval, request, claim_error, final_status, record_result, persist_result,
  execute_claimed, approve_claimed, reject, expire_pending as service_expire_pending,
}
use go_on_call_agent.Verifier.{
  normalized, all_passed, new_config, checks_of, verify, attempt_of, record_attempt, count_attempt,
  canceled, exhausted, pause, verify_loop, verify_sequence,
}
use go_on_call_agent.Text.{is_space, is_blank}
use go_on_call_agent.Deployment.{check_target, classify, execute_http, execute}
use go_on_call_agent.Report.{
  last_conclusion, root_cause, last_checks, attempt_details, check_details,
}
use go_on_call_agent.Postmortem.{bullets, evidence_section, generate}
use go_on_call_agent.Remediation.{
  move, publish_if, verification_result, verification_failure, postmortem_text,
  verification_success, conclude, sequence, after_action, act, act_on,
  execute as remediation_execute,
}
use go_on_call_agent.Incident.Service.Lifecycle.{serve, run}

-- Ids that differ from draw to draw.
abbrev name : ℕ → String
name zero = "x"
name (suc n) = "x" <> name n

abbrev source : ℕ → Stamp
source n = record { now = n; id = name n; event_id = "e" <> name n; audit_id = "a" <> name n }

abbrev closing : Wiring
closing = record {
  incident_svc = true;
  run_repo = true;
  executor = some (Remediation.execute floats source codec platform loop);
}

abbrev answer : Result Approval
answer = (approve source closing world "ap_1" "alice").0

abbrev closed_approval : Approval
closed_approval = record one_approval {
  status = executed;
  approved_by = "alice";
  result = "{}";
  operation_id = "op_1";
  updated_at = 5;
  approved_at = some 0;
}

answered : answer ≡ ok closed_approval
unfolding lookup insert values publish drawn get_run to_status status_eq is_terminal identity_key
    make_fingerprint new_audit_event insert_nonempty new_incident_event allowed_targets
    can_transition transition_error transition blocks check_create_conflicts check_update_conflicts
    check_event_conflict add_event_locked create_locked update_locked create_with_event create
    check_events add_events update_with_events update_with_event update list_events get_by_id newest
    get_by_fingerprint get_active_by_fingerprint new_incident created_event after_conflict
    create_commit service_create moved status_event audit_event write_transition update_error
    transition_commit transition_with_audit move_to move_to_with_audit fail analyze resolve
    expire_pending closed_externally recovery_event resolve_history resolve_externally
    list_incident_events transition_status resolve_incident_id approval_incident_id move_incident
    step expire new_approval await_approval request claim_error final_status record_result
    persist_result execute_claimed approve_claimed approve reject service_expire_pending normalized
    all_passed new_config checks_of verify attempt_of record_attempt count_attempt canceled
    exhausted pause verify_loop verify_sequence is_space is_blank check_target classify execute_http
    execute last_conclusion root_cause last_checks attempt_details check_details bullets
    evidence_section generate move publish_if verification_result verification_failure
    postmortem_text verification_success conclude sequence after_action act act_on
    remediation_execute serve run
answered = refl

approve-IsClosed_example :
    (cur : Approval) × (run : AgentRun) × (lookup "ap_1" world.approvals ≡ some cur)
    × (get_run world.runs cur.run_id ≡ ok run)
    × IsClosed floats source codec platform loop
        (approve source closing world "ap_1" "alice").1
        run.incident_id
approve-IsClosed_example =
    approve-IsClosed floats source codec platform loop closing world "ap_1" "alice" closed_approval
      refl valid keyed answered refl

-- An incident under investigation, and a request for its first approval.
abbrev early : List Request
early = creation (stamp "1") alert ∷ to_status_request "3" investigating ∷ []

abbrev early_world : World
early_world = record world { incidents = after early; approvals = [] }

-- A stream with one event.
abbrev one_event : StreamBroker
one_event =
    publish_event new_stream_broker "run_1" (record { typ = "action.approved"; data_text = "" })

subscribe-replays_example :
    let past = get_list (lookup "run_1" one_event.history) in
    (length past ≤ capacity
      → subscribe one_event "run_1" 7
        ≡ some (
          channel 7 past,
          record one_event {
            subs =
                insert "run_1"
                  (snoc (get_list (lookup "run_1" one_event.subs)) (channel 7 past))
                  one_event.subs;
          },
        ))
    × (capacity < length past → subscribe one_event "run_1" 7 ≡ none)
subscribe-replays_example = subscribe-replays one_event "run_1" 7
