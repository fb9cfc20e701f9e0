-- ===== src/Examples.antt =====
-- Concrete runs of the components: one incident's life, one approval, one delivery.
mod Configured
mod Working
mod Handled
mod Records
pub mod Execution
pub mod ClosedLoop
use go_on_call_agent.Prelude.{
  ℕ, zero, suc, String, Bool, true, false, Option, none, some, List, [], ◌∷◌, ◌≡◌, ◌≢◌, refl, arith,
  eq_iff, All, ◌⊎◌, inl, inr,
}
use go_on_call_agent.Prelude.Int.{ℤ, pos, leb_ℤ}
use go_on_call_agent.Errors.{Error, Result, ok, err, plain}
use go_on_call_agent.Dict.{Dict, lookup, values, insert}
use go_on_call_agent.Incident.{
  Incident, Status, opened, investigating, waiting_approval, mitigating, failed, resolved,
  cancelled, is_terminal, raw, make_fingerprint, identity_key, status_eq,
}
use go_on_call_agent.Incident.Store.{
  Memory, new_memory, get_active_by_fingerprint, list_events, add_events, blocks, check_events,
  check_update_conflicts, newest, update_locked, update_with_event, update_with_events, get_by_id,
  create_with_event, check_create_conflicts, check_event_conflict, create_locked, add_event_locked,
}
use go_on_call_agent.Incident.Event.{insert_nonempty, new_audit_event, new_incident_event}
use go_on_call_agent.Incident.StateMachine.{
  allowed_targets, can_transition, transition as next_state, transition_error,
}
use go_on_call_agent.Incident.Store.Audit.{replay, is_status_type}
use go_on_call_agent.Incident.Store.Search.{get_active_complete}
use go_on_call_agent.Incident.Service.{
  Stamp, CreateIncidentInput, Expirer, create, transition_with_audit, resolve_externally,
  new_incident, after_conflict, audit_event, created_event, moved, status_event, transition_commit,
  update_error, write_transition, create_commit,
}
use go_on_call_agent.Incident.Service.Audit.{IsValid, new_memory-IsValid}
use go_on_call_agent.Incident.Service.Create.{Answered, fingerprint_of, create-Answered}
use go_on_call_agent.Incident.Service.Effect.{HasEffect, evs, transition_with_audit-HasEffect}
use go_on_call_agent.Incident.Service.Recovery.{Outcome, resolve_externally-Outcome}
use go_on_call_agent.Incident.Service.Lifecycle.{
  Request, creation, transition, recovery, IsProper, run, run-IsValid, trail_replays,
  one_active_incident, serve,
}
use go_on_call_agent.Incident.Service.Terminal.{run-keeps_terminal}

abbrev pub stamp : String → Stamp
stamp s = record { now = 1; id = s; event_id = s; audit_id = s }

abbrev pub alert : CreateIncidentInput
alert = record {
  service = "api";
  severity = "";
  title = "backlog";
  description = "";
  alert_name = "Queue";
}

abbrev pub to_status_request : String → Status → Request
to_status_request s to = transition (stamp s) "inc_1" to "" "" "" []

abbrev pub digest : String → String
digest s = s

abbrev pub no_expirer : Expirer (Unit {0})
no_expirer = none

-- An alert, its duplicate, and the incident on its way to a person.
abbrev pub requests : List Request
requests =
    creation (stamp "1") alert
    ∷ creation (stamp "2") alert
    ∷ to_status_request "3" investigating
    ∷ to_status_request "4" waiting_approval
    ∷ []

abbrev pub after : List Request → Memory
after rs = (run digest no_expirer (new_memory, tt) rs).0

abbrev pub waiting : Incident
waiting = record {
  id = "inc_1";
  service = "api";
  severity = "MEDIUM";
  title = "backlog";
  description = "";
  alert_name = "Queue";
  fingerprint = "api\0Queue";
  status = waiting_approval;
  started_at = 1;
  resolved_at = none;
  created_at = 1;
  updated_at = 1;
  version = 2;
}

pub stored : lookup "inc_1" (after requests).items ≡ some waiting
unfolding add_event_locked add_events after_conflict allowed_targets audit_event blocks
    can_transition check_create_conflicts check_event_conflict check_events check_update_conflicts
    create create_commit create_locked create_with_event created_event get_active_by_fingerprint
    get_by_id identity_key insert insert_nonempty is_terminal lookup make_fingerprint moved
    new_audit_event new_incident new_incident_event newest run serve status_eq status_event
    next_state transition_commit transition_error transition_with_audit update_error update_locked
    update_with_event update_with_events values write_transition
stored = refl

named : waiting.fingerprint ≢ ""
named e = ground (arith, e, eq_iff "api\0Queue" "")

requests-IsProper : All IsProper requests
unfolding is_status_type
requests-IsProper = (tt, (tt, (refl, (refl, tt))))

pub valid : IsValid (after requests)
valid = run-IsValid digest no_expirer (new_memory, tt) requests requests-IsProper new_memory-IsValid

terminal : is_terminal waiting_approval ≡ false
unfolding is_terminal status_eq
terminal = refl

one_active_incident_example : ◌≡◌ {A = String} "inc_1" "inc_1"
one_active_incident_example =
    one_active_incident digest no_expirer tt requests "inc_1" "inc_1" waiting waiting
      requests-IsProper stored stored terminal terminal named refl

trail_replays_example :
    replay (raw "") (list_events (run digest no_expirer (new_memory, tt) requests).0 "inc_1")
    ≡ some waiting_approval
trail_replays_example =
    trail_replays digest no_expirer tt requests "inc_1" waiting requests-IsProper stored

get_active_complete_example : get_active_by_fingerprint (after requests) "api\0Queue" ≡ ok waiting
get_active_complete_example =
    get_active_complete (after requests) "inc_1" waiting valid.unique stored terminal named

create-Answered_example :
    Answered
      (after requests)
      (fingerprint_of digest alert)
      (create digest (after requests) (stamp "9") alert)
create-Answered_example = create-Answered digest (after requests) (stamp "9") alert valid

transition_with_audit-HasEffect_example :
    HasEffect
      (after requests)
      "inc_1"
      mitigating
      (evs (after requests) (stamp "9") "inc_1" mitigating "" "" "" [] valid.unique)
      (transition_with_audit (after requests) (stamp "9") "inc_1" mitigating "" "" "" [])
transition_with_audit-HasEffect_example =
    transition_with_audit-HasEffect (after requests) (stamp "9") "inc_1" mitigating "" "" "" []
      valid.unique

resolve_externally-Outcome_example :
    Outcome no_expirer
      (after requests)
      tt
      (stamp "9")
      "api\0Queue"
      (resolve_externally no_expirer (after requests) tt (stamp "9") "api\0Queue")
resolve_externally-Outcome_example =
    resolve_externally-Outcome no_expirer (after requests) tt (stamp "9") "api\0Queue"

-- An incident that failed, and its alert firing again.
abbrev failing : List Request
failing = creation (stamp "1") alert ∷ to_status_request "2" failed ∷ []

abbrev over : Incident
over = record waiting { status = failed; version = 1 }

stored_over : lookup "inc_1" (after failing).items ≡ some over
unfolding add_event_locked add_events after_conflict allowed_targets audit_event blocks
    can_transition check_create_conflicts check_event_conflict check_events check_update_conflicts
    create create_commit create_locked create_with_event created_event get_active_by_fingerprint
    get_by_id identity_key insert insert_nonempty is_terminal lookup make_fingerprint moved
    new_audit_event new_incident new_incident_event newest run serve status_eq status_event
    next_state transition_commit transition_error transition_with_audit update_error update_locked
    update_with_event update_with_events values write_transition
stored_over = refl

failing-IsProper : All IsProper failing
unfolding is_status_type
failing-IsProper = (tt, (refl, tt))

ended : is_terminal failed ≡ true
unfolding is_terminal status_eq
ended = refl

run-keeps_terminal_example :
    lookup "inc_1"
      (run digest no_expirer
        (run digest no_expirer (new_memory, tt) failing)
        (creation (stamp "3") alert ∷ [])).0.items
    ≡ some over
run-keeps_terminal_example =
    run-keeps_terminal digest no_expirer "inc_1" over ended
      (run digest no_expirer (new_memory, tt) failing) (creation (stamp "3") alert ∷ []) (tt, tt)
      (run-IsValid digest no_expirer (new_memory, tt) failing failing-IsProper new_memory-IsValid)
      stored_over
