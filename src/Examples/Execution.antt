-- ===== src/Examples/Execution.antt =====
-- Concrete runs of the execution side: approvals, the remediation, runs and the message queue.
use go_on_call_agent.Prelude.{
  length, select, ℕ, String, true, none, some, List, [], ◌∷◌, ◌≡◌, ◌≢◌, refl, arith, ◌⊎◌, eq_iff,
  leb,
}
use go_on_call_agent.Prelude.Int.{pos}
use go_on_call_agent.Errors.{ok, plain}
use go_on_call_agent.Dict.{lookup, values}
use go_on_call_agent.Incident.{mitigating}
use go_on_call_agent.Incident.Service.Lifecycle.{Request, run, run-IsValid}
use go_on_call_agent.Incident.Service.Audit.{IsValid}
use go_on_call_agent.Incident.Store.Audit.{is_status_type}
use go_on_call_agent.Run.{AgentRun, new_memory_run, running, get_run}
use go_on_call_agent.Sorting.Insertion.{insertion}
use go_on_call_agent.Api.Auth.{Context}
use go_on_call_agent.Api.Approvals.{approve_one}
use go_on_call_agent.Api.Approvals.Answers.{IsRefusal, IsExecution, approve_one_lem}
use go_on_call_agent.Run.Active.{creation, change, write_runs, write_runs-IsExclusive, IsExclusive}
use go_on_call_agent.Approval.{Approval, pending, expired, executed}
use go_on_call_agent.Approval.Interleaving.{
  Action, add, claim, start, finish, perform_all, IsOnce, perform_all-IsOnce, nothing,
  nothing-IsOnce,
}
use go_on_call_agent.Approval.Service.{Wiring, expire_pending}
use go_on_call_agent.Approval.Service.Expiring.{waits_for, expire_pending-clears}
use go_on_call_agent.World.{World, Executor, no_execution, Stands}
use go_on_call_agent.Verifier.{
  Float64, RunConfig, normalized, Metrics, Environment, default_config, verify_sequence,
}
use go_on_call_agent.Verifier.Streak.{has_window, outcomes, IsUndisturbed, verify_sequence-window}
use go_on_call_agent.Deployment.{Codec, Tool, HttpExecutor, Reply, answer}
use go_on_call_agent.Deployment
use go_on_call_agent.Deployment.Targets.{IsGuarded, execute-IsGuarded}
use go_on_call_agent.Report.{Platform}
use go_on_call_agent.Remediation.{Remediation}
use go_on_call_agent.Remediation
use go_on_call_agent.Remediation.Finish.{IsIdle, IsTurnedAway, Finish}
use go_on_call_agent.Remediation.Outcomes.{execute-Finish}
use go_on_call_agent.Messaging.{Consumer, Table, retry_count, retry_count_header, int32}
use go_on_call_agent.Messaging.Delivery.{journey, retries_then_dlq, journey-ends}
use go_on_call_agent.Examples.{stamp, digest, no_expirer, requests, after, valid, to_status_request}

abbrev pub one_approval : Approval
one_approval = record {
  id = "ap_1";
  incident_id = "inc_1";
  run_id = "run_1";
  tool_call_id = "call_1";
  action = "restart_worker";
  arguments = "{}";
  reason = "";
  status = pending;
  approved_by = "";
  result = "";
  error = "";
  operation_id = "";
  created_at = 1;
  updated_at = 1;
  approved_at = none;
}

abbrev pub one_run : AgentRun
one_run = record {
  id = "run_1";
  incident_id = "inc_1";
  agent_type = "diagnosis";
  status = running;
  goal = "";
  current_step = 0;
  started_at = 1;
  finished_at = none;
  error = "";
}

abbrev pub world : World
world = record {
  incidents = after requests;
  approvals = ("ap_1", one_approval) ∷ [];
  runs = record new_memory_run { runs = ("run_1", one_run) ∷ [] };
  published = [];
  calls = [];
  draws = 0;
}

abbrev runner : Executor
runner approval_id action arguments run_id w = (ok no_execution, w)

abbrev wiring : Wiring
wiring = record { incident_svc = true; run_repo = true; executor = some runner }

pub keyed : (a : Approval) → lookup "ap_1" world.approvals ≡ some a → a.id ≡ "ap_1"
unfolding lookup
keyed a h = cc

named : ◌≢◌ {A = String} "inc_1" ""
named e = ground (arith, e, eq_iff "inc_1" "")

expire_pending-clears_example :
    let out = expire_pending (λ n. stamp "9") wiring world "inc_1" in
    (out.0 ≡ ok (length (select (waits_for "inc_1") (values world.approvals))))
    × ((k : String)
        → (lookup k world.approvals ≡ none → lookup k out.1.approvals ≡ none)
          × ((a : Approval)
              → lookup k world.approvals ≡ some a
              → ((a.incident_id ≡ "inc_1")
                  → a.status ≡ pending
                  → lookup k out.1.approvals
                    ≡ some (record a {
                      status = expired;
                      error = "incident resolved externally";
                      updated_at = 1;
                    }))
                × (((a.incident_id ≢ "inc_1") ⊎ (a.status ≢ pending))
                    → lookup k out.1.approvals ≡ some a)))
expire_pending-clears_example = expire_pending-clears (λ n. stamp "9") wiring world "inc_1" named

-- Two people claim one approval, and two workers start it.
abbrev race : List Action
race =
    add one_approval
    ∷ claim 2 "ap_1" "alice"
    ∷ claim 3 "ap_1" "bob"
    ∷ start 4 "ap_1"
    ∷ start 5 "ap_1"
    ∷ finish 6 "ap_1" executed (λ a. a)
    ∷ []

perform_all-IsOnce_example : IsOnce (perform_all nothing race)
perform_all-IsOnce_example =
    perform_all-IsOnce nothing race (tt, (tt, (tt, (tt, (tt, ((refl, λ a. refl), tt))))))
      nothing-IsOnce

no_runs : IsExclusive []
unfolding lookup
no_runs = record { keyed = λ k a h. cc; one_active = λ j k a b h g x y e. cc }

write_runs-IsExclusive_example :
    IsExclusive (write_runs new_memory_run (creation one_run ∷ change one_run ∷ [])).runs
write_runs-IsExclusive_example =
    write_runs-IsExclusive new_memory_run (creation one_run ∷ change one_run ∷ []) no_runs

abbrev caller : Context
caller = record { role = none; actor = "ops" }

approve_one_lem_example :
    let out = approve_one (λ n. stamp "9") wiring insertion world "ap_1" caller in
    IsRefusal (λ n. stamp "9") wiring insertion world "ap_1" out
    ⊎ IsExecution (λ n. stamp "9") wiring insertion runner world "ap_1" out
approve_one_lem_example =
    approve_one_lem (λ n. stamp "9") wiring insertion runner world "ap_1" caller (λ i a g l v. refl)
      refl valid keyed

-- A float is a natural number here, and every metric is in order.
abbrev pub floats : Float64
floats = record {
  Carrier = ℕ;
  le = leb;
  nought = 0;
  one_percent = 1;
  decimal = λ n. "0";
  fixed = λ x. "0";
}

abbrev metrics : Metrics floats
metrics = record { consumer_count = pos 3; queue_depth = pos 10; error_rate = 0 }

abbrev pub calm_world : Environment floats
calm_world = record { head = λ i. none; gather = λ i. ok metrics; wait = λ i. none }

abbrev three_rounds : RunConfig
three_rounds = record { attempts = 3; interval = 1; required_successes = 2 }

calm : IsUndisturbed floats (default_config floats) (normalized three_rounds) calm_world
calm = record { head = λ i. refl; wait = λ i. refl }

verify_sequence-window_example :
    let r = verify_sequence floats (default_config floats) three_rounds (some calm_world) in
    (r.1 ≡ none)
    × (r.0.passed
        ≡ has_window (normalized three_rounds).required_successes (
            outcomes floats
              (default_config floats)
              (normalized three_rounds)
              calm_world
              1
              (normalized three_rounds).attempts))
verify_sequence-window_example =
    verify_sequence-window floats (default_config floats) three_rounds calm_world calm

-- A codec that reads one target from every text, and an endpoint that accepts every request.
abbrev pub codec : Codec
codec = record {
  decode_input = λ s. ok (record { target = "worker-1"; reason = "" });
  encode_input = λ i. "{}";
  encode_result = λ r. "{}";
  operation_id = λ body. "op_1";
  encode_operation = λ op. "{}";
  quoted = λ s. s;
  decimal = λ n. "500";
}

abbrev tool : Tool
tool = record {
  allowed_targets = some ("worker-1" ∷ []);
  http = some (record { send = λ key action arguments. answer 200 "{}" });
}

execute-IsGuarded_example :
    let keys = (Deployment.execute codec tool "ap_1" "restart_worker" "{}").1 in
    (keys ≡ []) ⊎ IsGuarded codec tool "ap_1" "restart_worker" "{}" keys
execute-IsGuarded_example = execute-IsGuarded codec tool "ap_1" "restart_worker" "{}"

abbrev pub platform : Platform
platform = record { marshal = λ r. "{}"; quoted = λ s. s; sort_steps = λ l. l }

abbrev pub loop : Remediation floats
loop = record {
  restart = tool;
  thresholds = default_config floats;
  gatherer = some (λ id. calm_world);
  incident_svc = true;
  run_repo = true;
  generator = true;
  broker = true;
  verify_cfg = three_rounds;
}

abbrev approved_requests : List Request
approved_requests = to_status_request "5" mitigating ∷ []

abbrev mitigating_world : World
mitigating_world = record world {
  incidents = (run digest no_expirer (after requests, tt) approved_requests).0;
}

mitigating_valid : IsValid mitigating_world.incidents
unfolding is_status_type
mitigating_valid =
    run-IsValid digest no_expirer (after requests, tt) approved_requests (refl, tt) valid

execute-Finish_example :
    let out =
      Remediation.execute floats
        (λ n. stamp "9")
        codec
        platform
        loop
        "ap_1"
        "restart_worker"
        "{}"
        "run_1"
        mitigating_world in
    IsIdle floats (λ n. stamp "9") codec platform loop mitigating_world "run_1" out
    ⊎ ((r : AgentRun) × (get_run mitigating_world.runs "run_1" ≡ ok r)
        × (IsTurnedAway floats
              (λ n. stamp "9")
              codec
              platform
              loop
              mitigating_world
              r.incident_id
              out
            ⊎ (Stands mitigating_world r.incident_id mitigating
                × Finish floats
                    (λ n. stamp "9")
                    codec
                    platform
                    loop
                    mitigating_world
                    r.incident_id
                    "ap_1"
                    "restart_worker"
                    "{}"
                    out)))
execute-Finish_example =
    execute-Finish floats (λ n. stamp "9") codec platform loop mitigating_world "run_1" "ap_1"
      "restart_worker" "{}" mitigating_valid

-- A consumer whose handler always fails.
abbrev broken_consumer : Consumer String (Unit {0})
broken_consumer = record {
  decode = λ body. some body;
  handler = λ e s. (some (plain "down"), s);
  terminal = none;
}

abbrev retried_once : Table
retried_once = (retry_count_header, int32 (pos 1)) ∷ []

journey-ends_example : journey 9 retried_once ≡ retries_then_dlq 2
unfolding retry_count lookup
journey-ends_example = journey-ends 2 1 9 retried_once refl (omega arith) (omega arith)
