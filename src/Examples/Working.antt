-- ===== src/Examples/Working.antt =====
-- A diagnosis, its records, and the alerts that start it.
use go_on_call_agent.Prelude.{ℕ, ◌-◌, none, some, [], ◌∷◌, take, ◌≡◌, refl, arith}
use go_on_call_agent.Errors.{plain, ok}
use go_on_call_agent.Dict.{lookup, insert, values}
use go_on_call_agent.Incident.{Incident, opened}
use go_on_call_agent.Incident.Store.{new_memory, get_by_id}
use go_on_call_agent.Incident.Service.{Stamp}
use go_on_call_agent.Run.{
  put_result, update_tool_call, update_run, occupies, occupies_other, new_memory_run, add_step,
  add_tool_call, create_run,
}
use go_on_call_agent.Sorting.Insertion.{insertion}
use go_on_call_agent.World.{World, publish, drawn}
use go_on_call_agent.Runtime.Recorder.{
  Recorder, RecordingTool, recorded_call, new_recorder, start, invokable_run, check_tool_call,
  over_limit, tool_started, start_tool_call, complete_tool_call, with_audit, step, new_step,
  complete, completed_run, finish,
}
use go_on_call_agent.Runtime.Recorder.Limit.{run_calls, run_calls_limit}
use go_on_call_agent.Runtime.Recorder.Calls.{
  stored_calls, running_call, called, done_call, recorded_call_lem,
}
use go_on_call_agent.Runtime.Diagnose.{
  Agent, calling, finished, diagnose, after_start, diagnose_started, run_script, tool_at, conclude,
  after_complete,
}
use go_on_call_agent.Runtime.Diagnose.Ending.{Ends, diagnose-Ends}
use go_on_call_agent.Runtime.Worker.{run_diagnosis, diagnosed_once}
use go_on_call_agent.Examples.{stamp}
use go_on_call_agent.Examples.Execution.{one_run}

abbrev pub source : ℕ → Stamp
source n = stamp "7"

abbrev pub milliseconds : ℕ → ℕ → ℕ
milliseconds a b = b - a

abbrev pub echo : RecordingTool
echo = record { inner = λ id args w. ((args, none), w); name = "echo"; risk = "LOW" }

abbrev pub quiet : World
quiet = record {
  incidents = new_memory;
  approvals = [];
  runs = new_memory_run;
  published = [];
  calls = [];
  draws = 0;
}

abbrev pub recorder : Recorder
recorder = record { run = one_run; step_idx = 0; max_tool_calls = 1; tool_calls = 0 }

run_calls_limit_example :
    (run_calls source milliseconds recorder quiet ((echo, "a") ∷ (echo, "b") ∷ [])).1
    ≡ (run_calls source milliseconds recorder quiet (take 1 ((echo, "a") ∷ (echo, "b") ∷ []))).1
run_calls_limit_example =
    run_calls_limit source milliseconds recorder quiet ((echo, "a") ∷ (echo, "b") ∷ [])
      (omega arith) refl

recorded_call_lem_example :
    (stored_calls source milliseconds (called source milliseconds echo recorder quiet "a") "run_1"
      ≡ running_call source milliseconds echo recorder quiet "a" ∷ [])
    × ((recorded_call source milliseconds echo recorder quiet "a").0 ≡ ("a", none))
    × ((duration : ℕ) × (stored_calls source milliseconds
            (recorded_call source milliseconds echo recorder quiet "a").1
            "run_1"
          ≡ done_call source milliseconds
              (running_call source milliseconds echo recorder quiet "a")
              ("a", none)
              duration
            ∷ []))
unfolding lookup
recorded_call_lem_example =
    recorded_call_lem source milliseconds echo recorder quiet "a" (λ id a v. refl) tt

abbrev pub incident : Incident
incident = record {
  id = "inc_9";
  service = "api";
  severity = "HIGH";
  title = "backlog";
  description = "";
  alert_name = "";
  fingerprint = "f";
  status = opened;
  started_at = 1;
  resolved_at = none;
  created_at = 1;
  updated_at = 1;
  version = 0;
}

abbrev pub seeded : World
seeded = record quiet { incidents = record { items = ("inc_9", incident) ∷ []; events = [] } }

-- One call of the tool, and then its answer as the conclusion.
abbrev agent : Agent
agent = record {
  build = none;
  generate = λ inc. calling 0 "lag" (λ (text, e). finished text);
  no_tool = ("", some (plain "unknown tool"));
}

diagnose-Ends_example :
    Ends seeded incident (diagnose source milliseconds agent (echo ∷ []) 5 seeded incident)
diagnose-Ends_example =
    diagnose-Ends source milliseconds agent (echo ∷ []) 5 seeded incident ((λ id a v. refl), tt)

abbrev later : World
later = (diagnose source milliseconds agent (echo ∷ []) 5 seeded incident).1

answered_run :
    diagnose source milliseconds agent (echo ∷ []) 5 seeded incident
    ≡ (ok (record { run_id = "run_7"; conclusion = "lag" }), later)
unfolding diagnose new_recorder start create_run lookup insert values occupies publish drawn
    after_start diagnose_started run_script tool_at invokable_run check_tool_call over_limit
    recorded_call tool_started start_tool_call add_tool_call complete_tool_call update_tool_call
    put_result with_audit conclude step new_step add_step complete completed_run finish update_run
    occupies_other after_complete
answered_run = refl

still_stored : get_by_id later.incidents "inc_9" ≡ ok incident
unfolding get_by_id lookup diagnose new_recorder start create_run insert values occupies publish
    drawn after_start diagnose_started run_script tool_at invokable_run check_tool_call over_limit
    recorded_call tool_started start_tool_call add_tool_call complete_tool_call update_tool_call
    put_result with_audit conclude step new_step add_step complete completed_run finish update_run
    occupies_other after_complete
still_stored = refl

diagnosed_once_example :
    run_diagnosis source milliseconds insertion none later "inc_9" ≡ (none, later)
diagnosed_once_example =
    diagnosed_once source milliseconds insertion none agent (echo ∷ []) 5 seeded later incident
      incident (record { run_id = "run_7"; conclusion = "lag" }) ((λ id a v. refl), tt) answered_run
      still_stored refl
