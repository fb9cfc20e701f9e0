-- ===== src/Runtime/Recorder.antt =====
-- internal/agent/runtime/recorder.go: a run with its steps and tool calls, over the in-memory
-- repository. Metrics and the payloads of events are left out; a broker is wired.
pub mod Limit
pub mod Calls
use go_on_call_agent.Prelude.{
  ℕ, suc, String, Bool, true, false, Option, none, some, ◌&&◌, ltb, ◌<>◌, if◌then◌else◌,
}
use go_on_call_agent.Errors.{Error, plain, wrap, join, Result, ok, err}
use go_on_call_agent.Incident.{Incident}
use go_on_call_agent.Incident.Service.{Stamp}
use go_on_call_agent.Run.{
  AgentRun, AgentStep, ToolCall, MemoryRun, running, completed, failed, create_run, update_run,
  add_step, add_tool_call, update_tool_call,
}
use go_on_call_agent.World.{World, publish, drawn}

-- A maximum of 0 is none.
pub record Recorder : Type 0 where
  pub run : AgentRun
  pub step_idx : ℕ
  pub max_tool_calls : ℕ
  pub tool_calls : ℕ

-- ErrMaxToolCalls
abbrev pub err_max_tool_calls : Error
err_max_tool_calls = plain "tool call count exceeds max"

-- The error of checkToolCall.
unfoldable pub over_limit : Recorder → Bool
over_limit r = ltb 0 r.max_tool_calls && ltb r.max_tool_calls (suc r.tool_calls)

-- checkToolCall: it counts also the call that it refuses.
unfoldable pub check_tool_call : Recorder → Option Error × Recorder
check_tool_call r = (
  if over_limit r then some err_max_tool_calls else none,
  record r { tool_calls = suc r.tool_calls },
)

-- What InvokableRun returns: a text and an error, `none` for nil.
abbrev pub Answer : Type 0
Answer = String × Option Error

-- An inner tool: the call id that the context carries, the arguments. It may change the world.
abbrev pub InvokableTool : Type 0
InvokableTool = String → String → World → Answer × World

-- recordingTool, short of its recorder, which all tools of a run share.
pub record RecordingTool : Type 0 where
  pub inner : InvokableTool
  pub name : String
  pub risk : String

module _ (source : ℕ → Stamp) (milliseconds : ℕ → ℕ → ℕ) where
  abbrev now : World → ℕ
  now w = (source w.draws).now

  -- NewRecorder
  unfoldable pub new_recorder : World → Incident → String → ℕ → Recorder × World
  new_recorder w inc agent_type max_tool_calls = (
    record {
      run = record {
        id = "run_" <> (source w.draws).id;
        incident_id = inc.id;
        agent_type = agent_type;
        status = running;
        goal = inc.title;
        current_step = 0;
        started_at = (source w.draws).now;
        finished_at = none;
        error = "";
      };
      step_idx = 0;
      max_tool_calls = max_tool_calls;
      tool_calls = 0;
    },
    drawn w,
  )

  -- Start
  unfoldable pub start : Recorder → World → Option Error × World
  start r w =
      let (created, runs') = create_run w.runs r.run in
      elim created [
        | err e ↦ (some e, w)
        | ok _ ↦ (none, publish r.run.id "run.started" (record w { runs = runs' }))
      ]

  unfoldable pub new_step : Recorder → World → String → String → String → String → ℕ → AgentStep
  new_step r w agent action input output duration_ms = record {
    id = "step_" <> (source w.draws).id;
    run_id = r.run.id;
    step_index = suc r.step_idx;
    agent = agent;
    action = action;
    status = "COMPLETED";
    input = input;
    output = output;
    duration = duration_ms;
  }

  -- Step. AddStep of the in-memory repository has no error.
  unfoldable pub step : Recorder → World → String → String → String → String → ℕ → Recorder × World
  step r w agent action input output duration_ms = (
    record r { step_idx = suc r.step_idx },
    publish r.run.id "agent.thinking" (record (drawn w) {
      runs = add_step w.runs (new_step r w agent action input output duration_ms);
    }),
  )

  -- ToolStarted
  unfoldable pub tool_started : Recorder → World → World
  tool_started r w = publish r.run.id "tool.started" w

  -- StartToolCall. AddToolCall of the in-memory repository has no error.
  unfoldable pub start_tool_call : Recorder → World → String → String → String → String → World
  start_tool_call r w call_id name risk args = record (drawn w) {
    runs = add_tool_call w.runs (record {
      id = call_id;
      run_id = r.run.id;
      tool_name = name;
      risk_level = risk;
      arguments = args;
      result = "";
      status = "RUNNING";
      duration_ms = 0;
      created_at = now w;
    });
  }

  -- The status of a call that has returned.
  abbrev pub call_status : Option Error → String
  call_status none = "COMPLETED"
  call_status (some e) = "FAILED"

  -- CompleteToolCall
  unfoldable pub complete_tool_call : Recorder → World → String → Answer → ℕ → Option Error × World
  complete_tool_call r w call_id (text, call_err) duration_ms =
      let (updated, runs') = update_tool_call w.runs (record {
        id = call_id;
        run_id = r.run.id;
        tool_name = "";
        risk_level = "";
        arguments = "";
        result = text;
        status = call_status call_err;
        duration_ms = duration_ms;
        created_at = 0;
      }) in
      elim updated [
        | err e ↦ (some (wrap ("persist tool call " <> call_id <> " result: ") e ""), w)
        | ok _ ↦ (none, publish r.run.id "tool.completed" (record w { runs = runs' }))
      ]

  -- The end of a run: Complete and Fail, by the run that they write.
  unfoldable pub finish : String → Recorder → World → Option Error × World
  finish before r w =
      let (updated, runs') = update_run w.runs r.run in
      elim updated [
        | err e ↦ (some (wrap before e ""), w)
        | ok _ ↦ (none, publish r.run.id "done" (record w { runs = runs' }))
      ]

  unfoldable pub completed_run : Recorder → World → Recorder
  completed_run r w = record r {
    run = record r.run { status = completed; finished_at = some (now w) };
  }

  -- Complete
  unfoldable pub complete : Recorder → World → Option Error × Recorder × World
  complete r w =
      let r' = completed_run r w in
      let (e, w') = finish "persist completed run: " r' (drawn w) in (e, r', w')

  unfoldable pub failed_run : Recorder → World → Error → Recorder
  failed_run r w cause = record r {
    run = record r.run { status = failed; finished_at = some (now w); error = cause.text };
  }

  -- Fail
  unfoldable pub fail : Recorder → World → Error → Option Error × Recorder × World
  fail r w cause =
      let r' = failed_run r w cause in
      let (e, w') = finish "persist failed run: " r' (drawn w) in (e, r', w')

  -- The answer of a call, with the error of its record joined to its own.
  unfoldable pub with_audit : Answer → Option Error → Answer
  with_audit answer none = answer
  with_audit (text, none) (some e) = (text, some e)
  with_audit (text, some cause) (some e) = (text, some (join cause e))

  -- recordingTool.InvokableRun after the count.
  unfoldable pub recorded_call : RecordingTool → Recorder → World → String → Answer × World
  recorded_call t r w args =
      let call_id = "call_" <> (source w.draws).id in
      let begun = tool_started r (start_tool_call r (drawn w) call_id t.name t.risk args) in
      let (answer, w') = t.inner call_id args (drawn begun) in
      let (audit, w'') =
        complete_tool_call r (drawn w') call_id answer (milliseconds (now begun) (now w')) in
      (with_audit answer audit, w'')

  -- recordingTool.InvokableRun. The timeout of the call's context is the inner tool's matter.
  unfoldable pub invokable_run :
      RecordingTool → Recorder → World → String → Answer × Recorder × World
  invokable_run t r w args =
      let (refused, r') = check_tool_call r in
      elim refused [
        | some e ↦ (("", some e), r', w)
        | none ↦ let (answer, w') = recorded_call t r' w args in (answer, r', w')
      ]
