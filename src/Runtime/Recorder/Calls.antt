-- ===== src/Runtime/Recorder/Calls.antt =====
-- The audit of one tool call.
use go_on_call_agent.Prelude.{
  ℕ, String, Option, none, some, List, [], ◌∷◌, snoc, All, ◌≡◌, ◌≢◌, refl, ap, ◌∙◌, arith,
  str_eq_self, str_eq-of_ne, eq_iff, ◌<>◌,
}
use go_on_call_agent.Errors.{Error}
use go_on_call_agent.Dict.{lookup, get_list}
use go_on_call_agent.Dict.Laws.{lookup-insert}
use go_on_call_agent.Incident.Service.{Stamp}
use go_on_call_agent.Run.{ToolCall, put_result, add_tool_call, update_tool_call}
use go_on_call_agent.World.{World, publish, drawn}
use go_on_call_agent.Runtime.Recorder.{
  Recorder, RecordingTool, Answer, call_status, with_audit, tool_started, start_tool_call,
  complete_tool_call, recorded_call,
}

module _ (source : ℕ → Stamp) (milliseconds : ℕ → ℕ → ℕ) where
  abbrev pub call_id : World → String
  call_id w = "call_" <> (source w.draws).id

  -- The calls of a run, as they are stored.
  abbrev pub stored_calls : World → String → List ToolCall
  stored_calls w run_id = get_list (lookup run_id w.runs.calls)

  -- The record that stands while the tool runs.
  abbrev pub running_call : RecordingTool → Recorder → World → String → ToolCall
  running_call t r w args = record {
    id = call_id w;
    run_id = r.run.id;
    tool_name = t.name;
    risk_level = t.risk;
    arguments = args;
    result = "";
    status = "RUNNING";
    duration_ms = 0;
    created_at = (source (drawn w).draws).now;
  }

  -- The world in which the tool is called, and the one that it leaves.
  abbrev pub begun : RecordingTool → Recorder → World → String → World
  begun t r w args =
      tool_started source milliseconds r
        (start_tool_call source milliseconds r (drawn w) (call_id w) t.name t.risk args)

  abbrev pub called : RecordingTool → Recorder → World → String → World
  called t r w args = drawn (begun t r w args)

  abbrev pub answered : RecordingTool → Recorder → World → String → Answer × World
  answered t r w args = t.inner (call_id w) args (called t r w args)

  abbrev pub done_call : ToolCall → Answer → ℕ → ToolCall
  done_call c (text, e) duration = record c {
    result = text;
    status = call_status source milliseconds e;
    duration_ms = duration;
  }

  put_result-snoc :
      (l : List ToolCall) (c new : ToolCall)
      → All (λ d. d.id ≢ new.id) l
      → c.id ≡ new.id
      → put_result new (snoc l c)
        ≡ some (
            snoc l (record c {
              result = new.result;
              status = new.status;
              duration_ms = new.duration_ms;
            }))
  unfolding put_result
  put_result-snoc [] c new h same = ground (arith, (eq_iff c.id new.id).1 same)
  put_result-snoc (d ∷ l) c new h same =
      rw (put_result, str_eq-of_ne d.id new.id h.0, put_result-snoc l c new h.1 same) refl

  begun-calls :
      (t : RecordingTool) (r : Recorder) (w : World) (args : String)
      → stored_calls (called t r w args) r.run.id
        ≡ snoc (stored_calls w r.run.id) (running_call t r w args)
  unfolding tool_started start_tool_call publish drawn add_tool_call
  begun-calls t r w args = ground (
    arith,
    lookup-insert r.run.id r.run.id (snoc (stored_calls w r.run.id) (running_call t r w args))
        w.runs.calls,
    str_eq_self r.run.id,
  )

  written :
      (r : Recorder) (v : World) (id text : String) (e : Option Error) (duration : ℕ)
      (l : List ToolCall) (c : ToolCall)
      → stored_calls v r.run.id ≡ snoc l c
      → All (λ d. d.id ≢ id) l
      → c.id ≡ id
      → ((complete_tool_call source milliseconds r v id (text, e) duration).0 ≡ none)
        × (stored_calls
              (complete_tool_call source milliseconds r v id (text, e) duration).1
              r.run.id
            ≡ snoc l (done_call c (text, e) duration))
  unfolding complete_tool_call update_tool_call publish
  written r v id text e duration l c there fresh same =
      let new : ToolCall = record {
        id = id;
        run_id = r.run.id;
        tool_name = "";
        risk_level = "";
        arguments = "";
        result = text;
        status = call_status source milliseconds e;
        duration_ms = duration;
        created_at = 0;
      } in
      let put = ap (put_result new) there ∙ put_result-snoc l c new fresh same in
      (
        ground (arith, put),
        ground (
          arith,
          put,
          lookup-insert r.run.id r.run.id (snoc l (done_call c (text, e) duration)) v.runs.calls,
          str_eq_self r.run.id,
        ),
      )

  -- A tool that leaves the runs alone is called in a world that already holds its call as RUNNING, as
  -- the last of the run's calls, under an id that none of them had. Its answer comes back as it is, and
  -- the same record then holds the answer's text and COMPLETED, or FAILED if it came with an error.
  pub recorded_call_lem :
      (t : RecordingTool) (r : Recorder) (w : World) (args : String)
      → ((id a : String) (v : World) → (t.inner id a v).1.runs ≡ v.runs)
      → All (λ d. d.id ≢ call_id w) (stored_calls w r.run.id)
      → (stored_calls (called t r w args) r.run.id
          ≡ snoc (stored_calls w r.run.id) (running_call t r w args))
        × ((recorded_call source milliseconds t r w args).0 ≡ (answered t r w args).0)
        × ((duration : ℕ) × (stored_calls (recorded_call source milliseconds t r w args).1 r.run.id
              ≡ snoc
                  (stored_calls w r.run.id)
                  (done_call (running_call t r w args) (answered t r w args).0 duration)))
  unfolding recorded_call with_audit drawn
  recorded_call_lem t r w args keeps fresh =
      let before = stored_calls w r.run.id in
      let after = (answered t r w args).1 in
      let answer = (answered t r w args).0 in
      let there =
        ap (λ m. get_list (lookup r.run.id m.calls)) (keeps (call_id w) args (called t r w args))
        ∙ begun-calls t r w args in
      let duration = milliseconds (source (begun t r w args).draws).now (source after.draws).now in
      let (fine, stored) =
        written r (drawn after) (call_id w) answer.0 answer.1 duration before
          (running_call t r w args) there fresh refl in
      (begun-calls t r w args, ap (with_audit source milliseconds answer) fine, (duration, stored))
