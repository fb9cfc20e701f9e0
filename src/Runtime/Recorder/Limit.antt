-- ===== src/Runtime/Recorder/Limit.antt =====
-- The limit of tool calls in one run.
use go_on_call_agent.Prelude.{
  ℕ, zero, suc, ◌+◌, ◌≤◌, ◌<◌, String, true, false, some, List, [], ◌∷◌, take, take-nil, ◌≡◌, refl,
  sym, ap, arith,
}
use go_on_call_agent.Incident.Service.{Stamp}
use go_on_call_agent.World.{World}
use go_on_call_agent.Runtime.Recorder.{
  Recorder, RecordingTool, err_max_tool_calls, over_limit, check_tool_call, recorded_call,
  invokable_run,
}

module _ (source : ℕ → Stamp) (milliseconds : ℕ → ℕ → ℕ) where
  -- Calls of tools, one after another.
  unfoldable pub run_calls : Recorder → World → List (RecordingTool × String) → Recorder × World
  run_calls r w [] = (r, w)
  run_calls r w ((t, args) ∷ calls) =
      let (answer, r', w') = invokable_run source milliseconds t r w args in run_calls r' w' calls

  over :
      (r : Recorder) → 1 ≤ r.max_tool_calls → r.max_tool_calls ≤ r.tool_calls → over_limit r ≡ true
  unfolding over_limit
  over r h full = ground (arith, h, full)

  under : (r : Recorder) → r.tool_calls < r.max_tool_calls → over_limit r ≡ false
  unfolding over_limit
  under r h = ground (arith, h)

  -- The recorder after a call.
  abbrev pub counted : Recorder → Recorder
  counted r = record r { tool_calls = suc r.tool_calls }

  pub refused :
      (t : RecordingTool) (r : Recorder) (w : World) (args : String)
      → over_limit r ≡ true
      → invokable_run source milliseconds t r w args ≡ (("", some err_max_tool_calls), counted r, w)
  unfolding invokable_run check_tool_call
  refused t r w args h = ground (arith, h)

  pub let_through :
      (t : RecordingTool) (r : Recorder) (w : World) (args : String)
      → over_limit r ≡ false
      → invokable_run source milliseconds t r w args ≡ (
        (recorded_call source milliseconds t (counted r) w args).0,
        counted r,
        (recorded_call source milliseconds t (counted r) w args).1,
      )
  unfolding invokable_run check_tool_call
  let_through t r w args h = ground (arith, h)

  run_calls-refused :
      (r : Recorder) (w : World) (calls : List (RecordingTool × String))
      → 1 ≤ r.max_tool_calls
      → r.max_tool_calls ≤ r.tool_calls
      → (run_calls r w calls).1 ≡ w
  unfolding run_calls
  run_calls-refused r w [] h full = refl
  run_calls-refused r w ((t, args) ∷ calls) h full =
      rw (run_calls, refused t r w args (over r h full))
        (run_calls-refused (counted r) w calls h (omega (arith, full)))

  run_calls-left :
      (n : ℕ) (r : Recorder) (w : World) (calls : List (RecordingTool × String))
      → 1 ≤ r.max_tool_calls
      → r.tool_calls + n ≡ r.max_tool_calls
      → (run_calls r w calls).1 ≡ (run_calls r w (take n calls)).1
  unfolding run_calls
  run_calls-left n r w [] h left = ap (λ l. (run_calls r w l).1) (sym (take-nil n))
  run_calls-left zero r w (c ∷ calls) h left =
      run_calls-refused r w (c ∷ calls) h (omega (arith, left))
  run_calls-left (suc n) r w ((t, args) ∷ calls) h left =
      rw (run_calls, let_through t r w args (under r (omega (arith, left))))
        (run_calls-left n (counted r) (recorded_call source milliseconds t (counted r) w args).1
          calls h (omega (arith, left)))

  -- In a run with a maximum, any sequence of tool calls does to the world what its first calls up to
  -- the maximum do: every later call is refused before it is recorded and before the tool is reached.
  pub run_calls_limit :
      (r : Recorder) (w : World) (calls : List (RecordingTool × String))
      → 1 ≤ r.max_tool_calls
      → r.tool_calls ≡ 0
      → (run_calls r w calls).1 ≡ (run_calls r w (take r.max_tool_calls calls)).1
  run_calls_limit r w calls h fresh =
      run_calls-left r.max_tool_calls r w calls h (omega (arith, fresh))
