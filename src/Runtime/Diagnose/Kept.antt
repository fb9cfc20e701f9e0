-- ===== src/Runtime/Diagnose/Kept.antt =====
-- What a diagnosis leaves alone, and why it can always write the end of its run.
use mathlib.Core.Path.{subst}
use mathlib.Core.Option.{some-injective}
use go_on_call_agent.Prelude.{
  ℕ, zero, suc, All, String, Bool, false, some, List, [], ◌∷◌, any, ◌≡◌, inl, inr, refl, ap, ◌∙◌,
  arith, eq_iff, Bool-cases, Option-cases,
}
use go_on_call_agent.Errors.{ok, Result-cases}
use go_on_call_agent.Dict.{Dict, lookup, insert, values}
use go_on_call_agent.Dict.Laws.{lookup-insert}
use go_on_call_agent.Incident.Service.{Stamp}
use go_on_call_agent.Run.{
  AgentRun, MemoryRun, occupies, occupies_other, update_run, add_tool_call, update_tool_call,
  ToolCall,
}
use go_on_call_agent.World.{World, publish, drawn}
use go_on_call_agent.Runtime.Recorder.{
  Recorder, RecordingTool, Answer, over_limit, call_status, invokable_run, recorded_call,
  tool_started, start_tool_call, complete_tool_call,
}
use go_on_call_agent.Runtime.Recorder.Calls.{called}
use go_on_call_agent.Runtime.Recorder.Limit.{counted, refused, let_through}
use go_on_call_agent.Runtime.Diagnose.{Script, finished, broken, calling, tool_at, run_script}

-- The tool does not touch the runs, their steps and their calls.
abbrev pub Keeps : RecordingTool → Type 0
Keeps t = (id args : String) (v : World) → (t.inner id args v).1.runs ≡ v.runs

any-weaker :
    (p q : AgentRun → Bool) (l : List AgentRun)
    → any p l ≡ false
    → ((x : AgentRun) → p x ≡ false → q x ≡ false)
    → any q l ≡ false
any-weaker p q [] h sub = refl
any-weaker p q (x ∷ xs) h sub = ground (arith, h, sub x, any-weaker p q xs)

any-values-insert :
    (p q : AgentRun → Bool) (d : Dict AgentRun) (k : String) (v : AgentRun)
    → any p (values d) ≡ false
    → q v ≡ false
    → ((x : AgentRun) → p x ≡ false → q x ≡ false)
    → any q (values (insert k v d)) ≡ false
unfolding values insert
any-values-insert p q [] k v h hv sub = ground (arith, hv)
any-values-insert p q ((j, w) ∷ d) k v h hv sub =
    ground (arith, h, hv, sub w, any-weaker p q (values d), any-values-insert p q d k v, sub)

module _ (source : ℕ → Stamp) (milliseconds : ℕ → ℕ → ℕ) where
  update_tool_call-runs : (m : MemoryRun) (c : ToolCall) → (update_tool_call m c).1.runs ≡ m.runs
  unfolding update_tool_call
  update_tool_call-runs m c = ground arith

  complete_tool_call-runs :
      (r : Recorder) (v : World) (id : String) (answer : Answer) (duration : ℕ)
      → (complete_tool_call source milliseconds r v id answer duration).1.runs.runs ≡ v.runs.runs
  unfolding complete_tool_call publish
  complete_tool_call-runs r v id answer duration =
      let call : ToolCall = record {
        id = id;
        run_id = r.run.id;
        tool_name = "";
        risk_level = "";
        arguments = "";
        result = answer.0;
        status = call_status source milliseconds answer.1;
        duration_ms = duration;
        created_at = 0;
      } in
      elim (Result-cases (update_tool_call v.runs call).0) [
        | inl (x, fine) ↦ ground (arith, fine, update_tool_call-runs v.runs call)
        | inr (e, refused) ↦ ground (arith, refused)
      ]

  begun-runs :
      (t : RecordingTool) (r : Recorder) (w : World) (args : String)
      → (called source milliseconds t r w args).runs.runs ≡ w.runs.runs
  unfolding tool_started start_tool_call publish drawn add_tool_call
  begun-runs t r w args = refl

  recorded_call-runs :
      (t : RecordingTool) (r : Recorder) (w : World) (args : String)
      → Keeps t
      → (recorded_call source milliseconds t r w args).1.runs.runs ≡ w.runs.runs
  unfolding recorded_call drawn
  recorded_call-runs t r w args keeps =
      complete_tool_call-runs r _ _ _ _
      ∙ ap (λ m. m.runs) (keeps _ args (called source milliseconds t r w args))
      ∙ begun-runs t r w args

  invokable_run-same :
      (t : RecordingTool) (r : Recorder) (w : World) (args : String)
      → Keeps t
      → ((invokable_run source milliseconds t r w args).2.runs.runs ≡ w.runs.runs)
        × ((invokable_run source milliseconds t r w args).1.run ≡ r.run)
  invokable_run-same t r w args keeps = elim (Bool-cases (over_limit r)) [
    | inl over ↦ rw (refused source milliseconds t r w args over) (refl, refl)
    | inr under ↦
        rw (let_through source milliseconds t r w args under)
          (recorded_call-runs t (counted source milliseconds r) w args keeps, refl)
  ]

  tool_at-Keeps :
      (n : ℕ) (tools : List RecordingTool) (t : RecordingTool)
      → All Keeps tools
      → tool_at n tools ≡ some t
      → Keeps t
  unfolding tool_at
  tool_at-Keeps n [] t h at = ground (arith, at)
  tool_at-Keeps zero (x ∷ xs) t h at = subst Keeps (some-injective x t at) h.0
  tool_at-Keeps (suc n) (x ∷ xs) t h at = tool_at-Keeps n xs t h.1 at

  pub run_script-same :
      (no_tool : Answer) (tools : List RecordingTool) (s : Script) (r : Recorder) (w : World)
      → All Keeps tools
      → ((run_script source milliseconds no_tool tools s r w).2.runs.runs ≡ w.runs.runs)
        × ((run_script source milliseconds no_tool tools s r w).1.run ≡ r.run)
  unfolding run_script
  run_script-same no_tool tools (finished content) r w keep = (refl, refl)
  run_script-same no_tool tools (broken e) r w keep = (refl, refl)
  run_script-same no_tool tools (calling n args k) r w keep =
      elim (Option-cases (tool_at n tools)) [
        | inl missing ↦
            rw (run_script, missing) (run_script-same no_tool tools (k no_tool) r w keep)
        | inr (t, here) ↦
            let (answer, r', w') = invokable_run source milliseconds t r w args in
            let (runs, run) = invokable_run-same t r w args (tool_at-Keeps n tools t keep here) in
            let rest = run_script-same no_tool tools (k answer) r' w' keep in
            rw (run_script, here) (rest.0 ∙ runs, rest.1 ∙ run)
      ]

weaker :
    (old run x : AgentRun)
    → run.incident_id ≡ old.incident_id
    → occupies old x ≡ false
    → occupies_other run x ≡ false
unfolding occupies occupies_other
weaker old run x incident h =
    ground (
      arith,
      h,
      incident,
      eq_iff x.incident_id run.incident_id,
      eq_iff x.incident_id old.incident_id,
    )

not_other : (old run : AgentRun) → run.id ≡ old.id → occupies_other run old ≡ false
unfolding occupies_other
not_other old run id = ground (arith, eq_iff old.id run.id, id)

-- The run of a diagnosis can be updated whatever its new status: when it was created, no other run of
-- its incident was active.
pub update_run-own :
    (m : MemoryRun) (base : Dict AgentRun) (old run : AgentRun)
    → m.runs ≡ insert old.id old base
    → any (occupies old) (values base) ≡ false
    → run.id ≡ old.id
    → run.incident_id ≡ old.incident_id
    → update_run m run ≡ (ok tt, record m { runs = insert run.id run m.runs })
unfolding update_run
update_run-own m base old run runs alone id incident =
    let there : lookup run.id m.runs ≡ some old =
      ap (lookup run.id) runs
      ∙ ground (arith, lookup-insert old.id run.id old base, eq_iff old.id run.id, id) in
    let clear : any (occupies_other run) (values m.runs) ≡ false =
      ap (λ d. any (occupies_other run) (values d)) runs
      ∙ any-values-insert (occupies old) (occupies_other run) base old.id old alone
          (not_other old run id) (λ x h. weaker old run x incident h) in
    ground (arith, there, clear)
