-- ===== src/Runtime/Diagnose.antt =====
-- Diagnose of internal/agent/runtime/runtime.go, with its run recorded. The agent is eino's: what it
-- does is a sequence of tool calls, each made after the answers before it, and then an answer or an
-- error; the timeouts end it with an error.
pub mod Kept
pub mod Written
pub mod Ending
use go_on_call_agent.Prelude.{ℕ, zero, suc, String, Option, none, some, List, [], ◌∷◌, map}
use go_on_call_agent.Errors.{Error, wrap, join, Result, ok, err}
use go_on_call_agent.Incident.{Incident}
use go_on_call_agent.Incident.Service.{Stamp}
use go_on_call_agent.World.{World}
use go_on_call_agent.Policy.{RiskLevel, low, medium, high, critical, other}
use go_on_call_agent.Registry.{RegisteredTool}
use go_on_call_agent.Runtime.Recorder.{
  Recorder, RecordingTool, InvokableTool, Answer, new_recorder, start, step, complete, fail,
  invokable_run,
}

abbrev risk_text : RiskLevel → String
risk_text low = "LOW"
risk_text medium = "MEDIUM"
risk_text high = "HIGH"
risk_text critical = "CRITICAL"
risk_text (other s) = s

-- wrapTools, of what the registry's All gives.
unfoldable pub wrap_tools : List (RegisteredTool InvokableTool) → List RecordingTool
wrap_tools l = map (λ t. record { inner = t.tool; name = t.name; risk = risk_text t.risk_level }) l

-- What the agent does: it ends, or it calls the tool at a position with arguments.
pub data Script : Type 0 where
  finished : String → Script
  broken : Error → Script
  calling : ℕ → String → (Answer → Script) → Script

-- The agent: the error of its building, if any, what it does with an incident, and its answer to a
-- model that asks for a tool that it was not built with.
pub record Agent : Type 0 where
  pub build : Option Error
  pub generate : Incident → Script
  pub no_tool : Answer

unfoldable pub tool_at : ℕ → List RecordingTool → Option RecordingTool
tool_at n [] = none
tool_at zero (t ∷ ts) = some t
tool_at (suc n) (t ∷ ts) = tool_at n ts

pub record DiagnosisResult : Type 0 where
  pub run_id : String
  pub conclusion : String

-- errors.Join(err, rec.Fail(ctx, err)): a nil error is left out.
abbrev pub with_cause : Error → Option Error → Error
with_cause e none = e
with_cause e (some f) = join e f

module _ (source : ℕ → Stamp) (milliseconds : ℕ → ℕ → ℕ) where
  -- reActAgent.Generate
  unfoldable pub run_script :
      Answer → List RecordingTool → Script → Recorder → World → Result String × Recorder × World
  run_script no_tool tools (finished content) r w = (ok content, r, w)
  run_script no_tool tools (broken e) r w = (err e, r, w)
  run_script no_tool tools (calling n args k) r w = elim (tool_at n tools) [
    | none ↦ run_script no_tool tools (k no_tool) r w
    | some t ↦
        let (answer, r', w') = invokable_run source milliseconds t r w args in
        run_script no_tool tools (k answer) r' w'
  ]

  -- A failed run, and what Diagnose returns of it.
  unfoldable pub give_up :
      (Error → Error) → Recorder → World → Error → Result DiagnosisResult × World
  give_up wrapped r w e =
      let (f, r', w') = fail source milliseconds r w e in (err (wrapped (with_cause e f)), w')

  -- Diagnose after the run was completed, or could not be.
  unfoldable pub after_complete :
      String → Option Error × Recorder × World → Result DiagnosisResult × World
  after_complete content (some e, r, w) = give_up (λ x. x) r w e
  after_complete content (none, r, w) = (ok (record { run_id = r.run.id; conclusion = content }), w)

  -- Diagnose once the agent has answered.
  unfoldable pub conclude : Recorder → World → String → Result DiagnosisResult × World
  conclude r w content =
      let (r', w') = step source milliseconds r w "diagnosis" "finalize" "" content 0 in
      after_complete content (complete source milliseconds r' w')

  -- Diagnose once the run has started.
  unfoldable pub diagnose_started :
      Agent → List RecordingTool → Incident → Recorder → World → Result DiagnosisResult × World
  diagnose_started agent tools inc r w = elim agent.build [
    | some e ↦ give_up (λ x. wrap "build diagnosis agent: " x "") r w e
    | none ↦
        let (answer, r', w') = run_script agent.no_tool tools (agent.generate inc) r w in
        elim answer [
          | err e ↦ give_up (λ x. wrap "run diagnosis: " x "") r' w' e
          | ok content ↦ conclude r' w' content
        ]
  ]

  unfoldable pub after_start :
      Agent
      → List RecordingTool
      → Incident
      → Recorder
      → Option Error × World
      → Result DiagnosisResult × World
  after_start agent tools inc r (some e, w) = (err e, w)
  after_start agent tools inc r (none, w) = diagnose_started agent tools inc r w

  -- Diagnose
  unfoldable pub diagnose :
      Agent → List RecordingTool → ℕ → World → Incident → Result DiagnosisResult × World
  diagnose agent tools max_tool_calls w inc =
      let (r, w') = new_recorder source milliseconds w inc "diagnosis" max_tool_calls in
      after_start agent tools inc r (start source milliseconds r w')
