-- ===== src/Runtime/Worker.antt =====
-- RunDiagnosis of internal/bootstrap/agent.go: what the worker does with one message, also if it comes
-- twice.
use go_on_call_agent.Prelude.{
  ℕ, String, Bool, true, Option, none, some, List, All, any, select, any-select, ◌&&◌, ◌≡◌, sym, ap,
  ◌∙◌, arith, inl, inr, str_eq, eq_iff, Bool-cases, if◌then◌else◌,
}
use go_on_call_agent.Errors.{Error, Result, ok, err, is, conflict}
use go_on_call_agent.Dict.{lookup, values}
use go_on_call_agent.Dict.Laws.{any-values-lookup}
use go_on_call_agent.Incident.{Incident, opened, is_terminal, status_eq}
use go_on_call_agent.Incident.Store.{get_by_id}
use go_on_call_agent.Incident.Service.{Stamp, analyze}
use go_on_call_agent.Run.{MemoryRun, AgentRun, is_active}
use go_on_call_agent.Run.Listing.{list_runs_by_incident, run_before}
use go_on_call_agent.Sorting.{Sorter, any-Perm}
use go_on_call_agent.World.{World, drawn}
use go_on_call_agent.Runtime.Recorder.{RecordingTool}
use go_on_call_agent.Runtime.Diagnose.{Agent, DiagnosisResult, diagnose}
use go_on_call_agent.Runtime.Diagnose.Kept.{Keeps}
use go_on_call_agent.Runtime.Diagnose.Ending.{Ends, refused, diagnosed, gave_up, diagnose-Ends}

-- hasActiveRun: the in-memory repository's list has no error.
unfoldable pub has_active_run : Sorter → MemoryRun → String → Bool
has_active_run S m incident_id =
    any (λ run. is_active run.status) (list_runs_by_incident S m incident_id)

-- Runtime, short of its timeouts.
pub record Runtime : Type 0 where
  pub agent : Agent
  pub tools : List RecordingTool
  pub max_tool_calls : ℕ

module _ (source : ℕ → Stamp) (milliseconds : ℕ → ℕ → ℕ) (S : Sorter) where
  -- What the worker makes of Diagnose's answer: a duplicate is no failure.
  unfoldable pub acknowledge : Result DiagnosisResult × World → Option Error × World
  acknowledge (ok _, w) = (none, w)
  acknowledge (err e, w) = (if is e conflict then none else some e, w)

  -- RunDiagnosis once the incident is to be diagnosed.
  unfoldable pub run_agent : Option Runtime → Incident → World → Option Error × World
  run_agent none inc w = (none, w)
  run_agent (some rt) inc w =
      acknowledge (diagnose source milliseconds rt.agent rt.tools rt.max_tool_calls w inc)

  -- The move to INVESTIGATING.
  unfoldable pub begin : Option Runtime → Incident → World → Option Error × World
  begin rt inc w =
      if status_eq inc.status opened
      then (let (moved, m') = analyze w.incidents (source w.draws) inc.id in
          let w' = record (drawn w) { incidents = m' } in
          elim moved [ err e ↦ (some e, w') | ok inc' ↦ run_agent rt inc' w' ])
      else run_agent rt inc w

  -- RunDiagnosis
  unfoldable pub run_diagnosis : Option Runtime → World → String → Option Error × World
  run_diagnosis rt w incident_id = elim (get_by_id w.incidents incident_id) [
    | err e ↦ (some e, w)
    | ok inc ↦
        if is_terminal inc.status
        then (none, w)
        else if has_active_run S w.runs inc.id
        then (none, w)
        else begin rt inc w
  ]

-- A stored run of the incident that is RUNNING or COMPLETED is found.
pub has_active_run_lem :
    (S : Sorter) (m : MemoryRun) (k : String) (run : AgentRun)
    → lookup k m.runs ≡ some run
    → is_active run.status ≡ true
    → has_active_run S m run.incident_id ≡ true
unfolding has_active_run list_runs_by_incident
has_active_run_lem S m k run there active =
    let p = λ (r : AgentRun). is_active r.status in
    let q = λ (r : AgentRun). str_eq r.incident_id run.incident_id in
    any-Perm p (S.sort-Permᴰ run_before (select q (values m.runs)))
    ∙ any-select p q (values m.runs)
    ∙ elim (Bool-cases (any (λ r. q r && p r) (values m.runs))) [
      | inl found ↦ found
      | inr missing ↦ ground (
        arith,
        any-values-lookup (λ r. q r && p r) m.runs k run missing there,
        active,
        eq_iff run.incident_id run.incident_id,
      )
    ]

module _ (source : ℕ → Stamp) (milliseconds : ℕ → ℕ → ℕ) (S : Sorter) where
  skipped :
      (rt : Option Runtime) (w : World) (id k : String) (inc : Incident) (run : AgentRun)
      → get_by_id w.incidents id ≡ ok inc
      → lookup k w.runs.runs ≡ some run
      → run.incident_id ≡ inc.id
      → is_active run.status ≡ true
      → run_diagnosis source milliseconds S rt w id ≡ (none, w)
  unfolding run_diagnosis
  skipped rt w id k inc run stored there of active =
      let found : has_active_run S w.runs inc.id ≡ true =
        ap (has_active_run S w.runs) (sym of) ∙ has_active_run_lem S w.runs k run there active in
      ground (arith, stored, found)

  -- Once a diagnosis of an incident has answered, with tools that leave the runs alone, a further
  -- message about it is acknowledged and changes nothing, while the incident is stored.
  pub diagnosed_once :
      (rt : Option Runtime) (agent : Agent) (tools : List RecordingTool) (max_tool_calls : ℕ)
      (w w' : World) (inc inc' : Incident) (x : DiagnosisResult)
      → All Keeps tools
      → diagnose source milliseconds agent tools max_tool_calls w inc ≡ (ok x, w')
      → get_by_id w'.incidents inc.id ≡ ok inc'
      → inc'.id ≡ inc.id
      → run_diagnosis source milliseconds S rt w' inc.id ≡ (none, w')
  diagnosed_once rt agent tools max_tool_calls w w' inc inc' x keep answered stored same =
      once (diagnose-Ends source milliseconds agent tools max_tool_calls w inc keep)
    where
      once :
          Ends w inc (diagnose source milliseconds agent tools max_tool_calls w inc)
          → run_diagnosis source milliseconds S rt w' inc.id ≡ (none, w')
      once (refused e failed dup kept) = ground (arith, ap (λ p. p.0) answered, failed)
      once (diagnosed y run fine named of done ended) =
          skipped rt w' inc.id run.id inc' run stored
            (ap (λ p. lookup run.id p.1.runs.runs) (sym answered) ∙ ended.0) (of ∙ sym same)
            (ap is_active done)
      once (gave_up e run failed of status ended) = ground (arith, ap (λ p. p.0) answered, failed)
