-- ===== src/Runtime/Diagnose/Ending.antt =====
-- How a diagnosis ends: no run is left RUNNING.
use mathlib.Core.Path.{subst}
use go_on_call_agent.Prelude.{
  ℕ, String, true, false, none, some, List, All, any, ◌≡◌, ◌⊎◌, inl, inr, refl, sym, ap, ◌∙◌, arith,
  Bool-cases, Option-cases,
}
use go_on_call_agent.Errors.{Error, Result, ok, err, is, sentinel, conflict, Result-cases}
use go_on_call_agent.Dict.{lookup, insert, values}
use go_on_call_agent.Incident.{Incident}
use go_on_call_agent.Incident.Service.{Stamp}
use go_on_call_agent.Run.{AgentRun, completed, failed, occupies, create_run, add_step}
use go_on_call_agent.World.{World, publish, drawn}
use go_on_call_agent.Runtime.Recorder.{
  Recorder, RecordingTool, new_recorder, start, step, complete, fail, finish, completed_run,
  failed_run,
}
use go_on_call_agent.Runtime.Diagnose.{
  Agent, run_script, give_up, conclude, after_complete, after_start, diagnose_started, diagnose,
  DiagnosisResult, with_cause,
}
use go_on_call_agent.Runtime.Diagnose.Kept.{Keeps, run_script-same}
use go_on_call_agent.Runtime.Diagnose.Written.{IsUnderWay, HasEnded, finish_lem}

-- How Diagnose ends.
pub data Ends (before : World) (inc : Incident) (after : Result DiagnosisResult × World)
    : Type 0 where
  -- no run was started, since one of the incident is active
  refused :
      (e : Error)
      → after.0 ≡ err e
      → is e conflict ≡ true
      → after.1.runs.runs ≡ before.runs.runs
      → Ends before inc after
  -- the run is COMPLETED, and the answer names it
  diagnosed :
      (x : DiagnosisResult) (run : AgentRun)
      → after.0 ≡ ok x
      → run.id ≡ x.run_id
      → run.incident_id ≡ inc.id
      → run.status ≡ completed
      → HasEnded before.runs.runs after.1 run
      → Ends before inc after
  -- the run is FAILED
  gave_up :
      (e : Error) (run : AgentRun)
      → after.0 ≡ err e
      → run.incident_id ≡ inc.id
      → run.status ≡ failed
      → HasEnded before.runs.runs after.1 run
      → Ends before inc after

module _ (source : ℕ → Stamp) (milliseconds : ℕ → ℕ → ℕ) where
  give_up-Ends :
      (wrapped : Error → Error) (old : AgentRun) (r : Recorder) (w before : World) (inc : Incident)
      (e : Error)
      → old.incident_id ≡ inc.id
      → IsUnderWay before.runs.runs old r.run w
      → Ends before inc (give_up source milliseconds wrapped r w e)
  unfolding give_up fail failed_run drawn
  give_up-Ends wrapped old r w before inc e incident h =
      let r' = failed_run source milliseconds r w e in
      let (fine, ended) =
        finish_lem source milliseconds "persist failed run: " before.runs.runs old r' (drawn w)
          (record {
            alone = h.alone;
            stored = h.stored;
            same_id = h.same_id;
            same_incident = h.same_incident;
          }) in
      gave_up (wrapped e) r'.run (ap (λ f. err (wrapped (with_cause e f))) fine)
        (h.same_incident ∙ incident) refl ended

  complete_eq :
      (r : Recorder) (w : World)
      → (finish source milliseconds "persist completed run: "
          (completed_run source milliseconds r w)
          (drawn w)).0
        ≡ none
      → complete source milliseconds r w ≡ (
        none,
        completed_run source milliseconds r w,
        (finish source milliseconds "persist completed run: "
            (completed_run source milliseconds r w)
            (drawn w)).1,
      )
  unfolding complete
  complete_eq r w fine = ground (arith, fine)

  conclude-Ends :
      (old : AgentRun) (r : Recorder) (w before : World) (inc : Incident) (content : String)
      → old.incident_id ≡ inc.id
      → IsUnderWay before.runs.runs old r.run w
      → Ends before inc (conclude source milliseconds r w content)
  unfolding conclude after_complete completed_run step publish add_step drawn
  conclude-Ends old r w before inc content incident h =
      let (r', w') = step source milliseconds r w "diagnosis" "finalize" "" content 0 in
      let r'' = completed_run source milliseconds r' w' in
      let (fine, ended) =
        finish_lem source milliseconds "persist completed run: " before.runs.runs old r'' (drawn w')
          (record {
            alone = h.alone;
            stored = h.stored;
            same_id = h.same_id;
            same_incident = h.same_incident;
          }) in
      let end = ap (after_complete source milliseconds content) (complete_eq r' w' fine) in
      diagnosed (record { run_id = r.run.id; conclusion = content }) r''.run (ap (λ p. p.0) end)
        refl (h.same_incident ∙ incident) refl
        (subst (λ v. HasEnded before.runs.runs v r''.run) (sym (ap (λ p. p.1) end)) ended)

  started-Ends :
      (agent : Agent) (tools : List RecordingTool) (old : AgentRun) (r : Recorder)
      (w before : World) (inc : Incident)
      → All Keeps tools
      → old.incident_id ≡ inc.id
      → r.run ≡ old
      → w.runs.runs ≡ insert old.id old before.runs.runs
      → any (occupies old) (values before.runs.runs) ≡ false
      → Ends before inc (diagnose_started source milliseconds agent tools inc r w)
  unfolding diagnose_started
  started-Ends agent tools old r w before inc keep incident run stored alone =
      elim (Option-cases agent.build) [
        | inr (e, unbuilt) ↦
            rw (diagnose_started, unbuilt)
              (give_up-Ends _ old r w before inc e incident (record {
                alone = alone;
                stored = stored;
                same_id = ap (λ x. x.id) run;
                same_incident = ap (λ x. x.incident_id) run;
              }))
        | inl built ↦
            let script =
              run_script source milliseconds agent.no_tool tools (agent.generate inc) r w in
            let (runs, same) =
              run_script-same source milliseconds agent.no_tool tools (agent.generate inc) r w
                keep in
            let h : IsUnderWay before.runs.runs old script.1.run script.2 = record {
              alone = alone;
              stored = runs ∙ stored;
              same_id = ap (λ x. x.id) (same ∙ run);
              same_incident = ap (λ x. x.incident_id) (same ∙ run);
            } in
            elim (Result-cases script.0) [
              | inl (content, answered) ↦
                  rw (diagnose_started, built, answered)
                    (conclude-Ends old script.1 script.2 before inc content incident h)
              | inr (e, unanswered) ↦
                  rw (diagnose_started, built, unanswered)
                    (give_up-Ends _ old script.1 script.2 before inc e incident h)
            ]
      ]

  start_eq :
      (r : Recorder) (w : World)
      → lookup r.run.id w.runs.runs ≡ none
      → any (occupies r.run) (values w.runs.runs) ≡ false
      → start source milliseconds r w ≡ (
        none,
        publish r.run.id "run.started"
            (record w { runs = record w.runs { runs = insert r.run.id r.run w.runs.runs } }),
      )
  unfolding start create_run
  start_eq r w fresh alone = ground (arith, fresh, alone)

  start_refused :
      (r : Recorder) (w : World)
      → ((x : AgentRun) × (lookup r.run.id w.runs.runs ≡ some x))
        ⊎ ((lookup r.run.id w.runs.runs ≡ none)
            × (any (occupies r.run) (values w.runs.runs) ≡ true))
      → start source milliseconds r w ≡ (some (sentinel conflict), w)
  unfolding start create_run
  start_refused r w (inl (x, taken)) = ground (arith, taken)
  start_refused r w (inr (fresh, busy)) = ground (arith, fresh, busy)

  refused-Ends :
      (agent : Agent) (tools : List RecordingTool) (max_tool_calls : ℕ) (w : World) (inc : Incident)
      → (let new = new_recorder source milliseconds w inc "diagnosis" max_tool_calls in
          start source milliseconds new.0 new.1 ≡ (some (sentinel conflict), new.1))
      → Ends w inc (diagnose source milliseconds agent tools max_tool_calls w inc)
  unfolding diagnose new_recorder after_start drawn
  refused-Ends agent tools max_tool_calls w inc stopped =
      let new = new_recorder source milliseconds w inc "diagnosis" max_tool_calls in
      let end = ap (after_start source milliseconds agent tools inc new.0) stopped in
      refused (sentinel conflict) (ap (λ p. p.0) end) refl (ap (λ p. p.1.runs.runs) end)

  -- With tools that leave the runs alone, and whatever the agent does, a diagnosis ends in one of three
  -- ways: it is refused as a duplicate and changes no run; it answers, and its run is COMPLETED; or it
  -- returns an error, and its run is FAILED. Every other run stays as it was.
  pub diagnose-Ends :
      (agent : Agent) (tools : List RecordingTool) (max_tool_calls : ℕ) (w : World) (inc : Incident)
      → All Keeps tools
      → Ends w inc (diagnose source milliseconds agent tools max_tool_calls w inc)
  unfolding diagnose new_recorder after_start drawn publish
  diagnose-Ends agent tools max_tool_calls w inc keep =
      let new = new_recorder source milliseconds w inc "diagnosis" max_tool_calls in
      elim (Option-cases (lookup new.0.run.id w.runs.runs)) [
        | inr (x, taken) ↦
            refused-Ends agent tools max_tool_calls w inc
              (start_refused new.0 new.1 (inl (x, taken)))
        | inl fresh ↦ elim (Bool-cases (any (occupies new.0.run) (values w.runs.runs))) [
          | inl busy ↦
              refused-Ends agent tools max_tool_calls w inc
                (start_refused new.0 new.1 (inr (fresh, busy)))
          | inr alone ↦
              subst (Ends w inc)
                (sym (
                  ap (after_start source milliseconds agent tools inc new.0)
                    (start_eq new.0 new.1 fresh alone)))
                (started-Ends agent tools new.0.run new.0 _ w inc keep refl refl refl alone)
        ]
      ]
