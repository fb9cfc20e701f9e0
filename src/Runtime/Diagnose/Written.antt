-- ===== src/Runtime/Diagnose/Written.antt =====
-- The end of a run, as it is written.
use go_on_call_agent.Prelude.{
  ℕ, String, false, none, some, any, ◌≡◌, ◌≢◌, sym, ap, ◌∙◌, arith, str_eq_self, str_eq-of_ne,
}
use go_on_call_agent.Dict.{Dict, lookup, insert, values}
use go_on_call_agent.Dict.Laws.{lookup-insert}
use go_on_call_agent.Incident.Service.{Stamp}
use go_on_call_agent.Run.{AgentRun, occupies}
use go_on_call_agent.World.{World, publish}
use go_on_call_agent.Runtime.Recorder.{Recorder, finish}
use go_on_call_agent.Runtime.Diagnose.Kept.{update_run-own}

-- The runs before, the run with which the diagnosis began, and the world now: the run stands among
-- the others, of which none occupied its incident.
pub record IsUnderWay (base : Dict AgentRun) (old : AgentRun) (run : AgentRun) (w : World)
    : Type 0 where
  pub alone : any (occupies old) (values base) ≡ false
  pub stored : w.runs.runs ≡ insert old.id old base
  pub same_id : run.id ≡ old.id
  pub same_incident : run.incident_id ≡ old.incident_id

-- The run stands in its last state, and every other run as it was.
abbrev pub HasEnded : Dict AgentRun → World → AgentRun → Type 0
HasEnded base w run =
    (lookup run.id w.runs.runs ≡ some run)
    × ((k : String) → k ≢ run.id → lookup k w.runs.runs ≡ lookup k base)

twice :
    (base : Dict AgentRun) (old run : AgentRun) (k : String)
    → run.id ≡ old.id
    → (k ≢ run.id)
    → lookup k (insert run.id run (insert old.id old base)) ≡ lookup k base
twice base old run k same differ = ground (
  arith,
  lookup-insert run.id k run (insert old.id old base),
  lookup-insert old.id k old base,
  str_eq-of_ne run.id k (λ e. differ (sym e)),
  str_eq-of_ne old.id k (λ e. differ (sym e ∙ sym same)),
)

written-HasEnded :
    (base : Dict AgentRun) (old run : AgentRun) (before after : World)
    → IsUnderWay base old run before
    → after.runs.runs ≡ insert run.id run before.runs.runs
    → HasEnded base after run
written-HasEnded base old run before after h written =
    let runs = written ∙ ap (insert run.id run) h.stored in
    (
      ap (lookup run.id) runs
          ∙ ground
              (arith, lookup-insert run.id run.id run (insert old.id old base), str_eq_self run.id),
      λ k differ. ap (lookup k) runs ∙ twice base old run k h.same_id differ,
    )

module _ (source : ℕ → Stamp) (milliseconds : ℕ → ℕ → ℕ) where
  pub finish_lem :
      (text : String) (base : Dict AgentRun) (old : AgentRun) (r : Recorder) (w : World)
      → IsUnderWay base old r.run w
      → ((finish source milliseconds text r w).0 ≡ none)
        × HasEnded base (finish source milliseconds text r w).1 r.run
  unfolding finish publish
  finish_lem text base old r w h =
      let updated =
        update_run-own w.runs base old r.run h.stored h.alone h.same_id h.same_incident in
      let end : finish source milliseconds text r w ≡ (
        none,
        publish r.run.id "done"
            (record w { runs = record w.runs { runs = insert r.run.id r.run w.runs.runs } }),
      ) =
        ground (arith, updated) in
      (
        ap (λ p. p.0) end,
        written-HasEnded base old r.run w (finish source milliseconds text r w).1 h
            (ap (λ p. p.1.runs.runs) end),
      )
