-- ===== src/Run/Listing.antt =====
-- The queries of run_memory.go that return sorted lists.
use mathlib.Core.List.{Permᴰ}
use go_on_call_agent.Prelude.{
  String, Bool, List, [], ◌∷◌, ◌≡◌, ◌≢◌, refl, sym, ◌∙◌, arith, snoc, select, not, ltb, ◌==◌,
  str_eq, str_eq_self, str_eq-of_ne, ap, if◌then◌else◌,
}
use go_on_call_agent.Dict.{Dict, lookup, insert, values, get_list}
use go_on_call_agent.Dict.Laws.{lookup-insert}
use go_on_call_agent.Sorting.{
  Sorter, str_less, IsOrder, IsSorted, by_key, by_key-IsOrder, Permᴰ_refl, Permᴰ_sym,
}
use go_on_call_agent.Run.{
  MemoryRun, AgentRun, AgentStep, ToolCall, Evidence, add_step, add_tool_call, add_evidence,
}

-- The latest run first; runs of one time by their id.
unfoldable pub run_before : AgentRun → AgentRun → Bool
run_before a b =
    if not (a.started_at == b.started_at) then ltb b.started_at a.started_at else str_less a.id b.id

unfoldable pub step_before : AgentStep → AgentStep → Bool
step_before a b = ltb a.step_index b.step_index

unfoldable pub call_before : ToolCall → ToolCall → Bool
call_before = by_key (λ c. c.created_at) (λ c. c.id)

unfoldable pub evidence_before : Evidence → Evidence → Bool
evidence_before a b = ltb a.created_at b.created_at

module _ (S : Sorter) where
  open S use {sort}

  -- ListRunsByIncident
  unfoldable pub list_runs_by_incident : MemoryRun → String → List AgentRun
  list_runs_by_incident m incident_id =
      sort run_before (select (λ run. str_eq run.incident_id incident_id) (values m.runs))

  -- ListSteps
  unfoldable pub list_steps : MemoryRun → String → List AgentStep
  list_steps m run_id = sort step_before (get_list (lookup run_id m.steps))

  -- ListToolCalls
  unfoldable pub list_tool_calls : MemoryRun → String → List ToolCall
  list_tool_calls m run_id = sort call_before (get_list (lookup run_id m.calls))

  -- ListEvidences
  unfoldable pub list_evidences : MemoryRun → String → List Evidence
  list_evidences m run_id = sort evidence_before (get_list (lookup run_id m.evids))

step_before-IsOrder : IsOrder step_before
unfolding step_before
step_before-IsOrder = record {
  asym = λ a b h. ground (arith, h);
  cotrans = λ a b c h. ground (arith, h);
}

call_before-IsOrder : IsOrder call_before
unfolding call_before
call_before-IsOrder = by_key-IsOrder (λ c. c.created_at) (λ c. c.id)

evidence_before-IsOrder : IsOrder evidence_before
unfolding evidence_before
evidence_before-IsOrder = record {
  asym = λ a b h. ground (arith, h);
  cotrans = λ a b c h. ground (arith, h);
}

snoc-Permᴰ : {A : Type 0} (l : List A) (x : A) → Permᴰ (snoc l x) (x ∷ l)
snoc-Permᴰ [] x = Permᴰ_refl (x ∷ [])
snoc-Permᴰ (y ∷ ys) x = Permᴰ.trans (Permᴰ.cons refl (snoc-Permᴰ ys x)) (Permᴰ.swap refl refl)

module _ (S : Sorter) where
  open S use {sort}

  -- Appending to the list that a key holds, and then sorting it.
  sort-snoc :
      {A : Type 0} (less : A → A → Bool) (l : List A) (x : A)
      → Permᴰ (sort less (snoc l x)) (x ∷ sort less l)
  sort-snoc less l x =
      Permᴰ.trans (S.sort-Permᴰ less (snoc l x))
        (Permᴰ.trans (snoc-Permᴰ l x) (Permᴰ.cons refl (Permᴰ_sym (S.sort-Permᴰ less l))))

  -- What a write of one record does to the listings of its kind.
  abbrev pub IsRecorded :
      {A M : Type 0} → (M → String → List A) → (A → A → Bool) → M → M → String → A → Type 0
  IsRecorded list less m m' run_id x =
      Permᴰ (list m' run_id) (x ∷ list m run_id)
      × IsSorted less (list m' run_id)
      × ((other : String) → other ≢ run_id → list m' other ≡ list m other)

  recorded :
      {A M : Type 0} (list : M → String → List A) (less : A → A → Bool) (order : IsOrder less)
      (m m' : M) (held held' : String → List A) (run_id : String) (x : A)
      → ((r : String) → list m r ≡ sort less (held r))
      → ((r : String) → list m' r ≡ sort less (held' r))
      → held' run_id ≡ snoc (held run_id) x
      → ((r : String) → r ≢ run_id → held' r ≡ held r)
      → IsRecorded list less m m' run_id x
  recorded list less order m m' held held' run_id x before after here elsewhere = (
    rw (after run_id, before run_id, here) (sort-snoc less (held run_id) x),
    rw (after run_id) (S.sort-IsSorted less (held' run_id) order),
    λ r other. after r ∙ ap (sort less) (elsewhere r other) ∙ sym (before r),
  )

  at_key :
      {A : Type 0} (k : String) (x : A) (d : Dict (List A))
      → get_list (lookup k (insert k (snoc (get_list (lookup k d)) x) d))
        ≡ snoc (get_list (lookup k d)) x
  at_key k x d = ground (arith, lookup-insert k k (snoc (get_list (lookup k d)) x) d, str_eq_self k)

  at_other :
      {A : Type 0} (k : String) (l : List A) (d : Dict (List A)) (r : String)
      → r ≢ k
      → get_list (lookup r (insert k l d)) ≡ get_list (lookup r d)
  at_other k l d r differ =
      ground (arith, lookup-insert k r l d, str_eq-of_ne k r (λ e. differ (sym e)))

  -- A recorded step, tool call or piece of evidence stands in the next listing of its run beside
  -- exactly what stood there before, in the listing's order, and no other run's listing changes.
  pub add_step-IsRecorded :
      (m : MemoryRun) (step : AgentStep) (call : ToolCall) (ev : Evidence)
      → IsRecorded (list_steps S) step_before m (add_step m step) step.run_id step
        × IsRecorded (list_tool_calls S) call_before m (add_tool_call m call) call.run_id call
        × IsRecorded (list_evidences S) evidence_before m (add_evidence m ev) ev.run_id ev
  unfolding list_steps list_tool_calls list_evidences add_step add_tool_call add_evidence
  add_step-IsRecorded m step call ev = (
    recorded (list_steps S) step_before step_before-IsOrder m (add_step m step)
        (λ r. get_list (lookup r m.steps)) (λ r. get_list (lookup r (add_step m step).steps))
        step.run_id step (λ r. refl) (λ r. refl) (at_key step.run_id step m.steps)
        (at_other step.run_id (snoc (get_list (lookup step.run_id m.steps)) step) m.steps),
    recorded (list_tool_calls S) call_before call_before-IsOrder m (add_tool_call m call)
        (λ r. get_list (lookup r m.calls)) (λ r. get_list (lookup r (add_tool_call m call).calls))
        call.run_id call (λ r. refl) (λ r. refl) (at_key call.run_id call m.calls)
        (at_other call.run_id (snoc (get_list (lookup call.run_id m.calls)) call) m.calls),
    recorded (list_evidences S) evidence_before evidence_before-IsOrder m (add_evidence m ev)
        (λ r. get_list (lookup r m.evids)) (λ r. get_list (lookup r (add_evidence m ev).evids))
        ev.run_id ev (λ r. refl) (λ r. refl) (at_key ev.run_id ev m.evids)
        (at_other ev.run_id (snoc (get_list (lookup ev.run_id m.evids)) ev) m.evids),
  )
