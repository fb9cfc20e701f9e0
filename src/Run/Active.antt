-- ===== src/Run/Active.antt =====
-- At most one run of an incident is RUNNING or COMPLETED: the promise of the partial unique index
-- idx_agent_run_active, as an invariant of the in-memory repository.
use go_on_call_agent.Prelude.{
  String, true, some, any, List, [], ◌∷◌, ◌≡◌, ◌≢◌, sym, ◌∙◌, arith, eq_iff, String-cases, inl, inr,
  ◌⊎◌, Bool-cases, Option-cases,
}
use go_on_call_agent.Dict.{Dict, lookup, insert, values}
use go_on_call_agent.Dict.Laws.{lookup-insert, any-values-lookup}
use go_on_call_agent.Run.{
  MemoryRun, AgentRun, is_active, occupies, occupies_other, create_run, update_run,
}

pub record IsExclusive (runs : Dict AgentRun) : Type 0 where
  pub keyed : (k : String) (a : AgentRun) → lookup k runs ≡ some a → a.id ≡ k
  pub one_active :
      (j k : String) (a b : AgentRun)
      → lookup j runs ≡ some a
      → lookup k runs ≡ some b
      → is_active a.status ≡ true
      → is_active b.status ≡ true
      → a.incident_id ≡ b.incident_id
      → j ≡ k

module _ (runs : Dict AgentRun) (valid : IsExclusive runs) (run : AgentRun) where
  lookup_after :
      (k : String) (a : AgentRun)
      → lookup k (insert run.id run runs) ≡ some a
      → ((k ≡ run.id) × (a ≡ run)) ⊎ ((k ≢ run.id) × (lookup k runs ≡ some a))
  lookup_after k a h = elim (String-cases run.id k) [
    | inl same ↦ inl (sym same, ground (arith, lookup-insert run.id k run runs, eq_iff run.id k))
    | inr differ ↦
        inr (λ e. differ (sym e), ground (arith, lookup-insert run.id k run runs, eq_iff run.id k))
  ]

  -- A write keeps the invariant if no other active run of the incident stands beside an active one.
  insert-IsExclusive :
      ((k : String) (b : AgentRun)
        → k ≢ run.id
        → lookup k runs ≡ some b
        → is_active b.status ≡ true
        → is_active run.status ≡ true
        → run.incident_id ≢ b.incident_id)
      → IsExclusive (insert run.id run runs)
  insert-IsExclusive alone = record {
    keyed = λ k a h. elim (lookup_after k a h) [
      | inl (same, new) ↦ rw (same, new)
      | inr (differ, old) ↦ valid.keyed k a old
    ];
    one_active = λ j k a b hj hk aa ab same.
        one j k a b (lookup_after j a hj) (lookup_after k b hk) aa ab same;
  }
    where
      one :
          (j k : String) (a b : AgentRun)
          → ((j ≡ run.id) × (a ≡ run)) ⊎ ((j ≢ run.id) × (lookup j runs ≡ some a))
          → ((k ≡ run.id) × (b ≡ run)) ⊎ ((k ≢ run.id) × (lookup k runs ≡ some b))
          → is_active a.status ≡ true
          → is_active b.status ≡ true
          → a.incident_id ≡ b.incident_id
          → j ≡ k
      one j k a b (inl (ej, ea)) (inl (ek, eb)) aa ab same = ej ∙ sym ek
      one j k a b (inl (ej, ea)) (inr (nk, hk)) aa ab same =
          absurd (alone k b nk hk ab (rw (← ea) aa) (rw (← ea) same))
      one j k a b (inr (nj, hj)) (inl (ek, eb)) aa ab same =
          absurd (alone j a nj hj aa (rw (← eb) ab) (rw (← eb) (sym same)))
      one j k a b (inr (nj, hj)) (inr (nk, hk)) aa ab same =
          valid.one_active j k a b hj hk aa ab same

-- Creating a run keeps the invariant, refused or not.
pub create_run-IsExclusive :
    (m : MemoryRun) (run : AgentRun) → IsExclusive m.runs → IsExclusive (create_run m run).1.runs
unfolding create_run
create_run-IsExclusive m run h = elim (Option-cases (lookup run.id m.runs)) [
  | inr (x, taken) ↦ rw (create_run, taken) h
  | inl fresh ↦ elim (Bool-cases (any (occupies run) (values m.runs))) [
    | inl busy ↦ rw (create_run, fresh, busy) h
    | inr clear ↦
        rw (create_run, fresh, clear)
          (insert-IsExclusive m.runs h run λ k b nk hk ab ar same.
            unfold occupies in
            ground (
              arith,
              any-values-lookup (occupies run) m.runs k b clear hk,
              eq_iff b.incident_id run.incident_id,
            ))
  ]
]

-- Updating a run keeps the invariant, refused or not.
pub update_run-IsExclusive :
    (m : MemoryRun) (run : AgentRun) → IsExclusive m.runs → IsExclusive (update_run m run).1.runs
unfolding update_run
update_run-IsExclusive m run h = elim (Option-cases (lookup run.id m.runs)) [
  | inl missing ↦ rw (update_run, missing) h
  | inr (x, there) ↦ elim (Bool-cases (is_active run.status)) [
    | inr ended ↦
        rw (update_run, there, ended) (insert-IsExclusive m.runs h run λ k b nk hk ab ar same. cc)
    | inl live ↦ elim (Bool-cases (any (occupies_other run) (values m.runs))) [
      | inl busy ↦ rw (update_run, there, live, busy) h
      | inr clear ↦
          rw (update_run, there, live, clear)
            (insert-IsExclusive m.runs h run λ k b nk hk ab ar same.
              let key : b.id ≡ k = h.keyed k b hk in
              unfold occupies_other in
              ground (
                arith,
                any-values-lookup (occupies_other run) m.runs k b clear hk,
                eq_iff b.incident_id run.incident_id,
                eq_iff b.id run.id,
              ))
    ]
  ]
]

-- A call that writes a run.
pub data RunWrite : Type 0 where
  creation change : AgentRun → RunWrite

unfoldable pub write_run : MemoryRun → RunWrite → MemoryRun
write_run m (creation run) = (create_run m run).1
write_run m (change run) = (update_run m run).1

unfoldable pub write_runs : MemoryRun → List RunWrite → MemoryRun
write_runs m [] = m
write_runs m (x ∷ xs) = write_runs (write_run m x) xs

write_run-IsExclusive :
    (m : MemoryRun) (x : RunWrite) → IsExclusive m.runs → IsExclusive (write_run m x).runs
unfolding write_run
write_run-IsExclusive m (creation run) h = create_run-IsExclusive m run h
write_run-IsExclusive m (change run) h = update_run-IsExclusive m run h

-- Any creations and updates of runs, refused or not, keep at most one run of an incident RUNNING or
-- COMPLETED.
pub write_runs-IsExclusive :
    (m : MemoryRun) (writes : List RunWrite)
    → IsExclusive m.runs
    → IsExclusive (write_runs m writes).runs
unfolding write_runs
write_runs-IsExclusive m [] h = h
write_runs-IsExclusive m (x ∷ xs) h =
    write_runs-IsExclusive (write_run m x) xs (write_run-IsExclusive m x h)
