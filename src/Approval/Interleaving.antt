-- ===== src/Approval/Interleaving.antt =====
-- Any interleaving of the repository calls that concurrent requests make on the approvals. Each action
-- is one atomic call, as the methods of the service make it; an execution starts where the call that
-- claims it returned.
use go_on_call_agent.Prelude.{
  ℕ, ◌+◌, ◌≤◌, ◌<◌, String, Bool, true, false, none, some, List, [], ◌∷◌, ◌≡◌, refl, sym, ◌∙◌, ap,
  arith, str_eq, eq_iff, inl, inr, String-cases, Option-cases, if◌then◌else◌, str_eq-of_ne, All,
}
use native.Mathlib.Decide.{dec_lt}
use go_on_call_agent.Errors.{Result, ok, err}
use go_on_call_agent.Dict.{lookup, insert}
use go_on_call_agent.Dict.Laws.{lookup-insert}
use go_on_call_agent.Approval.{
  Approval, Approvals, ApprovalStatus, pending, approved, executing, executed, failed, rejected,
  expired, unknown, next_approval, create, transition_status, expires, expire_loop,
}
use go_on_call_agent.Approval.Writes.{
  Ending, missing, taken, written, transition_status-Ending, lookup-expire_loop, map_option,
  expire_one,
}

pub record Shared : Type 0 where
  pub approvals : Approvals
  -- the approvals whose execution was started, one entry for each start
  pub started : List String

pub data Action : Type 0 where
  add : Approval → Action
  claim : ℕ → String → String → Action
  start : ℕ → String → Action
  finish : ℕ → String → ApprovalStatus → (Approval → Approval) → Action
  refuse : ℕ → String → String → Action
  give_up : ℕ → String → ApprovalStatus → String → Action
  recover : ℕ → String → Action

abbrev update : Shared → Result Approval × Approvals → Shared
update s (r, m) = record s { approvals = m }

abbrev log_start : Shared → String → Result Approval × Approvals → Shared
log_start s id (ok a, m) = record { approvals = m; started = id ∷ s.started }
log_start s id (err e, m) = record s { approvals = m }

-- The update that stamps who decided, and when.
abbrev pub decide : ℕ → String → Approval → Approval
decide now by a = record a { approved_by = by; approved_at = some now }

unfoldable pub perform : Shared → Action → Shared
perform s (add a) = record s { approvals = (create s.approvals a).1 }
perform s (claim now id by) =
    update s (transition_status s.approvals now id pending approved (decide now by))
perform s (start now id) =
    log_start s id (transition_status s.approvals now id approved executing (λ a. a))
perform s (finish now id to mutate) =
    update s (transition_status s.approvals now id executing to mutate)
perform s (refuse now id by) =
    update s (transition_status s.approvals now id pending rejected (decide now by))
perform s (give_up now id from cause) =
    update s (transition_status s.approvals now id from expired (λ a. record a { error = cause }))
perform s (recover now incident_id) = record s {
  approvals = expire_loop now incident_id s.approvals;
}

unfoldable pub perform_all : Shared → List Action → Shared
perform_all s [] = s
perform_all s (a ∷ rest) = perform_all (perform s a) rest

-- The statuses behind the start of the execution.
abbrev pub is_past : ApprovalStatus → Bool
is_past executing = true
is_past executed = true
is_past failed = true
is_past unknown = true
is_past _ = false

-- What the program makes of the actions: an execution ends in one of three statuses and its record
-- keeps the status; only approvals that have not started are given up.
abbrev pub IsProper : Action → Type 0
IsProper (finish now id to mutate) =
    (is_past to ≡ true) × ((a : Approval) → (mutate a).status ≡ a.status)
IsProper (give_up now id from cause) = is_past from ≡ false
IsProper _ = Unit

unfoldable pub count : String → List String → ℕ
count id [] = 0
count id (x ∷ xs) = (if str_eq x id then 1 else 0) + count id xs

-- Nothing was started twice, and what was started is behind the start.
pub record IsOnce (s : Shared) : Type 0 where
  pub once : (id : String) → count id s.started ≤ 1
  pub past :
      (id : String)
      → 0 < count id s.started
      → (a : Approval) × (lookup id s.approvals ≡ some a) × (is_past a.status ≡ true)

-- A bulk expiry does not touch what has started.
expire_one-past :
    (now : ℕ) (id : String) (a : Approval) → is_past a.status ≡ true → expire_one now id a ≡ a
unfolding expires
expire_one-past now id a past = ground arith

module _ (s : Shared) (h : IsOnce s) where
  -- A write that takes no approval back over the start.
  write-IsOnce :
      (id : String) (cur next : Approval)
      → lookup id s.approvals ≡ some cur
      → (is_past cur.status ≡ true → is_past next.status ≡ true)
      → IsOnce (record s { approvals = insert id next s.approvals })
  write-IsOnce id cur next there forward = record {
    once = h.once;
    past = λ k pos. elim (String-cases id k) [
      | inr other ↦
          let (a, at, past) = h.past k pos in
          (a, ground (arith, lookup-insert id k next s.approvals, eq_iff id k, at), past)
      | inl same ↦
          let (a, at, past) = h.past k pos in
          let is_cur : a ≡ cur = cc in
          (
            next,
            ground (arith, lookup-insert id k next s.approvals, eq_iff id k),
            forward (rw is_cur at past),
          )
    ];
  }

  -- One conditional update that does so.
  update-IsOnce :
      (now : ℕ) (id : String) (from to : ApprovalStatus) (mutate : Approval → Approval)
      → (is_past from ≡ true → is_past to ≡ true)
      → ((a : Approval) → (mutate a).status ≡ a.status)
      → IsOnce (update s (transition_status s.approvals now id from to mutate))
  update-IsOnce now id from to mutate forward plain =
      go (transition_status-Ending s.approvals now id from to mutate)
    where
      go :
          Ending s.approvals now id from to mutate
            (transition_status s.approvals now id from to mutate)
          → IsOnce (update s (transition_status s.approvals now id from to mutate))
      go (missing absent r) = rw r h
      go (taken cur there other r) = rw r h
      go (written cur there same r) = rw r (
          write-IsOnce id cur (next_approval now to mutate cur) there (λ past.
            rw (plain (record cur { status = to; updated_at = now })) (forward (rw same at past))))

  unstarted :
      (id : String) (cur : Approval)
      → lookup id s.approvals ≡ some cur
      → is_past cur.status ≡ false
      → count id s.started ≡ 0
  unstarted id cur there before = elim (dec_lt 0 (count id s.started)) [
    | no none_yet ↦ omega arith
    | yes pos ↦ let (a, at, past) = h.past id pos in let is_cur : a ≡ cur = cc in cc
  ]

  start-IsOnce :
      (now : ℕ) (id : String)
      → IsOnce (log_start s id (transition_status s.approvals now id approved executing (λ a. a)))
  unfolding count
  start-IsOnce now id = go (transition_status-Ending s.approvals now id approved executing (λ a. a))
    where
      go :
          Ending s.approvals now id approved executing
            (λ a. a)
            (transition_status s.approvals now id approved executing (λ a. a))
          → IsOnce
              (log_start s id (transition_status s.approvals now id approved executing (λ a. a)))
      go (missing absent r) = rw r h
      go (taken cur there other r) = rw r h
      go (written cur there same r) =
          let next = next_approval now executing (λ a. a) cur in
          let idle = unstarted id cur there (rw same refl) in
          rw r record {
            once = λ k. elim (String-cases id k) [
              | inl is_k ↦
                  let none_yet : count k s.started ≡ 0 = rw (← is_k) idle in
                  ground (arith, h.once k)
              | inr other ↦ ground (arith, h.once k, str_eq-of_ne id k other)
            ];
            past = λ k pos. elim (String-cases id k) [
              | inl is_k ↦
                  (next, ground (arith, lookup-insert id k next s.approvals, eq_iff id k), refl)
              | inr other ↦
                  let (a, at, past) = h.past k (ground (arith, str_eq-of_ne id k other)) in
                  (a, ground (arith, lookup-insert id k next s.approvals, eq_iff id k, at), past)
            ];
          }

  create-IsOnce : (a : Approval) → IsOnce (record s { approvals = (create s.approvals a).1 })
  unfolding create
  create-IsOnce a = elim (Option-cases (lookup a.id s.approvals)) [
    | inr (x, there) ↦ rw (create, there) h
    | inl absent ↦
        rw (create, absent)
          record {
            once = h.once;
            past = λ k pos. elim (String-cases a.id k) [
              | inl is_k ↦
                  let (x, at, past) = h.past k pos in
                  let clash : none ≡ some x = sym absent ∙ rw is_k at in cc
              | inr other ↦
                  let (x, at, past) = h.past k pos in
                  (x, ground (arith, lookup-insert a.id k a s.approvals, eq_iff a.id k, at), past)
            ];
          }
  ]

  recover-IsOnce :
      (now : ℕ) (id : String) → IsOnce (record s { approvals = expire_loop now id s.approvals })
  recover-IsOnce now id = record {
    once = h.once;
    past = λ k pos.
        let (a, at, past) = h.past k pos in
        (
          a,
          lookup-expire_loop now id k s.approvals
              ∙ ap (map_option (expire_one now id)) at
              ∙ ap some (expire_one-past now id a past),
          past,
        );
  }

perform-IsOnce : (s : Shared) (a : Action) → IsProper a → IsOnce s → IsOnce (perform s a)
unfolding perform
perform-IsOnce s (add a) p h = create-IsOnce s h a
perform-IsOnce s (claim now id by) p h =
    update-IsOnce s h now id pending approved (decide now by) (λ e. cc) (λ a. refl)
perform-IsOnce s (start now id) p h = start-IsOnce s h now id
perform-IsOnce s (finish now id to mutate) p h =
    update-IsOnce s h now id executing to mutate (λ e. p.0) p.1
perform-IsOnce s (refuse now id by) p h =
    update-IsOnce s h now id pending rejected (decide now by) (λ e. cc) (λ a. refl)
perform-IsOnce s (give_up now id from cause) p h =
    update-IsOnce s h now id from expired (λ a. record a { error = cause }) (λ e. cc) (λ a. refl)
perform-IsOnce s (recover now incident_id) p h = recover-IsOnce s h now incident_id

-- Whatever concurrent requests do in whatever order, if a finish is proper and nothing that started is
-- given up: from a state where each approval's execution was started at most once, and what was
-- started is EXECUTING, EXECUTED, FAILED or UNKNOWN, they lead to such states only.
pub perform_all-IsOnce :
    (s : Shared) (actions : List Action)
    → All IsProper actions
    → IsOnce s
    → IsOnce (perform_all s actions)
unfolding perform_all
perform_all-IsOnce s [] p h = h
perform_all-IsOnce s (a ∷ rest) p h =
    perform_all-IsOnce (perform s a) rest p.1 (perform-IsOnce s a p.0 h)

abbrev pub nothing : Shared
nothing = record { approvals = []; started = [] }

pub nothing-IsOnce : IsOnce nothing
unfolding count
nothing-IsOnce = record { once = λ id. omega arith; past = λ id pos. absurd (omega arith) }
