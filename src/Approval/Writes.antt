-- ===== src/Approval/Writes.antt =====
-- The cases of the conditional update, and the map after a bulk expiry.
use go_on_call_agent.Prelude.{
  ℕ, String, true, false, Option, none, some, [], ◌∷◌, ◌≡◌, refl, arith, str_eq, inl, inr,
  Bool-cases, Option-cases, if◌then◌else◌,
}
use go_on_call_agent.Errors.{sentinel, not_found, conflict, Result, ok, err}
use go_on_call_agent.Dict.{lookup, insert}
use go_on_call_agent.Approval.{
  Approval, Approvals, ApprovalStatus, approval_eq, next_approval, transition_status, expires,
  expired_approval, expire_loop,
}

pub eq-of_approval_eq : (a b : ApprovalStatus) → approval_eq a b ≡ true → a ≡ b
eq-of_approval_eq a b h = ground arith

pub approval_eq_self : (a : ApprovalStatus) → approval_eq a a ≡ true
approval_eq_self a = ground arith

-- How one call of TransitionStatus ends.
pub data Ending (m : Approvals) (now : ℕ) (id : String) (from to : ApprovalStatus)
    (mutate : Approval → Approval) (r : Result Approval × Approvals) : Type 0 where
  missing :
      lookup id m ≡ none → r ≡ (err (sentinel not_found), m) → Ending m now id from to mutate r
  taken :
      (cur : Approval)
      → lookup id m ≡ some cur
      → approval_eq cur.status from ≡ false
      → r ≡ (err (sentinel conflict), m)
      → Ending m now id from to mutate r
  written :
      (cur : Approval)
      → lookup id m ≡ some cur
      → cur.status ≡ from
      → r ≡ (ok (next_approval now to mutate cur), insert id (next_approval now to mutate cur) m)
      → Ending m now id from to mutate r

pub transition_status-Ending :
    (m : Approvals) (now : ℕ) (id : String) (from to : ApprovalStatus)
    (mutate : Approval → Approval)
    → Ending m now id from to mutate (transition_status m now id from to mutate)
unfolding transition_status
transition_status-Ending m now id from to mutate = elim (Option-cases (lookup id m)) [
  | inl absent ↦ missing absent (rw (transition_status, absent))
  | inr (cur, there) ↦ elim (Bool-cases (approval_eq cur.status from)) [
    | inr other ↦ taken cur there other (rw (transition_status, there, other))
    | inl same ↦
        written cur there (eq-of_approval_eq cur.status from same)
          (rw (transition_status, there, same))
  ]
]

abbrev pub map_option : (Approval → Approval) → Option Approval → Option Approval
map_option f none = none
map_option f (some a) = some (f a)

abbrev pub expire_one : ℕ → String → Approval → Approval
expire_one now incident_id a = if expires incident_id a then expired_approval now a else a

-- A bulk expiry rewrites each approval by itself.
pub lookup-expire_loop :
    (now : ℕ) (incident_id k : String) (m : Approvals)
    → lookup k (expire_loop now incident_id m)
      ≡ map_option (expire_one now incident_id) (lookup k m)
unfolding lookup expire_loop
lookup-expire_loop now incident_id k [] = refl
lookup-expire_loop now incident_id k ((j, a) ∷ m) = elim (Bool-cases (str_eq j k)) [
  | inl same ↦ rw same
  | inr other ↦ rw other (lookup-expire_loop now incident_id k m)
]
