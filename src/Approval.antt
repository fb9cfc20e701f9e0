-- ===== src/Approval.antt =====
-- internal/incident/model/approval.go and internal/incident/repository/approval_memory.go: approvals
-- and their in-memory repository. Times come from the caller.
pub mod Writes
pub mod Listing
pub mod Interleaving
pub mod Service
use go_on_call_agent.Prelude.{
  ℕ, String, Bool, true, false, Option, none, some, List, [], ◌∷◌, ◌&&◌, not, str_eq, ◌==◌, ◌+◌,
  if◌then◌else◌,
}
use go_on_call_agent.Errors.{Error, sentinel, not_found, conflict, Result, ok, err}
use go_on_call_agent.Dict.{Dict, lookup, insert, values}

pub data ApprovalStatus : Type 0 where
  pending approved executing executed failed rejected expired unknown : ApprovalStatus

abbrev pub approval_index : ApprovalStatus → ℕ
approval_index pending = 0
approval_index approved = 1
approval_index executing = 2
approval_index executed = 3
approval_index failed = 4
approval_index rejected = 5
approval_index expired = 6
approval_index unknown = 7

-- Go's `==` on two statuses.
abbrev pub approval_eq : ApprovalStatus → ApprovalStatus → Bool
approval_eq a b = approval_index a == approval_index b

pub record Approval : Type 0 where
  pub id : String
  pub incident_id : String
  pub run_id : String
  pub tool_call_id : String
  pub action : String
  pub arguments : String
  pub reason : String
  pub status : ApprovalStatus
  pub approved_by : String
  pub result : String
  pub error : String
  pub operation_id : String
  pub created_at : ℕ
  pub updated_at : ℕ
  pub approved_at : Option ℕ

-- MemoryApproval
abbrev pub Approvals : Type 0
Approvals = Dict Approval

-- Create
unfoldable pub create : Approvals → Approval → Result (Unit {0}) × Approvals
create m a = elim (lookup a.id m) [
  | some _ ↦ (err (sentinel conflict), m)
  | none ↦ (ok tt, insert a.id a m)
]

abbrev pub approval_or_not_found : Option Approval → Result Approval
approval_or_not_found none = err (sentinel not_found)
approval_or_not_found (some a) = ok a

-- Get
unfoldable pub get : Approvals → String → Result Approval
get m id = approval_or_not_found (lookup id m)

-- The record that TransitionStatus writes.
abbrev pub next_approval : ℕ → ApprovalStatus → (Approval → Approval) → Approval → Approval
next_approval now to mutate cur = mutate (record cur { status = to; updated_at = now })

-- TransitionStatus; a nil `mutate` is the identity.
unfoldable pub transition_status :
    Approvals
    → ℕ
    → String
    → ApprovalStatus
    → ApprovalStatus
    → (Approval → Approval)
    → Result Approval × Approvals
transition_status m now id from to mutate = elim (lookup id m) [
  | none ↦ (err (sentinel not_found), m)
  | some cur ↦
      if approval_eq cur.status from
      then (ok (next_approval now to mutate cur), insert id (next_approval now to mutate cur) m)
      else (err (sentinel conflict), m)
]

-- The test in the loop of ExpirePendingByIncident.
unfoldable pub expires : String → Approval → Bool
expires incident_id a =
    not (str_eq incident_id "")
    && (str_eq a.incident_id incident_id && approval_eq a.status pending)

abbrev pub expired_approval : ℕ → Approval → Approval
expired_approval now a = record a {
  status = expired;
  error = "incident resolved externally";
  updated_at = now;
}

-- The loop of ExpirePendingByIncident over the map; a write to a key that is there adds no entry.
unfoldable pub expire_loop : ℕ → String → Approvals → Approvals
expire_loop now incident_id [] = []
expire_loop now incident_id ((id, a) ∷ m) =
    (id, if expires incident_id a then expired_approval now a else a)
    ∷ expire_loop now incident_id m

-- The count that the loop keeps.
unfoldable pub expire_count : String → Approvals → ℕ
expire_count incident_id [] = 0
expire_count incident_id ((id, a) ∷ m) =
    (if expires incident_id a then 1 else 0) + expire_count incident_id m

-- ExpirePendingByIncident
unfoldable pub expire_pending_by_incident : Approvals → ℕ → String → Result ℕ × Approvals
expire_pending_by_incident m now incident_id =
    (ok (expire_count incident_id m), expire_loop now incident_id m)
