-- ===== src/Run.antt =====
-- internal/incident/model/agent_run.go, agent_step.go, tool_call.go, evidence.go and
-- internal/incident/repository/run_memory.go: agent runs and their records.
pub mod Active
pub mod Listing
use go_on_call_agent.Prelude.{
  ℕ, String, Bool, true, false, Option, none, some, List, [], ◌∷◌, ◌&&◌, ◌||◌, any, snoc, not,
  str_eq, ◌==◌, if◌then◌else◌,
}
use go_on_call_agent.Errors.{Error, sentinel, not_found, conflict, Result, ok, err}
use go_on_call_agent.Dict.{Dict, lookup, insert, values, get_list}

pub data RunStatus : Type 0 where
  running completed failed interrupted : RunStatus

-- RunStatus.IsActive
abbrev pub is_active : RunStatus → Bool
is_active running = true
is_active completed = true
is_active failed = false
is_active interrupted = false

pub record AgentRun : Type 0 where
  pub id : String
  pub incident_id : String
  pub agent_type : String
  pub status : RunStatus
  pub goal : String
  pub current_step : ℕ
  pub started_at : ℕ
  pub finished_at : Option ℕ
  pub error : String

pub record AgentStep : Type 0 where
  pub id : String
  pub run_id : String
  pub step_index : ℕ
  pub agent : String
  pub action : String
  pub status : String
  pub input : String
  pub output : String
  pub duration : ℕ

pub record ToolCall : Type 0 where
  pub id : String
  pub run_id : String
  pub tool_name : String
  pub risk_level : String
  pub arguments : String
  pub result : String
  pub status : String
  pub duration_ms : ℕ
  pub created_at : ℕ

-- Metadata is left out.
pub record Evidence : Type 0 where
  pub id : String
  pub run_id : String
  pub typ : String
  pub source : String
  pub content : String
  pub created_at : ℕ

pub record MemoryRun : Type 0 where
  pub runs : Dict AgentRun
  pub steps : Dict (List AgentStep)
  pub calls : Dict (List ToolCall)
  pub evids : Dict (List Evidence)

-- NewMemoryRun
abbrev pub new_memory_run : MemoryRun
new_memory_run = record { runs = []; steps = []; calls = []; evids = [] }

-- The test in the loop of CreateRun.
unfoldable pub occupies : AgentRun → AgentRun → Bool
occupies run existing = str_eq existing.incident_id run.incident_id && is_active existing.status

-- CreateRun
unfoldable pub create_run : MemoryRun → AgentRun → Result (Unit {0}) × MemoryRun
create_run m run = elim (lookup run.id m.runs) [
  | some _ ↦ (err (sentinel conflict), m)
  | none ↦
      if any (occupies run) (values m.runs)
      then (err (sentinel conflict), m)
      else (ok tt, record m { runs = insert run.id run m.runs })
]

-- The test in the loop of UpdateRun.
unfoldable pub occupies_other : AgentRun → AgentRun → Bool
occupies_other run existing =
    not (str_eq existing.id run.id)
    && (str_eq existing.incident_id run.incident_id && is_active existing.status)

-- UpdateRun
unfoldable pub update_run : MemoryRun → AgentRun → Result (Unit {0}) × MemoryRun
update_run m run = elim (lookup run.id m.runs) [
  | none ↦ (err (sentinel not_found), m)
  | some _ ↦
      if is_active run.status && any (occupies_other run) (values m.runs)
      then (err (sentinel conflict), m)
      else (ok tt, record m { runs = insert run.id run m.runs })
]

abbrev pub run_or_not_found : Option AgentRun → Result AgentRun
run_or_not_found none = err (sentinel not_found)
run_or_not_found (some run) = ok run

-- GetRun
unfoldable pub get_run : MemoryRun → String → Result AgentRun
get_run m id = run_or_not_found (lookup id m.runs)

-- AddStep
unfoldable pub add_step : MemoryRun → AgentStep → MemoryRun
add_step m step = record m {
  steps = insert step.run_id (snoc (get_list (lookup step.run_id m.steps)) step) m.steps;
}

-- AddToolCall
unfoldable pub add_tool_call : MemoryRun → ToolCall → MemoryRun
add_tool_call m call = record m {
  calls = insert call.run_id (snoc (get_list (lookup call.run_id m.calls)) call) m.calls;
}

-- The loop of UpdateToolCall: the first call with the id gets the result; `none` if there is none.
unfoldable pub put_result : ToolCall → List ToolCall → Option (List ToolCall)
put_result call [] = none
put_result call (existing ∷ rest) =
    let rest' = put_result call rest in
    if str_eq existing.id call.id
    then some (
        record existing {
          result = call.result;
          status = call.status;
          duration_ms = call.duration_ms;
        }
        ∷ rest)
    else elim rest' [ some l ↦ some (existing ∷ l) | none ↦ none ]

-- UpdateToolCall
unfoldable pub update_tool_call : MemoryRun → ToolCall → Result (Unit {0}) × MemoryRun
update_tool_call m call = elim (put_result call (get_list (lookup call.run_id m.calls))) [
  | some l ↦ (ok tt, record m { calls = insert call.run_id l m.calls })
  | none ↦ (err (sentinel not_found), m)
]

-- AddEvidence
unfoldable pub add_evidence : MemoryRun → Evidence → MemoryRun
add_evidence m ev = record m {
  evids = insert ev.run_id (snoc (get_list (lookup ev.run_id m.evids)) ev) m.evids;
}
