-- ===== src/World.antt =====
-- The state that the approval service and the remediation share: the repositories, the event
-- stream's history (by run and type), the idempotency keys sent to the deployment endpoint, and how
-- often the clock and the uuid generator were asked.
use go_on_call_agent.Prelude.{◌≡◌, some, ℕ, suc, String, Bool, false, List, snoc}
use go_on_call_agent.Errors.{Result}
use go_on_call_agent.Dict.{lookup}
use go_on_call_agent.Incident.{Incident, Status}
use go_on_call_agent.Incident.Store.{Memory}
use go_on_call_agent.Run.{MemoryRun}
use go_on_call_agent.Approval.{Approvals}

pub record Published : Type 0 where
  pub run_id : String
  pub typ : String

pub record World : Type 0 where
  pub incidents : Memory
  pub approvals : Approvals
  pub runs : MemoryRun
  pub published : List Published
  pub calls : List String
  pub draws : ℕ

-- What an ActionExecutor returns.
pub record ExecutionResult : Type 0 where
  pub output : String
  pub operation_id : String
  pub incident_id : String
  pub verified : Bool

abbrev pub no_execution : ExecutionResult
no_execution = record { output = ""; operation_id = ""; incident_id = ""; verified = false }

-- ActionExecutor: the approval id that the context carries, action, arguments, run id.
abbrev pub Executor : Type 0
Executor = String → String → String → String → World → Result ExecutionResult × World

-- publish
unfoldable pub publish : String → String → World → World
publish run_id typ w = record w {
  published = snoc w.published (record { run_id = run_id; typ = typ });
}

-- A draw from the clock and the uuid generator.
unfoldable pub drawn : World → World
drawn w = record w { draws = suc w.draws }

-- The stored incident has the status.
abbrev pub Stands : World → String → Status → Type 0
Stands w id to = (inc : Incident) × (lookup id w.incidents.items ≡ some inc) × (inc.status ≡ to)
