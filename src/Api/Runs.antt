-- ===== src/Api/Runs.antt =====
-- internal/api/handler/run.go, over the runs: the queries and the start of the
-- stream.
use go_on_call_agent.Prelude.{ℕ, String, Bool, Option, none, some, List, if◌then◌else◌}
use go_on_call_agent.Errors.{Result, ok, err}
use go_on_call_agent.Incident.Store.{get_by_id}
use go_on_call_agent.Run.{AgentRun, AgentStep, ToolCall, Evidence, get_run}
use go_on_call_agent.Run.Listing.{
  list_runs_by_incident, list_steps, list_tool_calls, list_evidences,
}
use go_on_call_agent.Sorting.{Sorter}
use go_on_call_agent.StreamBroker.{StreamBroker, Channel, subscribe}
use go_on_call_agent.World.{World}
use go_on_call_agent.Api.Response.{Response, json, failure}
use go_on_call_agent.Api.Incidents.{respond_error}

-- Get
unfoldable pub get_one : World → String → Response AgentRun
get_one w id = elim (get_run w.runs id) [ ok run ↦ json 200 run | err e ↦ respond_error e ]

-- Stream up to its subscription, which takes the next channel: an error, or the channel that is read
-- and the broker. The subscription may not return.
unfoldable pub stream : World → StreamBroker → ℕ → String → Option (Result (Channel × StreamBroker))
stream w broker channel id = elim (get_run w.runs id) [
  | err e ↦ some (err e)
  | ok run ↦ elim (subscribe broker id channel) [ some found ↦ some (ok found) | none ↦ none ]
]

module _ (S : Sorter) where
  -- Steps: of a run that is not there, no steps.
  unfoldable pub steps : World → String → Response (List AgentStep)
  steps w id = json 200 (list_steps S w.runs id)

  -- ToolCalls
  unfoldable pub tool_calls : World → String → Response (List ToolCall)
  tool_calls w id = elim (get_run w.runs id) [
    | err e ↦ respond_error e
    | ok run ↦ json 200 (list_tool_calls S w.runs id)
  ]

  -- RunsByIncident; the flag says whether the repository of incidents was injected.
  unfoldable pub runs_by_incident : Bool → World → String → Response (List AgentRun)
  runs_by_incident incidents w id =
      if incidents
      then elim (get_by_id w.incidents id) [
        | err e ↦ respond_error e
        | ok inc ↦ json 200 (list_runs_by_incident S w.runs id)
      ]
      else failure 503 "incident repository is not configured"

  -- Evidences: of a run that is not there, no evidences.
  unfoldable pub evidences : World → String → Response (List Evidence)
  evidences w id = json 200 (list_evidences S w.runs id)
