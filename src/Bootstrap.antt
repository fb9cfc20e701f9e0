-- ===== src/Bootstrap.antt =====
-- internal/bootstrap/execution.go: what the configuration makes of the execution path.
pub mod Real
pub mod Guarded
use go_on_call_agent.Prelude.{
  ℕ, String, Bool, true, false, Option, none, some, List, ◌+◌, ◌*◌, str_eq, ◌<>◌, if◌then◌else◌,
}
use go_on_call_agent.Prelude.Int.{ℤ, pos, negsuc, leb_ℤ}
use go_on_call_agent.Errors.{Error, plain, wrap, Result, ok, err}
use go_on_call_agent.Config.{
  Config, VerificationConfig, VerificationQueries, ExecutionConfig, execution_mode_http,
}
use go_on_call_agent.Verifier.{RunConfig}
use go_on_call_agent.Verifier.Gatherer.{PrometheusGatherer, new_prometheus_gatherer}
use go_on_call_agent.Deployment.{Tool, HttpExecutor}

pub data Gatherer : Type 0 where
  mock : Gatherer
  prometheus : PrometheusGatherer → Gatherer

-- buildGatherer
unfoldable pub build_gatherer : Config → Result Gatherer
build_gatherer c =
    if str_eq c.verification.mode "prometheus"
    then ok (prometheus (new_prometheus_gatherer c.prometheus.url c.verification.queries))
    else if str_eq c.execution.mode execution_mode_http
    then err (
        plain (
          "execution.mode=" <> execution_mode_http
          <> " must not use the mock verification gatherer: a mock result must never close a real incident"))
    else ok mock

-- NewHTTPExecutor, over the exchange with an endpoint: its URL, its token and the timeout in seconds.
unfoldable pub new_http_executor :
    (String → String → ℤ → HttpExecutor) → ExecutionConfig → Result HttpExecutor
new_http_executor connect e =
    if str_eq e.restart_url ""
    then err (plain "execution.restart_url is required for the HTTP executor")
    else ok (
        connect e.restart_url e.token
          (if leb_ℤ e.timeout_seconds (pos 0) then pos 30 else e.timeout_seconds))

-- A count as RunConfig holds it.
unfoldable pub count : ℤ → ℕ
count (pos n) = n
count (negsuc n) = 0

-- The RunConfig that WithVerifyConfig gets. The interval is in seconds.
unfoldable pub run_config : VerificationConfig → RunConfig
run_config v = record {
  attempts = count v.attempts;
  interval = count v.interval_seconds;
  required_successes = count v.required_successes;
}

-- What buildExecution builds, short of the services that it joins.
pub record Execution : Type 0 where
  pub approval_enabled : Bool
  pub restart_tool : Tool
  pub gatherer : Gatherer
  pub verify_config : RunConfig

-- The tool of deployment.New, with the adapter and the whitelist in the http mode.
unfoldable pub build_tool : (String → String → ℤ → HttpExecutor) → Config → Result Tool
build_tool connect c =
    if str_eq c.execution.mode execution_mode_http
    then elim (new_http_executor connect c.execution) [
      | ok http ↦
          ok (record { allowed_targets = some c.execution.allowed_targets; http = some http })
      | err e ↦ err (wrap "build http executor: " e "")
    ]
    else ok (record { allowed_targets = none; http = none })

-- buildExecution
unfoldable pub build_execution : (String → String → ℤ → HttpExecutor) → Config → Result Execution
build_execution connect c = elim (build_tool connect c) [
  | err e ↦ err e
  | ok t ↦ elim (build_gatherer c) [
    | err e ↦ err e
    | ok g ↦ ok (record {
      approval_enabled = c.approval.enabled;
      restart_tool = t;
      gatherer = g;
      verify_config = run_config c.verification;
    })
  ]
]
