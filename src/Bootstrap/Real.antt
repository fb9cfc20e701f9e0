-- ===== src/Bootstrap/Real.antt =====
-- What a loaded configuration makes of the execution path.
use go_on_call_agent.Prelude.{
  ℕ, String, true, false, none, some, ◌≤◌, ◌≡◌, inl, inr, refl, arith, ◌==◌, str_eq, eq_iff,
  str_eq-of_ne, ap, if◌then◌else◌, Bool-cases,
}
use go_on_call_agent.Prelude.Int.{ℤ, pos, negsuc, leb_ℤ}
use go_on_call_agent.Errors.{ok}
use go_on_call_agent.Config.{Config, VerificationConfig}
use go_on_call_agent.Config.Validate.{Texts}
use go_on_call_agent.Config.Validate.Accepted.{
  IsVerification, IsHttpReady, IsAccepted, validate_iff,
}
use go_on_call_agent.Config.Load.{Surroundings, load, load-IsLoaded}
use go_on_call_agent.Verifier.{RunConfig, normalized}
use go_on_call_agent.Verifier.Gatherer.{new_prometheus_gatherer}
use go_on_call_agent.Deployment.{Tool, HttpExecutor}
use go_on_call_agent.Bootstrap.{
  Gatherer, mock, prometheus, build_gatherer, new_http_executor, count, run_config, Execution,
  build_tool, build_execution,
}

-- The verification that will run needs at least one success and no more than it has attempts, and no
-- default replaces its counts.
abbrev pub IsStrict : RunConfig → Type 0
IsStrict r = (1 ≤ r.required_successes) × (r.required_successes ≤ r.attempts) × (normalized r ≡ r)

leb-count : (a b : ℤ) → leb_ℤ a b ≡ true → count a ≤ count b
unfolding count
leb-count (pos a) (pos b) h = ground (arith, h)
leb-count (pos a) (negsuc b) h = ground (arith, h)
leb-count (negsuc a) (pos b) h = ground (arith, h)
leb-count (negsuc a) (negsuc b) h = ground (arith, h)

one : count (pos 1) ≡ 1
unfolding count
one = refl

if_zero : (n : ℕ) → 1 ≤ n → (if n == 0 then 1 else n) ≡ n
if_zero n h = ground (arith, h)

-- The verification takes its counts, and an interval that is not negative, as they are configured.
abbrev pub IsAsConfigured : VerificationConfig → RunConfig → Type 0
IsAsConfigured v r =
    (pos r.required_successes ≡ v.required_successes)
    × (pos r.attempts ≡ v.attempts)
    × ((seconds : ℕ) → v.interval_seconds ≡ pos seconds → r.interval ≡ seconds)

run_config-IsStrict : (v : VerificationConfig) → IsVerification v → IsStrict (run_config v)
unfolding run_config normalized
run_config-IsStrict v h =
    let attempts : 1 ≤ count v.attempts = omega (arith, leb-count (pos 1) v.attempts h.0, one) in
    let required : 1 ≤ count v.required_successes =
      omega (arith, leb-count (pos 1) v.required_successes h.1, one) in
    (
      required,
      leb-count v.required_successes v.attempts h.2,
      λ i. record {
        attempts = if_zero (count v.attempts) attempts i;
        interval = count v.interval_seconds;
        required_successes = if_zero (count v.required_successes) required i;
      },
    )

pub loaded-IsAccepted :
    (T : Texts) (S : Surroundings) (c : Config) → load T S ≡ ok c → IsAccepted T c
loaded-IsAccepted T S c h = (validate_iff T c).0 (load-IsLoaded T S c h).accepted

module _ (connect : String → String → ℤ → HttpExecutor) where
  abbrev pub http_tool : Config → Tool
  http_tool c = record {
    allowed_targets = some c.execution.allowed_targets;
    http = some (
        connect c.execution.restart_url c.execution.token (
          if leb_ℤ c.execution.timeout_seconds (pos 0)
          then pos 30
          else c.execution.timeout_seconds));
  }

  built-http :
      (c : Config)
      → c.execution.mode ≡ "http"
      → IsHttpReady c
      → build_execution connect c
        ≡ ok (record {
          approval_enabled = c.approval.enabled;
          restart_tool = http_tool c;
          gatherer = prometheus (new_prometheus_gatherer c.prometheus.url c.verification.queries);
          verify_config = run_config c.verification;
        })
  unfolding build_execution build_tool build_gatherer new_http_executor
  built-http c mode ready =
      let http = (eq_iff c.execution.mode "http").1 mode in
      let prom = (eq_iff c.verification.mode "prometheus").1 ready.2 in
      let url = str_eq-of_ne c.execution.restart_url "" ready.0 in ground (arith, http, prom, url)

  abbrev mock_execution : Config → Gatherer → Execution
  mock_execution c g = record {
    approval_enabled = c.approval.enabled;
    restart_tool = record { allowed_targets = none; http = none };
    gatherer = g;
    verify_config = run_config c.verification;
  }

  built-mock :
      (c : Config)
      → c.execution.mode ≡ "mock"
      → (g : Gatherer) × (build_execution connect c ≡ ok (mock_execution c g))
  unfolding build_execution build_tool build_gatherer
  built-mock c mode =
      let other : str_eq c.execution.mode "http" ≡ false = ap (λ m. str_eq m "http") mode in
      elim (Bool-cases (str_eq c.verification.mode "prometheus")) [
        | inl prom ↦ (
          prometheus (new_prometheus_gatherer c.prometheus.url c.verification.queries),
          ground (arith, other, prom),
        )
        | inr no_prom ↦ (mock, ground (arith, other, no_prom))
      ]

  -- Every configuration that Load returns builds an execution path, whose verification needs at least
  -- one success.
  pub load-built :
      (T : Texts) (S : Surroundings) (c : Config)
      → load T S ≡ ok c
      → (x : Execution) × (build_execution connect c ≡ ok x) × IsStrict x.verify_config
  load-built T S c h =
      let accepted = loaded-IsAccepted T S c h in
      let strict = run_config-IsStrict c.verification accepted.1 in
      elim accepted.0.0 [
        | inl is_mock ↦ let (g, built) = built-mock c is_mock in (mock_execution c g, built, strict)
        | inr is_http ↦ (_, built-http c is_http (accepted.3 is_http), strict)
      ]
