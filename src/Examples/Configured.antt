-- ===== src/Examples/Configured.antt =====
-- A configuration of the real execution path, and who reaches its handlers.
use go_on_call_agent.Prelude.{
  ℕ, String, false, none, some, [], ◌∷◌, ◌≡◌, refl, arith, eq_iff, ◌↔◌, leb,
}
use go_on_call_agent.Prelude.Int.{ℤ, pos}
use go_on_call_agent.Errors.{plain, ok, err}
use go_on_call_agent.Text.{join, trim_space, trim_left, trim_right, is_space, is_blank}
use go_on_call_agent.Text.Parts.{contains}
use go_on_call_agent.Config.{Config, default}
use go_on_call_agent.Config.CsvList.{IsItem, comma, unmarshal, unmarshal-join}
use go_on_call_agent.Config.Validate.{
  Texts, validate, reject, and_then, check_execution_mode, check_verification_mode,
  check_verification, check_rag, check_reranker, check_http,
}
use go_on_call_agent.Config.Validate.Accepted.{IsAccepted, validate_iff}
use go_on_call_agent.Config.Load.{
  Surroundings, IsLoaded, load, expand, parsed, check_mode, override_port, put_port, is_port,
  after_port, fill_mode, validated, load-IsLoaded,
}
use go_on_call_agent.Verifier.{Float64, Metrics}
use go_on_call_agent.Api.Auth.{
  AuthConfig, Request, next, enabled, admin_auth, bearer_token, strip_fold, lower_code,
  token_matches, set_actor,
}
use go_on_call_agent.Api.Router.{serve, approve_approval, group, guard}
use go_on_call_agent.Api.Router.Access.{IsAllowed, admin_context, serve_iff}
use go_on_call_agent.Deployment.{HttpExecutor, broken}
use go_on_call_agent.Verifier.Gatherer.{
  PrometheusGatherer, Exchange, quoted_number, number, gather, query_scalar, read_body, read_answer,
  first_value, read_value, finite,
}
use go_on_call_agent.Verifier.Gatherer.Measured.{IsMeasured, gather-IsMeasured}
use go_on_call_agent.Bootstrap.{prometheus}

abbrev texts : Texts
texts = record { lower = λ s. s; quoted = λ s. s; decimal = λ n. "3" }

abbrev real : Config
real = record default {
  server = record { host = "0.0.0.0"; port = pos 8082 };
  llm = record { provider = "openai"; base_url = "http://llm"; api_key = "k"; model = "m" };
  postgres = record { dsn = "postgres://db" };
  rabbit_mq = record { url = "amqp://mq"; management_url = ""; username = ""; password = "" };
  prometheus = record { url = "http://prom/" };
  auth = record { webhook_token = "w"; read_token = "r"; admin_token = "a"; admin_actor = "ops" };
  execution = record {
    mode = "http";
    restart_url = "http://deploy";
    token = "t";
    allowed_targets = "worker-a" ∷ "worker-b" ∷ [];
    timeout_seconds = pos 30;
  };
  verification = record default.verification { mode = "prometheus" };
}

abbrev surroundings : Surroundings
surroundings = record {
  read_file = ok "execution: {mode: http}";
  expand_env = λ s. s;
  unmarshal = λ s c. ok real;
  explicit_mode = λ s. ok (some "http");
  server_port = "8082";
  atoi = λ s. ok (pos 8082);
}

accepted : validate texts real ≡ none
unfolding validate and_then reject check_execution_mode check_verification_mode check_verification
    check_rag check_reranker check_http
accepted = refl

loaded : load texts surroundings ≡ ok real
unfolding load expand parsed check_mode override_port put_port is_port after_port fill_mode
    validated validate and_then reject check_execution_mode check_verification_mode
    check_verification check_rag check_reranker check_http trim_space trim_left trim_right is_space
    is_blank
loaded = refl

validate_iff_example : IsAccepted texts real
validate_iff_example = (validate_iff texts real).0 accepted

load-IsLoaded_example : IsLoaded texts surroundings real
load-IsLoaded_example = load-IsLoaded texts surroundings real loaded

abbrev connect : String → String → ℤ → HttpExecutor
connect url token timeout = record { send = λ id action arguments. broken (plain "down") }

item : IsItem "worker-a"
unfolding contains trim_space trim_left trim_right is_space is_blank
item = record {
  no_comma = refl;
  trimmed = refl;
  not_empty = λ e. ground (arith, (eq_iff "worker-a" "").1 e);
}

unmarshal-join_example :
    unmarshal (ok (join comma ("worker-a" ∷ "worker-a" ∷ []))) (err (plain "no list"))
    ≡ ok ("worker-a" ∷ "worker-a" ∷ [])
unmarshal-join_example =
    unmarshal-join ("worker-a" ∷ "worker-a" ∷ []) (err (plain "no list")) (item, (item, tt))

abbrev floats : Float64
floats = record {
  Carrier = ℕ;
  le = leb;
  nought = 0;
  one_percent = 10;
  decimal = λ n. "0";
  fixed = λ x. "0";
}

abbrev exchange : Exchange floats
exchange = record {
  query_escape = λ s. s;
  get = λ url. ok (200, "{}");
  decode = λ body.
      ok (record { status = "success"; samples = (number 1 ∷ quoted_number "3" ∷ []) ∷ [] });
  parse_float = λ s. ok 3;
  is_nan = λ x. false;
  is_inf = λ x. false;
  to_int = pos;
  quoted = λ s. s;
  status_text = λ n. "200";
  shown = λ x. "3";
}

abbrev gatherer : PrometheusGatherer
gatherer = record { base_url = "http://prom"; queries = real.verification.queries }

abbrev metrics : Metrics floats
metrics = record { consumer_count = pos 3; queue_depth = pos 3; error_rate = 3 }

gathered : gather floats exchange gatherer ≡ ok metrics
unfolding gather query_scalar read_body read_answer first_value read_value finite
gathered = refl

gather-IsMeasured_example :
    (consumers : ℕ) × (depth : ℕ) × IsMeasured floats exchange gatherer gatherer.queries.consumers
      consumers
    × (pos 3 ≡ pos consumers)
    × IsMeasured floats exchange gatherer gatherer.queries.queue_depth depth
    × (pos 3 ≡ pos depth)
    × IsMeasured floats exchange gatherer gatherer.queries.error_rate 3
gather-IsMeasured_example = gather-IsMeasured floats exchange gatherer metrics gathered

-- The configured tokens, and a request with the admin token.
abbrev auth : AuthConfig
auth = record { webhook_token = "w"; read_token = "r"; admin_token = "a"; admin_actor = "ops" }

abbrev by_admin : Request
by_admin = record { webhook_header = ""; authorization = "Bearer a" }

serve_iff_example :
    (serve auth approve_approval by_admin ≡ next (admin_context auth))
    ↔ IsAllowed auth by_admin (admin_context auth) (group approve_approval)
serve_iff_example =
    serve_iff auth approve_approval by_admin (admin_context auth) (unfold enabled in refl)

admin_served : serve auth approve_approval by_admin ≡ next (admin_context auth)
unfolding serve group guard enabled admin_auth bearer_token strip_fold lower_code token_matches
    set_actor trim_space trim_left trim_right is_space is_blank
admin_served = refl
