-- ===== src/Verifier/Gatherer.antt =====
-- internal/execution/verifier/gatherer.go: the metrics of a verification as Prometheus gives them. The
-- HTTP exchange, JSON and the reading of floats come from outside.
pub mod Measured
use Prim.Native.Char.{code}
use go_on_call_agent.Prelude.{
  ℕ, String, Bool, true, false, Option, none, some, List, [], ◌∷◌, ◌==◌, ◌&&◌, ◌||◌, str_eq, not,
  ◌<>◌, ◌≡◌, ◌↔◌, ◌≢◌, ◌⊎◌, inl, inr, refl, ap, sym, arith, Bool-cases, if◌then◌else◌, eq_iff,
}
use go_on_call_agent.Prelude.Int.{ℤ, pos}
use go_on_call_agent.Errors.{Error, plain, wrap, Result, ok, err, Result-cases, ◌>>=◌, bind-of_ok}
use go_on_call_agent.Verifier.{Float64, Metrics}
use go_on_call_agent.Config.{VerificationQueries}

-- strings.TrimRight(s, "/")
unfoldable pub trim_slashes : String → String
trim_slashes String.[] = ""
trim_slashes (String.◌∷◌ c s) =
    let rest = trim_slashes s in if (code c == 47) && str_eq rest "" then "" else String.◌∷◌ c rest

pub record PrometheusGatherer : Type 0 where
  pub base_url : String
  pub queries : VerificationQueries

-- DefaultQueries
abbrev pub default_queries : VerificationQueries
default_queries = record {
  consumers = "sum(rabbitmq_queue_consumers)";
  queue_depth = "sum(rabbitmq_queue_messages_ready)";
  error_rate =
      "sum(rate(http_requests_total{status=~\"5..\"}[1m])) / clamp_min(sum(rate(http_requests_total[1m])), 0.001)";
}

abbrev pub or_else : String → String → String
or_else s t = if str_eq s "" then t else s

-- NewPrometheusGatherer
unfoldable pub new_prometheus_gatherer : String → VerificationQueries → PrometheusGatherer
new_prometheus_gatherer base_url queries = record {
  base_url = trim_slashes base_url;
  queries = record {
    consumers = or_else queries.consumers default_queries.consumers;
    queue_depth = or_else queries.queue_depth default_queries.queue_depth;
    error_rate = or_else queries.error_rate default_queries.error_rate;
  };
}

module _ (F : Float64) where
  open F use {Carrier}

  -- A JSON value of a sample: a text, a number, or something else with its Go type.
  pub data SampleValue : Type 0 where
    quoted_number : String → SampleValue
    number : Carrier → SampleValue
    other : String → SampleValue

  -- The parts of the answer's JSON that are read: the status, and each sample's values.
  pub record Answer : Type 0 where
    pub status : String
    pub samples : List (List SampleValue)

  -- What the query gets from outside: the request up to its body, with an error of the request, of the
  -- exchange or of the reading; json.Unmarshal; strconv.ParseFloat; math.IsNaN and IsInf; the
  -- conversion to an int; fmt's verbs.
  pub record Exchange : Type 0 where
    pub query_escape : String → String
    pub get : String → Result (ℕ × String)
    pub decode : String → Result Answer
    pub parse_float : String → Result Carrier
    pub is_nan : Carrier → Bool
    pub is_inf : Carrier → Bool
    pub to_int : Carrier → ℤ
    pub quoted : String → String
    pub status_text : ℕ → String
    pub shown : Carrier → String

  module _ (X : Exchange) where
    open X use {
      query_escape, get, decode, parse_float, is_nan, is_inf, to_int, quoted, status_text, shown,
    }

    -- The switch on the type of the sample's second value.
    unfoldable pub read_value : String → SampleValue → Result Carrier
    read_value query (quoted_number s) = elim (parse_float s) [
      | ok v ↦ ok v
      | err e ↦ err (
          wrap ("parse prometheus value " <> quoted s <> " of query " <> quoted query <> ": ") e "")
    ]
    read_value query (number v) = ok v
    read_value query (other t) =
        err (plain ("unexpected prometheus value type " <> t <> " for query " <> quoted query))

    -- The last check: no value that is not finite.
    unfoldable pub finite : String → Result Carrier → Result Carrier
    finite query (err e) = err e
    finite query (ok v) =
        if is_nan v || is_inf v
        then err (
            plain ("prometheus query " <> quoted query <> " returned non-finite value " <> shown v))
        else ok v

    -- The first sample's second value; anything shorter is no data.
    unfoldable pub first_value : String → List (List SampleValue) → Result Carrier
    first_value query ((t ∷ v ∷ rest) ∷ samples) = finite query (read_value query v)
    first_value query _ = err (plain ("prometheus query " <> quoted query <> " returned no data"))

    unfoldable pub read_answer : String → Result Answer → Result Carrier
    read_answer query (err e) = err e
    read_answer query (ok a) =
        if not (str_eq a.status "success")
        then err
            (plain ("prometheus query " <> quoted query <> " failed: status " <> quoted a.status))
        else first_value query a.samples

    unfoldable pub read_body : String → Result (ℕ × String) → Result Carrier
    read_body query (err e) = err e
    read_body query (ok (status, body)) =
        if not (status == 200)
        then err (plain ("prometheus status " <> status_text status <> ": " <> body))
        else read_answer query (decode body)

    -- queryScalar
    unfoldable pub query_scalar : PrometheusGatherer → String → Result Carrier
    query_scalar g query =
        read_body query (get (g.base_url <> "/api/v1/query?query=" <> query_escape query))

    -- Gather
    unfoldable pub gather : PrometheusGatherer → Result (Metrics F)
    gather g = do
      consumers ← query_scalar g g.queries.consumers
      depth ← query_scalar g g.queries.queue_depth
      error_rate ← query_scalar g g.queries.error_rate
      ok (record {
        consumer_count = to_int consumers;
        queue_depth = to_int depth;
        error_rate = error_rate;
      })
