-- ===== src/Config/Validate/Accepted.antt =====
-- What Config.Validate accepts, described without its order of checks.
use go_on_call_agent.Prelude.{
  String, Bool, true, false, Option, none, some, not, str_eq, ◌≡◌, ◌≢◌, ◌↔◌, ◌⊎◌, arith, eq_iff,
  if◌then◌else◌,
}
use go_on_call_agent.Prelude.Int.{pos, leb_ℤ}
use go_on_call_agent.Errors.{Error}
use go_on_call_agent.Text.{trim_space}
use go_on_call_agent.Config.{
  Config, RerankerConfig, VerificationConfig, RagConfig, execution_mode_http,
}
use go_on_call_agent.Config.Validate.{
  Texts, reject, and_then, is_empty, is_nil, check_execution_mode, check_verification_mode,
  check_verification, check_provider, check_reranker, check_rag, check_http, validate,
}

-- What a configuration of the real execution path has.
abbrev pub IsHttpReady : Config → Type 0
IsHttpReady c =
    (c.execution.restart_url ≢ "")
    × (is_nil c.execution.allowed_targets ≡ false)
    × (c.verification.mode ≡ "prometheus")
    × ((c.auth.webhook_token ≢ "") × (c.auth.read_token ≢ "") × (c.auth.admin_token ≢ ""))
    × (c.postgres.dsn ≢ "")
    × (c.rabbit_mq.url ≢ "")
    × ((c.llm.base_url ≢ "") × (c.llm.model ≢ ""))

abbrev pub IsVerification : VerificationConfig → Type 0
IsVerification v =
    (leb_ℤ (pos 1) v.attempts ≡ true)
    × (leb_ℤ (pos 1) v.required_successes ≡ true)
    × (leb_ℤ v.required_successes v.attempts ≡ true)
    × (leb_ℤ (pos 0) v.interval_seconds ≡ true)

abbrev pub IsModes : Config → Type 0
IsModes c =
    ((c.execution.mode ≡ "mock") ⊎ (c.execution.mode ≡ "http"))
    × ((c.verification.mode ≡ "mock")
        ⊎ ((c.verification.mode ≡ "prometheus") × (c.prometheus.url ≢ "")))

-- The provider is left out or "tei", or it is "qwen" with its key and model.
abbrev pub IsProvider : Texts → RerankerConfig → Type 0
IsProvider T r =
    let provider = T.lower (trim_space r.provider) in
    (provider ≡ "")
    ⊎ (provider ≡ "tei")
    ⊎ ((provider ≡ "qwen") × (trim_space r.api_key ≢ "") × (trim_space r.model ≢ ""))

abbrev pub IsReranker : Texts → RerankerConfig → Type 0
IsReranker T r = (r.enabled ≡ false) ⊎ ((trim_space r.base_url ≢ "") × IsProvider T r)

abbrev pub IsRag : Texts → RagConfig → Type 0
IsRag T r =
    (leb_ℤ (pos 1) r.top_k ≡ true) × (leb_ℤ (pos 1) r.candidate_k ≡ true) × IsReranker T r.reranker

abbrev pub IsAccepted : Texts → Config → Type 0
IsAccepted T c =
    IsModes c
    × IsVerification c.verification
    × IsRag T c.rag
    × ((c.execution.mode ≡ "http") → IsHttpReady c)

reject-none :
    (b : Bool) (text : String) (rest : Option Error)
    → (reject b text rest ≡ none) ↔ ((b ≡ false) × (rest ≡ none))
unfolding reject
reject-none b text rest = ground arith

and_then-none : (o rest : Option Error) → (and_then o rest ≡ none) ↔ ((o ≡ none) × (rest ≡ none))
unfolding and_then
and_then-none none rest = ground arith
and_then-none (some e) rest = ground arith

is_empty-false : (s : String) → (is_empty s ≡ false) ↔ (s ≢ "")
is_empty-false s = ground (arith, eq_iff s "")

-- check_http accepts what is ready.
check_http-IsHttpReady : (T : Texts) (c : Config) → (check_http T c ≡ none) ↔ IsHttpReady c
unfolding check_http reject
check_http-IsHttpReady T c = ground (
  arith,
  eq_iff c.verification.mode "prometheus",
  eq_iff c.execution.restart_url "",
  eq_iff c.auth.webhook_token "",
  eq_iff c.auth.read_token "",
  eq_iff c.auth.admin_token "",
  eq_iff c.postgres.dsn "",
  eq_iff c.rabbit_mq.url "",
  eq_iff c.llm.base_url "",
  eq_iff c.llm.model "",
)

check_verification-IsVerification :
    (T : Texts) (v : VerificationConfig) → (check_verification T v ≡ none) ↔ IsVerification v
unfolding check_verification reject
check_verification-IsVerification T v = ground arith

check_execution_mode-IsModes :
    (T : Texts) (c : Config)
    → ((check_execution_mode T c ≡ none) × (check_verification_mode T c ≡ none)) ↔ IsModes c
unfolding check_execution_mode check_verification_mode reject
check_execution_mode-IsModes T c =
    let e = c.execution.mode in
    let v = c.verification.mode in
    ground (
      arith,
      eq_iff e "mock",
      eq_iff e "http",
      eq_iff v "mock",
      eq_iff v "prometheus",
      eq_iff c.prometheus.url "",
    )

check_provider-IsProvider :
    (T : Texts) (r : RerankerConfig) → (check_provider T r ≡ none) ↔ IsProvider T r
unfolding check_provider reject
check_provider-IsProvider T r =
    let provider = T.lower (trim_space r.provider) in
    ground (
      arith,
      eq_iff provider "",
      eq_iff provider "tei",
      eq_iff provider "qwen",
      eq_iff (trim_space r.api_key) "",
      eq_iff (trim_space r.model) "",
    )

check_reranker-IsReranker :
    (T : Texts) (r : RerankerConfig) → (check_reranker T r ≡ none) ↔ IsReranker T r
unfolding check_reranker reject
check_reranker-IsReranker T r =
    ground (arith, check_provider-IsProvider T r, is_empty-false (trim_space r.base_url))

check_rag-IsRag : (T : Texts) (r : RagConfig) → (check_rag T r ≡ none) ↔ IsRag T r
unfolding check_rag reject
check_rag-IsRag T r = ground (arith, check_reranker-IsReranker T r.reranker)

http_part_iff :
    (T : Texts) (c : Config)
    → ((if not (str_eq c.execution.mode execution_mode_http) then none else check_http T c) ≡ none)
      ↔ ((c.execution.mode ≡ "http") → IsHttpReady c)
http_part_iff T c = ground (arith, eq_iff c.execution.mode "http", check_http-IsHttpReady T c)

-- Validate accepts exactly the configurations with known modes, ordered verification counts, positive
-- retrieval sizes, a complete reranker if there is one, and, in the http mode, everything that a real
-- execution path needs.
pub validate_iff : (T : Texts) (c : Config) → (validate T c ≡ none) ↔ IsAccepted T c
unfolding validate
validate_iff T c =
    let http = if not (str_eq c.execution.mode execution_mode_http) then none else check_http T c in
    let rag = and_then (check_rag T c.rag) http in
    let verification = and_then (check_verification T c.verification) rag in
    let modes = and_then (check_verification_mode T c) verification in
    ground (
      arith,
      and_then-none (check_execution_mode T c) modes,
      and_then-none (check_verification_mode T c) verification,
      and_then-none (check_verification T c.verification) rag,
      and_then-none (check_rag T c.rag) http,
      check_execution_mode-IsModes T c,
      check_verification-IsVerification T c.verification,
      check_rag-IsRag T c.rag,
      http_part_iff T c,
    )
