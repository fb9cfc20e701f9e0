-- ===== src/Config/Validate.antt =====
-- Config.Validate: the combinations of values that the program refuses to start with.
pub mod Accepted
use go_on_call_agent.Prelude.{
  ℕ, String, Bool, true, false, Option, none, some, List, [], ◌∷◌, ◌&&◌, ◌||◌, not, str_eq, ◌<>◌,
  ◌≡◌, ◌≢◌, ◌↔◌, ◌⊎◌, inl, inr, arith, if◌then◌else◌, eq_iff,
}
use go_on_call_agent.Prelude.Int.{ℤ, pos, leb_ℤ}
use go_on_call_agent.Errors.{Error, plain}
use go_on_call_agent.Text.{trim_space}
use go_on_call_agent.Config.{
  Config, RerankerConfig, VerificationConfig, RagConfig, execution_mode_mock, execution_mode_http,
  reranker_provider_tei, reranker_provider_qwen,
}

-- strings.ToLower, and fmt's verbs %q and %d.
pub record Texts : Type 0 where
  pub lower : String → String
  pub quoted : String → String
  pub decimal : ℤ → String

-- if b { return fmt.Errorf(text) }
unfoldable pub reject : Bool → String → Option Error → Option Error
reject b text rest = if b then some (plain text) else rest

-- A check that goes on where it returns no error.
unfoldable pub and_then : Option Error → Option Error → Option Error
and_then none rest = rest
and_then (some e) rest = some e

abbrev pub is_empty : String → Bool
is_empty s = str_eq s ""

abbrev pub is_nil {ℓ} : {A : Type ℓ} → List A → Bool
is_nil [] = true
is_nil (x ∷ xs) = false

module _ (T : Texts) where
  open T use {lower, quoted, decimal}

  -- The switch on the execution mode.
  unfoldable pub check_execution_mode : Config → Option Error
  unfolding reject
  check_execution_mode c =
      let mode = c.execution.mode in
      reject (not (str_eq mode execution_mode_mock) && not (str_eq mode execution_mode_http))
        ("execution.mode "
          <> quoted mode
          <> " is invalid, want "
          <> quoted execution_mode_mock
          <> " or "
          <> quoted execution_mode_http)
        none

  -- The switch on the verification mode.
  unfoldable pub check_verification_mode : Config → Option Error
  check_verification_mode c =
      let mode = c.verification.mode in
      if str_eq mode "mock"
      then none
      else if str_eq mode "prometheus"
      then reject (is_empty c.prometheus.url) "verification.mode=prometheus requires prometheus.url"
          none
      else some (
          plain
            ("verification.mode " <> quoted mode <> " is invalid, want \"mock\" or \"prometheus\""))

  -- The bounds of the verification's counts.
  unfoldable pub check_verification : VerificationConfig → Option Error
  check_verification v =
      reject (not (leb_ℤ (pos 1) v.attempts)) "verification.attempts must be >= 1" (
        reject (not (leb_ℤ (pos 1) v.required_successes))
          "verification.required_successes must be >= 1"
          (reject (not (leb_ℤ v.required_successes v.attempts))
            ("verification.required_successes ("
              <> decimal v.required_successes
              <> ") must not exceed verification.attempts ("
              <> decimal v.attempts
              <> ")")
            (reject (not (leb_ℤ (pos 0) v.interval_seconds))
              "verification.interval_seconds must be >= 0" none)))

  -- The switch on the reranker's provider.
  unfoldable pub check_provider : RerankerConfig → Option Error
  check_provider r =
      let provider = lower (trim_space r.provider) in
      if is_empty provider || str_eq provider reranker_provider_tei
      then none
      else if str_eq provider reranker_provider_qwen
      then reject (is_empty (trim_space r.api_key))
          "rag.reranker.api_key is required when reranker.provider=qwen"
          (reject (is_empty (trim_space r.model))
            "rag.reranker.model is required when reranker.provider=qwen" none)
      else some (plain "rag.reranker.provider must be tei or qwen")

  unfoldable pub check_reranker : RerankerConfig → Option Error
  check_reranker r =
      if r.enabled
      then reject (is_empty (trim_space r.base_url))
          "rag.reranker.base_url is required when reranker is enabled" (check_provider r)
      else none

  unfoldable pub check_rag : RagConfig → Option Error
  check_rag r = reject (not (leb_ℤ (pos 1) r.top_k)) "rag.top_k must be >= 1" (
      reject (not (leb_ℤ (pos 1) r.candidate_k)) "rag.candidate_k must be >= 1"
        (check_reranker r.reranker))

  -- What a real execution path needs.
  unfoldable pub check_http : Config → Option Error
  check_http c =
      reject (is_empty c.execution.restart_url)
        ("execution.restart_url is required when execution.mode=" <> execution_mode_http)
        (reject (is_nil c.execution.allowed_targets)
          ("execution.allowed_targets is required when execution.mode=" <> execution_mode_http)
          (reject (not (str_eq c.verification.mode "prometheus"))
            ("execution.mode=" <> execution_mode_http
              <> " requires verification.mode=prometheus (mock verification must not close a real incident)")
            (reject
              (is_empty c.auth.webhook_token
                || is_empty c.auth.read_token
                || is_empty c.auth.admin_token)
              ("auth.webhook_token, auth.read_token and auth.admin_token are required when execution.mode="
                <> execution_mode_http)
              (reject (is_empty c.postgres.dsn)
                ("postgres.dsn is required when execution.mode=" <> execution_mode_http)
                (reject (is_empty c.rabbit_mq.url)
                  ("rabbitmq.url is required when execution.mode=" <> execution_mode_http)
                  (reject (is_empty c.llm.base_url || is_empty c.llm.model)
                    ("llm.base_url and llm.model are required when execution.mode="
                      <> execution_mode_http)
                    none))))))

  -- Validate
  unfoldable pub validate : Config → Option Error
  validate c = and_then (check_execution_mode c) (
      and_then (check_verification_mode c) (
        and_then (check_verification c.verification) (
          and_then (check_rag c.rag)
            (if not (str_eq c.execution.mode execution_mode_http) then none else check_http c))))
