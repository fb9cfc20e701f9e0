-- ===== src/Config.antt =====
-- The configuration's structs, internal/config/config.go: parsed from YAML (Load) and checked before
-- the program starts (Validate).

pub mod CsvList
pub mod Validate
pub mod Load
use go_on_call_agent.Prelude.{ℕ, String, Bool, true, false, List, []}
use go_on_call_agent.Prelude.Int.{ℤ, pos}

pub record AuthConfig : Type 0 where
  pub webhook_token : String
  pub read_token : String
  pub admin_token : String
  pub admin_actor : String

pub record ExecutionConfig : Type 0 where
  pub mode : String
  pub restart_url : String
  pub token : String
  pub allowed_targets : List String
  pub timeout_seconds : ℤ

pub record ServerConfig : Type 0 where
  pub host : String
  pub port : ℤ

pub record LlmConfig : Type 0 where
  pub provider : String
  pub base_url : String
  pub api_key : String
  pub model : String

pub record EmbeddingConfig : Type 0 where
  pub provider : String
  pub base_url : String
  pub api_key : String
  pub model : String

pub record PostgresConfig : Type 0 where
  pub dsn : String

pub record RedisConfig : Type 0 where
  pub addr : String
  pub password : String
  pub db : ℤ

pub record RabbitMqConfig : Type 0 where
  pub url : String
  pub management_url : String
  pub username : String
  pub password : String

pub record PrometheusConfig : Type 0 where
  pub url : String

pub record QdrantConfig : Type 0 where
  pub url : String
  pub collection : String
  pub dim : ℕ

pub record RerankerConfig : Type 0 where
  pub enabled : Bool
  pub provider : String
  pub base_url : String
  pub api_key : String
  pub model : String

pub record RagConfig : Type 0 where
  pub top_k : ℤ
  pub candidate_k : ℤ
  pub reranker : RerankerConfig

pub record AgentConfig : Type 0 where
  pub max_steps : ℤ
  pub max_tool_calls : ℤ
  pub timeout_seconds : ℤ

pub record ApprovalConfig : Type 0 where
  pub enabled : Bool

pub record VerificationQueries : Type 0 where
  pub consumers : String
  pub queue_depth : String
  pub error_rate : String

pub record VerificationConfig : Type 0 where
  pub mode : String
  pub attempts : ℤ
  pub interval_seconds : ℤ
  pub required_successes : ℤ
  pub queries : VerificationQueries

pub record VectorStoreConfig : Type 0 where
  pub provider : String

pub record ToolConfig : Type 0 where
  pub timeout_seconds : ℤ

pub record Config : Type 0 where
  pub server : ServerConfig
  pub llm : LlmConfig
  pub embedding : EmbeddingConfig
  pub postgres : PostgresConfig
  pub redis : RedisConfig
  pub rabbit_mq : RabbitMqConfig
  pub prometheus : PrometheusConfig
  pub qdrant : QdrantConfig
  pub rag : RagConfig
  pub agent : AgentConfig
  pub approval : ApprovalConfig
  pub auth : AuthConfig
  pub execution : ExecutionConfig
  pub verification : VerificationConfig
  pub vector_store : VectorStoreConfig
  pub tool : ToolConfig

abbrev pub default_verify_attempts : ℤ
default_verify_attempts = pos 3

abbrev pub default_verify_interval_seconds : ℤ
default_verify_interval_seconds = pos 10

abbrev pub default_verify_required_successes : ℤ
default_verify_required_successes = pos 3

abbrev pub execution_mode_mock : String
execution_mode_mock = "mock"

abbrev pub execution_mode_http : String
execution_mode_http = "http"

abbrev pub reranker_provider_tei : String
reranker_provider_tei = "tei"

abbrev pub reranker_provider_qwen : String
reranker_provider_qwen = "qwen"

-- Default
abbrev pub default : Config
default = record {
  server = record { host = "0.0.0.0"; port = pos 8080 };
  llm = record { provider = "openai"; base_url = ""; api_key = ""; model = "" };
  embedding = record {
    provider = "openai";
    base_url = "";
    api_key = "";
    model = "nomic-embed-text:latest";
  };
  postgres = record { dsn = "" };
  redis = record { addr = ""; password = ""; db = pos 0 };
  rabbit_mq = record { url = ""; management_url = ""; username = ""; password = "" };
  prometheus = record { url = "" };
  qdrant = record { url = ""; collection = "gooncall_knowledge"; dim = 768 };
  rag = record {
    top_k = pos 8;
    candidate_k = pos 20;
    reranker = record {
      enabled = false;
      provider = reranker_provider_tei;
      base_url = "";
      api_key = "";
      model = "";
    };
  };
  agent = record { max_steps = pos 15; max_tool_calls = pos 20; timeout_seconds = pos 180 };
  approval = record { enabled = true };
  auth = record {
    webhook_token = "";
    read_token = "";
    admin_token = "";
    admin_actor = "gooncall-admin";
  };
  execution = record {
    mode = execution_mode_mock;
    restart_url = "";
    token = "";
    allowed_targets = [];
    timeout_seconds = pos 30;
  };
  verification = record {
    mode = "mock";
    attempts = default_verify_attempts;
    interval_seconds = default_verify_interval_seconds;
    required_successes = default_verify_required_successes;
    queries = record {
      consumers = "sum(rabbitmq_queue_consumers)";
      queue_depth = "sum(rabbitmq_queue_messages_ready)";
      error_rate =
          "sum(rate(http_requests_total{status=~\"5..\"}[1m])) / clamp_min(sum(rate(http_requests_total[1m])), 0.001)";
    };
  };
  vector_store = record { provider = "qdrant" };
  tool = record { timeout_seconds = pos 30 };
}
