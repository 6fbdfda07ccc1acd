-- ===== src/Config.antt =====
-- pkg/config/config.go: the configuration of the proxy. A Go `int` or `time.Duration` is an integer.
pub mod Validator
pub mod Agents
pub mod Sections
pub mod Cycles
pub mod Validation
pub mod Accepted
pub mod Defaults
pub mod Sample
mod Examples
use progo_a2a.Prelude.{String, Bool, Option, List}
use progo_a2a.Prelude.Int.{ℤ}
use progo_a2a.Prelude.Dict.{Dict}
use progo_a2a.A2a.{Json}

pub record ServerConfig : Type 0 where
  pub host : String
  pub port : ℤ
  pub read_timeout_seconds : ℤ
  pub write_timeout_seconds : ℤ
  pub idle_timeout_seconds : ℤ

pub record ApiKeyConfig : Type 0 where
  pub key : String
  pub client_id : String
  pub allowed_agents : List String

pub record SecurityConfig : Type 0 where
  pub enabled : Bool
  pub api_keys : List ApiKeyConfig

pub record AuthConfig : Type 0 where
  pub auth_type : String
  pub token : String
  pub header_name : String
  pub header_value : String

pub record RequestTemplate : Type 0 where
  pub method : String
  pub headers : Dict String
  pub body_template : String

pub record ResponseMapping : Type 0 where
  pub output_path : String
  pub status_path : String
  pub artifacts_path : String
  pub error_path : String

pub record StreamMapping : Type 0 where
  pub data_path : String
  pub done_sentinel : String

pub record CustomMapping : Type 0 where
  pub request : RequestTemplate
  pub response : ResponseMapping
  pub stream : StreamMapping

pub record AgentConfig : Type 0 where
  pub id : String
  pub name : String
  pub description : String
  pub agent_type : String
  pub endpoint : String
  pub capabilities : List String
  pub tags : List String
  pub timeout_seconds : ℤ
  pub retries : ℤ
  pub fallback_agent_ids : List String
  pub auth : AuthConfig
  pub options : Dict Json
  pub mapping : Option CustomMapping

pub record MemoryStorageConfig : Type 0 where
  pub max_tasks : ℤ

pub record PostgresStorageConfig : Type 0 where
  pub dsn : String
  pub max_connections : ℤ
  pub min_connections : ℤ
  pub max_connection_lifetime_seconds : ℤ
  pub max_connection_idle_time_seconds : ℤ
  pub health_check_period_seconds : ℤ
  pub connect_timeout_seconds : ℤ
  pub migrate_on_start : Bool

pub record StorageConfig : Type 0 where
  pub backend : String
  pub memory : MemoryStorageConfig
  pub postgres : PostgresStorageConfig

pub record WorkerConfig : Type 0 where
  pub worker_id : String
  pub concurrency : ℤ
  pub batch_size : ℤ
  pub poll_interval_milliseconds : ℤ
  pub lease_duration_seconds : ℤ
  pub renewal_interval_seconds : ℤ
  pub retry_backoff_seconds : ℤ
  pub drain_timeout_seconds : ℤ

pub record Config : Type 0 where
  pub role : String
  pub server : ServerConfig
  pub worker : WorkerConfig
  pub security : SecurityConfig
  pub agents : List AgentConfig
  pub storage : StorageConfig
