-- ===== src/Config/Sample.antt =====
-- A configuration of two agents for the tests: "a" falls back to "b".
use progo_a2a.Prelude.{
  String, ◌≡◌, refl, true, false, Option, some, List, [], ◌∷◌, ok, err, is_blank, rune_count,
}
use progo_a2a.Prelude.Int.{pos}
use progo_a2a.Config.{AgentConfig, AuthConfig, CustomMapping, Config, WorkerConfig}
use progo_a2a.Config.Agents.{Url}
use progo_a2a.Config.Cycles.{state_of, cyclic_fallback}
use progo_a2a.Config.Validation.{validate, bad_fallbacks}

abbrev pub open_auth : AuthConfig
open_auth = record { auth_type = ""; token = ""; header_name = ""; header_value = "" }

abbrev pub sample_mapping : CustomMapping
sample_mapping = record {
  request = record { method = " post"; headers = []; body_template = "{}" };
  response = record {
    output_path = "$.out";
    status_path = "";
    artifacts_path = "";
    error_path = "";
  };
  stream = record { data_path = ""; done_sentinel = "" };
}

abbrev pub sample_agent : String → String → List String → AgentConfig
sample_agent id agent_type fallbacks = record {
  id = id;
  name = id;
  description = "";
  agent_type = agent_type;
  endpoint = "http://agent/run";
  capabilities = [];
  tags = [];
  timeout_seconds = pos 30;
  retries = pos 2;
  fallback_agent_ids = fallbacks;
  auth = open_auth;
  options = [];
  mapping = some sample_mapping;
}

abbrev pub sample_worker : WorkerConfig
sample_worker = record {
  worker_id = "";
  concurrency = pos 4;
  batch_size = pos 4;
  poll_interval_milliseconds = pos 1000;
  lease_duration_seconds = pos 30;
  renewal_interval_seconds = pos 10;
  retry_backoff_seconds = pos 5;
  drain_timeout_seconds = pos 30;
}

abbrev pub sample_config : List AgentConfig → Config
sample_config agents = record {
  role = "all";
  server = record {
    host = "";
    port = pos 8080;
    read_timeout_seconds = pos 0;
    write_timeout_seconds = pos 0;
    idle_timeout_seconds = pos 0;
  };
  worker = sample_worker;
  security = record {
    enabled = true;
    api_keys = record { key = "k"; client_id = "c"; allowed_agents = "*" ∷ "b" ∷ [] } ∷ [];
  };
  agents = agents;
  storage = record {
    backend = "postgres";
    memory = record { max_tasks = pos 0 };
    postgres = record {
      dsn = "postgres://db";
      max_connections = pos 10;
      min_connections = pos 1;
      max_connection_lifetime_seconds = pos 60;
      max_connection_idle_time_seconds = pos 60;
      health_check_period_seconds = pos 60;
      connect_timeout_seconds = pos 5;
      migrate_on_start = true;
    };
  };
}

abbrev pub two_agents : List AgentConfig
two_agents = sample_agent "a" "openai" ("b" ∷ []) ∷ sample_agent "b" "custom" [] ∷ []

abbrev pub looped_agents : List AgentConfig
looped_agents = sample_agent "a" "openai" ("b" ∷ []) ∷ sample_agent "b" "custom" ("a" ∷ []) ∷ []

abbrev pub parse_sample : String → Option Url
parse_sample s =
    some (record { scheme = "http"; hostname = "agent"; has_user = false; fragment = "" })

pub two_agents-valid : validate parse_sample (sample_config two_agents) ≡ ok tt
unfolding validate is_blank state_of rune_count
two_agents-valid = refl

looped_agents-invalid :
    validate parse_sample (sample_config looped_agents)
    ≡ err (bad_fallbacks (cyclic_fallback ("a" ∷ "b" ∷ []) "a"))
unfolding validate is_blank state_of
looped_agents-invalid = refl
