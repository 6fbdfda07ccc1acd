-- ===== src/Config/Examples.antt =====
-- The theorems of the configuration at a configuration without settings.
use progo_a2a.Prelude.{refl, false, []}
use progo_a2a.Prelude.Int.{pos}
use progo_a2a.Config.{Config, WorkerConfig}
use progo_a2a.Config.Accepted.{Accepted, validate-Accepted}
use progo_a2a.Config.Cycles.{validate_fallbacks}
use progo_a2a.Config.Cycles.References.{ids_of}
use progo_a2a.Config.Cycles.Verdict.{Verdict, validate_fallbacks-Verdict}
use progo_a2a.Config.Sample.{
  sample_config, two_agents, looped_agents, parse_sample, two_agents-valid,
}

abbrev unset : WorkerConfig
unset = record {
  worker_id = "";
  concurrency = pos 0;
  batch_size = pos 0;
  poll_interval_milliseconds = pos 0;
  lease_duration_seconds = pos 0;
  renewal_interval_seconds = pos 0;
  retry_backoff_seconds = pos 0;
  drain_timeout_seconds = pos 0;
}

abbrev plain : Config
plain = record {
  role = "";
  server = record {
    host = "";
    port = pos 0;
    read_timeout_seconds = pos 0;
    write_timeout_seconds = pos 0;
    idle_timeout_seconds = pos 0;
  };
  worker = unset;
  security = record { enabled = false; api_keys = [] };
  agents = [];
  storage = record {
    backend = "";
    memory = record { max_tasks = pos 0 };
    postgres = record {
      dsn = "";
      max_connections = pos 0;
      min_connections = pos 0;
      max_connection_lifetime_seconds = pos 0;
      max_connection_idle_time_seconds = pos 0;
      health_check_period_seconds = pos 0;
      connect_timeout_seconds = pos 0;
      migrate_on_start = false;
    };
  };
}

validate-Accepted_example : Accepted (sample_config two_agents)
validate-Accepted_example =
    validate-Accepted parse_sample (sample_config two_agents) two_agents-valid

validate_fallbacks-Verdict_example :
    Verdict looped_agents (validate_fallbacks (ids_of looped_agents) looped_agents)
validate_fallbacks-Verdict_example = validate_fallbacks-Verdict looped_agents (refl, (refl, tt))
