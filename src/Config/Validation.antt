-- ===== src/Config/Validation.antt =====
-- pkg/config/validator.go: `Validate` as a whole.
use progo_a2a.Prelude.{String, Option, [], Result, ◌>>=◌, fail_if, map_err, of_option}
use progo_a2a.Config.{Config}
use progo_a2a.Config.Agents.{Url, AgentSetting, validate_agents}
use progo_a2a.Config.Sections.{
  role_of, runs_worker, is_bad_port, KeyFault, validate_security, StorageSetting, backend_of,
  validate_storage,
}
use progo_a2a.Config.Cycles.{FallbackFault, validate_fallbacks}
use progo_a2a.Config.Validator.{WorkerSetting, validate_worker}

-- The errors of `Validate`, by the part of the configuration.
pub data Invalid : Type 0 where
  bad_role bad_port : Invalid
  bad_agent : String × AgentSetting → Invalid
  bad_keys : KeyFault → Invalid
  bad_fallbacks : FallbackFault → Invalid
  bad_storage : StorageSetting → Invalid
  bad_worker : WorkerSetting → Invalid

-- `Validate`, with a function for `url.Parse`.
unfoldable pub validate : (String → Option Url) → Config → Result Invalid Unit
unfolding role_of is_bad_port validate_agents validate_security validate_fallbacks validate_storage
    validate_worker
validate parse cfg = do
  role ← of_option bad_role (role_of cfg.role)
  _ ← fail_if (is_bad_port role cfg.server.port) bad_port
  ids ← map_err bad_agent (validate_agents parse cfg.agents [])
  _ ← map_err bad_keys (validate_security ids cfg.security)
  _ ← map_err bad_fallbacks (validate_fallbacks ids cfg.agents)
  _ ← map_err bad_storage (validate_storage cfg.storage)
  map_err bad_worker (validate_worker (runs_worker role) (backend_of cfg.storage) cfg.worker)
