-- ===== src/Config/Sections.antt =====
-- pkg/config/validator.go: the sections of `Validate` on the role, the server, the API keys and the storage.
use progo_a2a.Prelude.{
  ℕ, suc, String, Bool, not, ◌&&◌, ◌||◌, Option, none, some, List, [], ◌∷◌, str_eq, any, is_empty,
  is_blank, if◌then◌else◌, Result, ok, err, ◌>>=◌, fail_if,
}
use progo_a2a.Prelude.Int.{ℤ, pos, ltb_ℤ, leb_ℤ, eq_ℤ}
use progo_a2a.Config.{ApiKeyConfig, SecurityConfig, PostgresStorageConfig, StorageConfig}

-- The role, "api" when it is empty; `none` is a role that is refused.
unfoldable pub role_of : String → Option String
role_of role =
    let r = if is_empty role then "api" else role in
    if str_eq r "api" || str_eq r "worker" || str_eq r "all" then some r else none

abbrev pub runs_worker : String → Bool
runs_worker role = str_eq role "worker" || str_eq role "all"

-- Whether the port is refused: only a server may not have the port 0.
unfoldable pub is_bad_port : String → ℤ → Bool
is_bad_port role port =
    if str_eq role "api" || str_eq role "all"
    then leb_ℤ port (pos 0) || ltb_ℤ (pos 65535) port
    else ltb_ℤ port (pos 0) || ltb_ℤ (pos 65535) port

pub data KeyFault : Type 0 where
  no_keys : KeyFault
  -- with the index of the key
  empty_key duplicate_key : ℕ → KeyFault
  unknown_agent : ℕ → String → KeyFault

-- The loop over the agents that a key allows.
unfoldable pub validate_allowed : List String → ℕ → List String → Result KeyFault Unit
validate_allowed ids i [] = ok tt
validate_allowed ids i (a ∷ allowed) = do
  _ ← fail_if (not (str_eq a "*") && not (any (λ id. str_eq id a) ids)) (unknown_agent i a)
  validate_allowed ids i allowed

-- The loop over the keys, from the index `i`; `seen` are the keys of `seenKeys`.
unfoldable pub validate_keys :
    List String → ℕ → List ApiKeyConfig → List String → Result KeyFault Unit
unfolding validate_allowed
validate_keys ids i [] seen = ok tt
validate_keys ids i (k ∷ keys) seen = do
  _ ← fail_if (is_blank k.key) (empty_key i)
  _ ← fail_if (any (λ other. str_eq other k.key) seen) (duplicate_key i)
  _ ← validate_allowed ids i k.allowed_agents
  validate_keys ids (suc i) keys (k.key ∷ seen)

unfoldable pub validate_security : List String → SecurityConfig → Result KeyFault Unit
unfolding validate_keys
validate_security ids s =
    if s.enabled
    then elim s.api_keys [ [] ↦ err no_keys | k ∷ keys ↦ validate_keys ids 0 (k ∷ keys) [] ]
    else ok tt

pub data StorageSetting : Type 0 where
  postgres_dsn postgres_settings max_tasks memory_settings : StorageSetting
  max_connections min_connections max_lifetime max_idle_time health_check connect_timeout :
      StorageSetting
  storage_backend : StorageSetting

-- `postgresSettings != (PostgresStorageConfig{})`, negated, with its DSN set to the empty text.
unfoldable pub is_postgres_unset : PostgresStorageConfig → Bool
is_postgres_unset p =
    eq_ℤ p.max_connections (pos 0)
    && eq_ℤ p.min_connections (pos 0)
    && eq_ℤ p.max_connection_lifetime_seconds (pos 0)
    && eq_ℤ p.max_connection_idle_time_seconds (pos 0)
    && eq_ℤ p.health_check_period_seconds (pos 0)
    && eq_ℤ p.connect_timeout_seconds (pos 0)
    && not p.migrate_on_start

unfoldable pub validate_memory : StorageConfig → Result StorageSetting Unit
unfolding is_postgres_unset
validate_memory s = do
  _ ← fail_if (not (is_empty s.postgres.dsn)) postgres_dsn
  _ ← fail_if (not (is_postgres_unset s.postgres)) postgres_settings
  fail_if (ltb_ℤ s.memory.max_tasks (pos 0) || ltb_ℤ (pos 1_000_000) s.memory.max_tasks) max_tasks

unfoldable pub validate_postgres : StorageConfig → Result StorageSetting Unit
validate_postgres s =
    let p = s.postgres in
    do
      _ ← fail_if (not (eq_ℤ s.memory.max_tasks (pos 0))) memory_settings
      _ ← fail_if (is_blank p.dsn) postgres_dsn
      _ ←
          fail_if (ltb_ℤ p.max_connections (pos 1) || ltb_ℤ (pos 1000) p.max_connections)
            max_connections
      _ ←
          fail_if (ltb_ℤ p.min_connections (pos 0) || ltb_ℤ p.max_connections p.min_connections)
            min_connections
      _ ← fail_if (leb_ℤ p.max_connection_lifetime_seconds (pos 0)) max_lifetime
      _ ← fail_if (leb_ℤ p.max_connection_idle_time_seconds (pos 0)) max_idle_time
      _ ← fail_if (leb_ℤ p.health_check_period_seconds (pos 0)) health_check
      fail_if (leb_ℤ p.connect_timeout_seconds (pos 0)) connect_timeout

-- The backend, "memory" when it is empty.
abbrev pub backend_of : StorageConfig → String
backend_of s = if is_empty s.backend then "memory" else s.backend

unfoldable pub validate_storage : StorageConfig → Result StorageSetting Unit
unfolding validate_memory validate_postgres
validate_storage s =
    if str_eq (backend_of s) "memory"
    then validate_memory s
    else if str_eq (backend_of s) "postgres"
    then validate_postgres s
    else err storage_backend
