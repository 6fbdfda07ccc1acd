-- ===== src/Config/Defaults.antt =====
-- pkg/config/loader.go: `applyDefaults`.
use Prim.Native.String as Str
use progo_a2a.Prelude.{
  ℕ, String, ◌≡◌, refl, true, false, List, [], ◌∷◌, map, str_eq, is_empty, rune_count, ◌⊎◌,
  if◌then◌else◌, Bool-cases, inl, inr, ok, arith,
}
use progo_a2a.Prelude.Int.{ℤ, pos, eq_ℤ}
use progo_a2a.Config.Validator.{is_unset, validate_settings}
use progo_a2a.Config.{
  Config, WorkerConfig, ServerConfig, AgentConfig, StorageConfig, PostgresStorageConfig,
}

-- `if x == 0 { x = n }` and `if s == "" { s = t }`.
unfoldable pub default_int : ℕ → ℤ → ℤ
default_int n x = if eq_ℤ x (pos 0) then pos n else x

unfoldable pub default_text : String → String → String
default_text t s = if is_empty s then t else s

unfoldable pub default_worker : WorkerConfig → WorkerConfig
unfolding default_int
default_worker w = record w {
  concurrency = default_int 10 w.concurrency;
  batch_size = default_int 5 w.batch_size;
  poll_interval_milliseconds = default_int 1000 w.poll_interval_milliseconds;
  lease_duration_seconds = default_int 30 w.lease_duration_seconds;
  renewal_interval_seconds = default_int 10 w.renewal_interval_seconds;
  retry_backoff_seconds = default_int 15 w.retry_backoff_seconds;
  drain_timeout_seconds = default_int 30 w.drain_timeout_seconds;
}

unfoldable pub default_server : ServerConfig → ServerConfig
unfolding default_int default_text
default_server s = record s {
  port = default_int 8080 s.port;
  host = default_text "0.0.0.0" s.host;
  read_timeout_seconds = default_int 30 s.read_timeout_seconds;
  write_timeout_seconds = default_int 120 s.write_timeout_seconds;
  idle_timeout_seconds = default_int 60 s.idle_timeout_seconds;
}

unfoldable pub default_agent : AgentConfig → AgentConfig
unfolding default_int
default_agent a = record a { timeout_seconds = default_int 60 a.timeout_seconds }

unfoldable pub default_postgres : PostgresStorageConfig → PostgresStorageConfig
unfolding default_int
default_postgres p = record p {
  max_connections = default_int 20 p.max_connections;
  min_connections = default_int 2 p.min_connections;
  max_connection_lifetime_seconds = default_int 1800 p.max_connection_lifetime_seconds;
  max_connection_idle_time_seconds = default_int 300 p.max_connection_idle_time_seconds;
  health_check_period_seconds = default_int 30 p.health_check_period_seconds;
  connect_timeout_seconds = default_int 5 p.connect_timeout_seconds;
}

-- The backend decides whose settings get defaults.
unfoldable pub default_storage : StorageConfig → StorageConfig
unfolding default_int default_text default_postgres
default_storage s =
    let backend = default_text "memory" s.backend in
    record {
      backend = backend;
      memory =
          if str_eq backend "memory"
          then record { max_tasks = default_int 10_000 s.memory.max_tasks }
          else s.memory;
      postgres =
          if str_eq backend "memory"
          then s.postgres
          else if str_eq backend "postgres"
          then default_postgres s.postgres
          else s.postgres;
    }

-- `applyDefaults`.
unfoldable pub apply_defaults : Config → Config
unfolding default_text default_worker default_server default_agent default_storage
apply_defaults cfg = record cfg {
  role = default_text "api" cfg.role;
  worker = default_worker cfg.worker;
  server = default_server cfg.server;
  agents = map default_agent cfg.agents;
  storage = default_storage cfg.storage;
}

default_int-default_int : (n : ℕ) (x : ℤ) → default_int n (default_int n x) ≡ default_int n x
unfolding default_int
default_int-default_int n x = elim (Bool-cases (eq_ℤ x (pos 0))) [
  | inl h ↦ rw h (again (Bool-cases (eq_ℤ (pos n) (pos 0))))
  | inr h ↦ rw (h, h) refl
]
  where
    again :
        (eq_ℤ (pos n) (pos 0) ≡ true) ⊎ (eq_ℤ (pos n) (pos 0) ≡ false)
        → (if eq_ℤ (pos n) (pos 0) then pos n else pos n) ≡ pos n
    again (inl q) = rw q refl
    again (inr q) = rw q refl

default_text-default_text : (t s : String) → default_text t (default_text t s) ≡ default_text t s
unfolding default_text
default_text-default_text t s = elim (Bool-cases (is_empty s)) [
  | inl h ↦ rw h (again (Bool-cases (is_empty t)))
  | inr h ↦ rw (h, h) refl
]
  where
    again : (is_empty t ≡ true) ⊎ (is_empty t ≡ false) → (if is_empty t then t else t) ≡ t
    again (inl q) = rw q refl
    again (inr q) = rw q refl

default_worker-default_worker :
    (w : WorkerConfig) → default_worker (default_worker w) ≡ default_worker w
unfolding default_worker
default_worker-default_worker w =
    rw
      (
        default_int-default_int 10 w.concurrency,
        default_int-default_int 5 w.batch_size,
        default_int-default_int 1000 w.poll_interval_milliseconds,
        default_int-default_int 30 w.lease_duration_seconds,
        default_int-default_int 10 w.renewal_interval_seconds,
        default_int-default_int 15 w.retry_backoff_seconds,
        default_int-default_int 30 w.drain_timeout_seconds,
      )
      refl

default_server-default_server :
    (s : ServerConfig) → default_server (default_server s) ≡ default_server s
unfolding default_server
default_server-default_server s =
    rw
      (
        default_int-default_int 8080 s.port,
        default_text-default_text "0.0.0.0" s.host,
        default_int-default_int 30 s.read_timeout_seconds,
        default_int-default_int 120 s.write_timeout_seconds,
        default_int-default_int 60 s.idle_timeout_seconds,
      )
      refl

default_agents-default_agents :
    (agents : List AgentConfig)
    → map default_agent (map default_agent agents) ≡ map default_agent agents
unfolding default_agent
default_agents-default_agents [] = refl
default_agents-default_agents (a ∷ agents) =
    rw (default_int-default_int 60 a.timeout_seconds, default_agents-default_agents agents) refl

default_postgres-default_postgres :
    (p : PostgresStorageConfig) → default_postgres (default_postgres p) ≡ default_postgres p
unfolding default_postgres
default_postgres-default_postgres p =
    rw
      (
        default_int-default_int 20 p.max_connections,
        default_int-default_int 2 p.min_connections,
        default_int-default_int 1800 p.max_connection_lifetime_seconds,
        default_int-default_int 300 p.max_connection_idle_time_seconds,
        default_int-default_int 30 p.health_check_period_seconds,
        default_int-default_int 5 p.connect_timeout_seconds,
      )
      refl

default_storage-default_storage :
    (s : StorageConfig) → default_storage (default_storage s) ≡ default_storage s
unfolding default_storage
default_storage-default_storage s =
    rw (default_text-default_text "memory" s.backend)
      (elim (Bool-cases (str_eq (default_text "memory" s.backend) "memory")) [
        | inl h ↦ rw (h, default_int-default_int 10_000 s.memory.max_tasks) refl
        | inr h ↦ elim (Bool-cases (str_eq (default_text "memory" s.backend) "postgres")) [
          | inl q ↦ rw (h, q, default_postgres-default_postgres s.postgres) refl
          | inr q ↦ rw (h, q) refl
        ]
      ])

-- Applying the defaults again changes nothing: they fill in every setting that they look at at once.
pub apply_defaults-apply_defaults :
    (cfg : Config) → apply_defaults (apply_defaults cfg) ≡ apply_defaults cfg
unfolding apply_defaults
apply_defaults-apply_defaults cfg =
    rw
      (
        default_text-default_text "api" cfg.role,
        default_worker-default_worker cfg.worker,
        default_server-default_server cfg.server,
        default_agents-default_agents cfg.agents,
        default_storage-default_storage cfg.storage,
      )
      refl

empty-rune_count : (s : String) → is_empty s ≡ true → rune_count s ≡ 0
unfolding rune_count
empty-rune_count Str.[] h = refl
empty-rune_count (Str.◌∷◌ c s) h = absurd (ground (arith, h))

-- A configuration without a section on the worker has, after the defaults, settings of the worker that the
-- validation accepts.
pub default_worker-accepted :
    (w : WorkerConfig) → is_unset w ≡ true → validate_settings (default_worker w) ≡ ok tt
unfolding is_unset validate_settings default_worker default_int
default_worker-accepted w h =
    let named : is_empty w.worker_id ≡ true = ground (arith, h) in
    ground (arith, h, named, empty-rune_count w.worker_id named)
