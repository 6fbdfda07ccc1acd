-- ===== src/Worker/Guards.antt =====
-- The guards that `Engine.Run` of pkg/worker/worker.go starts with, against those of the configuration.
use progo_a2a.Prelude.{
  ◌+◌, ◌≤◌, ◌<◌, String, ◌≡◌, Bool, true, false, is_empty, is_blank, rune_count, ltb, Result, ok,
  ◌>>=◌, fail_if, arith,
}
use progo_a2a.Prelude.Int.{pos, ltb_ℤ, leb_ℤ, half, pos_part}
use progo_a2a.Job.{max_lease_owner_length}
use progo_a2a.Config.{WorkerConfig}
use progo_a2a.Config.Validator.{
  WorkerSetting, worker_id, concurrency, batch_size, poll_interval, lease_duration,
  renewal_interval, retry_backoff, drain_timeout, max_poll_interval_milliseconds,
  max_drain_timeout_seconds, max_job_batch_size, max_job_lease_seconds, max_retry_backoff_seconds,
  validate_settings,
}

-- What `Run` uses: whether its context, the repository and the executor are nil, the settings and the worker id.
pub record Engine : Type 0 where
  pub nil_context : Bool
  pub nil_repository : Bool
  pub nil_executor : Bool
  pub cfg : WorkerConfig
  pub worker_id : String

pub data RunError : Type 0 where
  nil_argument : RunError
  setting : WorkerSetting → RunError

-- The guards of `Run`.
unfoldable pub check_engine : Engine → Result RunError Unit
check_engine e = do
  _ ← fail_if e.nil_context nil_argument
  _ ← fail_if e.nil_repository nil_argument
  _ ← fail_if e.nil_executor nil_argument
  _ ← fail_if (leb_ℤ e.cfg.concurrency (pos 0)) (setting concurrency)
  _ ← fail_if (ltb_ℤ (pos max_job_batch_size) e.cfg.concurrency) (setting concurrency)
  _ ← fail_if (leb_ℤ e.cfg.batch_size (pos 0)) (setting batch_size)
  _ ← fail_if (ltb_ℤ (pos max_job_batch_size) e.cfg.batch_size) (setting batch_size)
  _ ← fail_if (ltb_ℤ e.cfg.concurrency e.cfg.batch_size) (setting batch_size)
  _ ← fail_if (leb_ℤ e.cfg.poll_interval_milliseconds (pos 0)) (setting poll_interval)
  _ ←
      fail_if (ltb_ℤ (pos max_poll_interval_milliseconds) e.cfg.poll_interval_milliseconds)
        (setting poll_interval)
  _ ← fail_if (ltb_ℤ e.cfg.lease_duration_seconds (pos 2)) (setting lease_duration)
  _ ←
      fail_if (ltb_ℤ (pos max_job_lease_seconds) e.cfg.lease_duration_seconds)
        (setting lease_duration)
  _ ← fail_if (leb_ℤ e.cfg.renewal_interval_seconds (pos 0)) (setting renewal_interval)
  _ ←
      fail_if (ltb_ℤ (half e.cfg.lease_duration_seconds) e.cfg.renewal_interval_seconds)
        (setting renewal_interval)
  _ ← fail_if (leb_ℤ e.cfg.retry_backoff_seconds (pos 0)) (setting retry_backoff)
  _ ←
      fail_if (ltb_ℤ (pos max_retry_backoff_seconds) e.cfg.retry_backoff_seconds)
        (setting retry_backoff)
  _ ← fail_if (leb_ℤ e.cfg.drain_timeout_seconds (pos 0)) (setting drain_timeout)
  _ ←
      fail_if (ltb_ℤ (pos max_drain_timeout_seconds) e.cfg.drain_timeout_seconds)
        (setting drain_timeout)
  _ ← fail_if (is_blank e.worker_id) (setting worker_id)
  fail_if (ltb max_lease_owner_length (rune_count e.worker_id)) (setting worker_id)

-- `NewEngine`: an empty worker id gives way to one that the process makes.
unfoldable pub new_engine : WorkerConfig → String → Bool → Bool → Bool → Engine
new_engine cfg generated nil_context nil_repository nil_executor = record {
  nil_context = nil_context;
  nil_repository = nil_repository;
  nil_executor = nil_executor;
  cfg = cfg;
  worker_id = elim (is_empty cfg.worker_id) [ true ↦ generated | false ↦ cfg.worker_id ];
}

-- An engine made of settings that the validation of the configuration accepts passes every guard of `Run`, when it has a
-- context, a repository and an executor and the generated worker id is neither blank nor too long.
pub new_engine-checked :
    (cfg : WorkerConfig) (generated : String)
    → validate_settings cfg ≡ ok tt
    → is_blank generated ≡ false
    → rune_count generated ≤ max_lease_owner_length
    → check_engine (new_engine cfg generated false false false) ≡ ok tt
unfolding validate_settings check_engine new_engine
new_engine-checked cfg generated v b n = ground (arith, v, b, n)

-- An engine that passes the guards renews each lease in time: the renewal interval is positive and twice the interval fits in the
-- lease, and a batch is never empty nor larger than what may run at once.
pub checked-renewal :
    (e : Engine)
    → check_engine e ≡ ok tt
    → (0 < pos_part e.cfg.renewal_interval_seconds)
      × (pos_part e.cfg.renewal_interval_seconds + pos_part e.cfg.renewal_interval_seconds
          ≤ pos_part e.cfg.lease_duration_seconds)
      × (0 < pos_part e.cfg.batch_size)
      × (pos_part e.cfg.batch_size ≤ pos_part e.cfg.concurrency)
unfolding check_engine
checked-renewal e h = ground (arith, h)
