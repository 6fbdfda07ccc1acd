-- ===== src/Config/Validator.antt =====
-- pkg/config/validator.go, the section on the worker of `Validate`, and the test on header names.
use progo_a2a.Prelude.{
  ℕ, String, Bool, ◌&&◌, ◌||◌, not, ltb, str_eq, is_empty, is_blank, rune_count, if◌then◌else◌,
  Result, ok, ◌>>=◌, fail_if,
}
use progo_a2a.Prelude.Int.{pos, ltb_ℤ, leb_ℤ, eq_ℤ, half}
use progo_a2a.Job.{max_lease_owner_length}
use progo_a2a.Config.{WorkerConfig}

pub data WorkerSetting : Type 0 where
  storage_backend worker_id concurrency batch_size poll_interval lease_duration : WorkerSetting
  renewal_interval retry_backoff drain_timeout : WorkerSetting

abbrev pub max_poll_interval_milliseconds : ℕ
max_poll_interval_milliseconds = 600_000

abbrev pub max_drain_timeout_seconds : ℕ
max_drain_timeout_seconds = 3600

abbrev pub max_job_batch_size : ℕ
max_job_batch_size = 1000

-- 24 hours and 7 days, in seconds.
abbrev pub max_job_lease_seconds : ℕ
max_job_lease_seconds = 86_400

abbrev pub max_retry_backoff_seconds : ℕ
max_retry_backoff_seconds = 604_800

-- The test `cfg.Worker != (WorkerConfig{})`, negated.
unfoldable pub is_unset : WorkerConfig → Bool
is_unset w =
    is_empty w.worker_id
    && eq_ℤ w.concurrency (pos 0)
    && eq_ℤ w.batch_size (pos 0)
    && eq_ℤ w.poll_interval_milliseconds (pos 0)
    && eq_ℤ w.lease_duration_seconds (pos 0)
    && eq_ℤ w.renewal_interval_seconds (pos 0)
    && eq_ℤ w.retry_backoff_seconds (pos 0)
    && eq_ℤ w.drain_timeout_seconds (pos 0)

-- The tests on the settings of the worker, with the setting that is refused.
unfoldable pub validate_settings : WorkerConfig → Result WorkerSetting Unit
validate_settings w = do
  _ ← fail_if (not (is_empty w.worker_id) && is_blank w.worker_id) worker_id
  _ ← fail_if (ltb max_lease_owner_length (rune_count w.worker_id)) worker_id
  _ ← fail_if (ltb_ℤ w.concurrency (pos 1) || ltb_ℤ (pos 1000) w.concurrency) concurrency
  _ ← fail_if (ltb_ℤ w.batch_size (pos 1)) batch_size
  _ ← fail_if (ltb_ℤ w.concurrency w.batch_size) batch_size
  _ ← fail_if (ltb_ℤ (pos max_job_batch_size) w.batch_size) batch_size
  _ ← fail_if (leb_ℤ w.poll_interval_milliseconds (pos 0)) poll_interval
  _ ←
      fail_if (ltb_ℤ (pos max_poll_interval_milliseconds) w.poll_interval_milliseconds)
        poll_interval
  _ ← fail_if (ltb_ℤ w.lease_duration_seconds (pos 2)) lease_duration
  _ ← fail_if (ltb_ℤ (pos max_job_lease_seconds) w.lease_duration_seconds) lease_duration
  _ ← fail_if (leb_ℤ w.renewal_interval_seconds (pos 0)) renewal_interval
  _ ← fail_if (ltb_ℤ (half w.lease_duration_seconds) w.renewal_interval_seconds) renewal_interval
  _ ← fail_if (leb_ℤ w.retry_backoff_seconds (pos 0)) retry_backoff
  _ ← fail_if (ltb_ℤ (pos max_retry_backoff_seconds) w.retry_backoff_seconds) retry_backoff
  _ ← fail_if (leb_ℤ w.drain_timeout_seconds (pos 0)) drain_timeout
  fail_if (ltb_ℤ (pos max_drain_timeout_seconds) w.drain_timeout_seconds) drain_timeout

-- The section as a whole: `runs` is whether the role is "worker" or "all".
unfoldable pub validate_worker : Bool → String → WorkerConfig → Result WorkerSetting Unit
unfolding validate_settings is_unset
validate_worker runs backend w = do
  _ ← fail_if (runs && not (str_eq backend "postgres")) storage_backend
  if runs || not (is_unset w) then validate_settings w else ok tt
