-- ===== src/Ledger/Repository.antt =====
-- The methods of `PostgresJobRepository`, pkg/storage/postgres_jobs.go, as actions on the repository:
-- an action returns its result or error and the repository that it leaves.
mod Checks
pub mod Monad
pub mod Payloads
unfoldable pub use Checks.*
use progo_a2a.Prelude.{
  ℕ, String, Bool, true, false, not, ◌&&◌, ◌||◌, Option, none, some, List, [], ◌∷◌, ◌++◌, map,
  is_empty, is_blank, rune_count, is_some, str_eq, str_lt, equal_fold, ltb, ◌==◌, ◌/◌, any, find,
  if◌then◌else◌,
}
use progo_a2a.Prelude.Int.{ℤ, pos, ltb_ℤ, pos_part}
use progo_a2a.Job.{
  Job, JobState, queued, LeaseFence, CreateJobInput, FailJobInput, validate_ids, validate_fence,
  validate_create, validate_fail, check_text, fail_fence, max_lease_owner_length, empty_lease_owner,
  lease_owner_too_long, request_hash_mismatch, invalid_retry_backoff, max_retry_backoff,
}
use progo_a2a.Ledger.Row.{Row, scan_job, has_key, has_idempotency_key, update_where, count_where}
use progo_a2a.Ledger.Statements.{
  null_if_blank, coalesce, holds_lease, may_run, set_running, set_renewed, set_succeeded,
  set_failed, set_cancel, may_acknowledge, set_canceled, selected, is_ready, runs_before,
  set_leased, choose, is_expired, expires_before, set_reclaimed,
}
use progo_a2a.Ledger.Constraints.{passes_checks}
use Monad.{
  Error, M, Call, open_repo, lift, from_result, pure, raise, raise_if, exec, query, ◌>>=◌, ◌>>◌,
}
use Payloads.{Encoding, Payload, marshal_job_payload, compute_job_idempotency_hash, cast_jsonb}

-- `Duration.Milliseconds` of a duration that is not negative.
-- `MarkRunning`.
unfoldable pub mark_running : Call → LeaseFence → M Unit
unfolding fenced
mark_running c f = do
  open_repo c
  lift (validate_fence f)
  fenced c f (may_run c.now f) (set_running c.now) true

-- `RenewLease`.
unfoldable pub renew_lease : Call → LeaseFence → ℤ → M Unit
unfolding fenced validate_lease_duration
renew_lease c f duration = do
  open_repo c
  lift (validate_fence f)
  validate_lease_duration duration
  fenced c f (holds_lease c.now f) (set_renewed c.now (milliseconds duration)) false

-- `FailJob`.
unfoldable pub fail_job : Call → FailJobInput → M Unit
unfolding fenced
fail_job c i = do
  open_repo c
  lift (validate_fail i)
  fenced c (fail_fence i) (holds_lease c.now (fail_fence i))
      (set_failed c.now i.retryable (milliseconds i.backoff) i.failure_code i.failure_message) false

-- `AcknowledgeCancellation`.
unfoldable pub acknowledge_cancellation : Call → LeaseFence → M Unit
unfolding fenced
acknowledge_cancellation c f = do
  open_repo c
  lift (validate_fence f)
  fenced c f (may_acknowledge c.now f) (set_canceled c.now) false

-- `CancelJob`.
unfoldable pub cancel_job : Call → String → String → M Unit
cancel_job c tenant_id job_id = do
  open_repo c
  lift (validate_ids tenant_id job_id)
  affected ←
      exec c.first (update_where (has_key tenant_id job_id) (set_cancel c.now))
        (count_where (has_key tenant_id job_id))
  raise_if (affected == 0) Error.job_not_found

-- `GetJob`.
unfoldable pub get_job : Call → String → String → M Job
get_job c tenant_id job_id = do
  open_repo c
  lift (validate_ids tenant_id job_id)
  found ← query c.first (find (has_key tenant_id job_id))
  elim found [ none ↦ raise Error.job_not_found | some r ↦ pure (scan_job r) ]

-- `ReclaimExpiredLeases`, with the number of rows reclaimed. `locked`: see `Statements.choose`.
unfoldable pub reclaim_expired_leases : Call → (Row → Bool) → ℤ → ℤ → M ℕ
unfolding validate_job_batch_size
reclaim_expired_leases c locked batch_size default_backoff = do
  open_repo c
  validate_job_batch_size batch_size
  raise_if (ltb_ℤ default_backoff (pos 0) || ltb_ℤ (pos max_retry_backoff) default_backoff)
      (Error.invalid invalid_retry_backoff)
  let chosen = choose (is_expired c.now) expires_before locked (pos_part batch_size)
  exec c.first
      (λ rows.
        update_where (selected (chosen rows)) (set_reclaimed c.now (milliseconds default_backoff))
          rows)
      (λ rows. count_where (selected (chosen rows)) rows)

-- The `less` of the `sort.Slice` in `AcquireLeases`.
unfoldable pub job_before : Job → Job → Bool
job_before a b =
    if a.next_run_at == b.next_run_at
    then (if a.created_at == b.created_at then str_lt a.id b.id else ltb a.created_at b.created_at)
    else ltb a.next_run_at b.next_run_at

unfoldable pub insert_job : Job → List Job → List Job
insert_job j [] = j ∷ []
insert_job j (k ∷ jobs) =
    let rest = insert_job j jobs in if job_before k j then k ∷ rest else j ∷ k ∷ jobs

unfoldable pub sort_jobs : List Job → List Job
unfolding insert_job job_before
sort_jobs [] = []
sort_jobs (j ∷ jobs) = insert_job j (sort_jobs jobs)

-- The snapshots of `RETURNING`: the updated rows of the table, in its order.
unfoldable pub returning : (Row → Bool) → (Row → Row) → List Row → List Job
returning test set [] = []
returning test set (r ∷ rows) =
    let rest = returning test set rows in if test r then scan_job (set r) ∷ rest else rest

-- `AcquireLeases`. `locked`: see `Statements.choose`.
unfoldable pub acquire_leases : Call → (Row → Bool) → String → ℤ → ℤ → M (List Job)
unfolding validate_job_batch_size validate_lease_duration sort_jobs returning
acquire_leases c locked owner batch_size lease_duration = do
  open_repo c
  lift (check_text owner max_lease_owner_length empty_lease_owner lease_owner_too_long)
  validate_job_batch_size batch_size
  validate_lease_duration lease_duration
  let chosen = choose (is_ready c.now) runs_before locked (pos_part batch_size)
  let set = set_leased c.now owner (milliseconds lease_duration)
  jobs ←
      exec c.first (λ rows. update_where (selected (chosen rows)) set rows)
        (λ rows. returning (selected (chosen rows)) set rows)
  pure (sort_jobs jobs)

-- What ON CONFLICT meets: the primary key, or the key (tenant_id, idempotency_key).
unfoldable pub conflicts : Row → List Row → Bool
unfolding has_key has_idempotency_key
conflicts r rows =
    any (λ s. has_key r.tenant_id r.id s || has_idempotency_key r.tenant_id r.idempotency_key s)
      rows

unfoldable pub insert_row : Row → List Row → List Row
unfolding conflicts
insert_row r rows = if conflicts r rows then rows else rows ++ r ∷ []

-- The row that holds the idempotency key, checked against the hash.
unfoldable pub load_existing : Call → Row → M Job
load_existing c new = do
  found ← query c.second (find (has_idempotency_key new.tenant_id new.idempotency_key))
  elim found [
    | none ↦ raise Error.job_id_conflict
    | some r ↦
        if str_eq r.request_hash new.request_hash
        then pure (scan_job r)
        else raise Error.idempotency_conflict
  ]

module _ (e : Encoding) where
  -- `CompleteJob`.
  unfoldable pub complete_job : Call → LeaseFence → Payload e → M Unit
  unfolding fenced
  complete_job c f response = do
    open_repo c
    lift (validate_fence f)
    response_bytes ← from_result (marshal_job_payload e response)
    stored ← from_result (cast_jsonb e response_bytes)
    fenced c f (holds_lease c.now f) (set_succeeded c.now stored) false

  -- The row that `insertJobSQL` makes.
  unfoldable pub new_row : ℕ → CreateJobInput (Payload e) → String → String → Row
  new_row now input request hash = record {
    id = input.id;
    tenant_id = input.tenant_id;
    idempotency_key = input.idempotency_key;
    request_hash = hash;
    request = request;
    agent_id = null_if_blank input.agent_id;
    required_capability = null_if_blank input.required_capability;
    state = queued;
    attempt = 0;
    max_attempts = pos_part input.max_attempts;
    next_run_at = coalesce input.next_run_at now;
    lease_owner = none;
    lease_token = 0;
    lease_expires_at = none;
    response = none;
    failure_code = none;
    failure_message = none;
    cancel_requested_at = none;
    created_at = now;
    updated_at = now;
  }

  -- `CreateJob`. A statement whose cast or whose row PostgreSQL refuses is an error, before it looks for conflicts.
  unfoldable pub create_job : Call → CreateJobInput (Payload e) → M Job
  unfolding new_row insert_row load_existing passes_checks
  create_job c input = do
    open_repo c
    request ← lift (validate_create input)
    request_bytes ← from_result (marshal_job_payload e request)
    hash ← from_result (compute_job_idempotency_hash e request_bytes input)
    raise_if (not (is_empty input.request_hash) && not (equal_fold input.request_hash hash))
        (Error.invalid request_hash_mismatch)
    stored ← from_result (cast_jsonb e request_bytes)
    let new = new_row c.now input stored hash
    raise_if (not (passes_checks new)) Error.database
    conflict ← exec c.first (insert_row new) (conflicts new)
    if conflict then load_existing c new else pure (scan_job new)
