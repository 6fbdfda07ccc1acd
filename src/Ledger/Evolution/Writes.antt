-- ===== src/Ledger/Evolution/Writes.antt =====
-- The table after each method: as it was, or as the one statement that writes makes it.
use progo_a2a.Prelude.{ℕ, String, ◌≡◌, Bool, true, false, ◌⊎◌, List, arith, ◌/◌, Result, ok, err}
use progo_a2a.Prelude.Int.{ℤ, pos_part}
use progo_a2a.Job.{JobError, LeaseFence, FailJobInput, CreateJobInput, fail_fence, validate_create}
use progo_a2a.Ledger.Row.{Row, update_where, has_key}
use progo_a2a.Ledger.Statements.{
  holds_lease, may_run, set_running, set_renewed, set_succeeded, set_failed, set_cancel,
  may_acknowledge, set_canceled, selected, is_ready, runs_before, set_leased, choose, is_expired,
  expires_before, set_reclaimed,
}
use progo_a2a.Ledger.Constraints.{passes_checks}
use progo_a2a.Ledger.Repository.{
  fenced, mark_running, renew_lease, fail_job, acknowledge_cancellation, cancel_job,
  reclaim_expired_leases, acquire_leases, complete_job, create_job, new_row, insert_row,
}
use progo_a2a.Ledger.Repository.Monad.{Error, M, Repo, Call, open_repo, exec, query}
use progo_a2a.Ledger.Repository.Payloads.{
  Encoding, Payload, marshal_job_payload, compute_job_idempotency_hash, cast_jsonb,
}

-- The table after `m`, from `r`, is the table before or `rows`.
abbrev pub Writes : {A : Type 0} → M A → Repo → List Row → Type 0
Writes m r rows = ((m r).1.rows ≡ r.rows) ⊎ ((m r).1.rows ≡ rows)

pub fenced-Writes :
    (c : Call) (f : LeaseFence) (test : Row → Bool) (set : Row → Row) (b : Bool) (r : Repo)
    → Writes (fenced c f test set b) r (update_where test set r.rows)
unfolding fenced exec query
fenced-Writes c f test set b r = ground arith

pub mark_running-Writes :
    (c : Call) (f : LeaseFence) (r : Repo)
    → Writes (mark_running c f) r (update_where (may_run c.now f) (set_running c.now) r.rows)
unfolding mark_running open_repo
mark_running-Writes c f r =
    ground (arith, fenced-Writes c f (may_run c.now f) (set_running c.now) true r)

pub renew_lease-Writes :
    (c : Call) (f : LeaseFence) (duration : ℤ) (r : Repo)
    → Writes (renew_lease c f duration) r (
        update_where
          (holds_lease c.now f)
          (set_renewed c.now (pos_part duration / 1_000_000))
          r.rows)
unfolding renew_lease open_repo
renew_lease-Writes c f duration r = ground (
  arith,
  fenced-Writes c f (holds_lease c.now f) (set_renewed c.now (pos_part duration / 1_000_000)) false
      r,
)

abbrev pub or_blank : Result Error String → String
or_blank (ok s) = s
or_blank (err _) = ""

-- The text that a payload is stored as.
abbrev cast_of : (e : Encoding) → Result Error String → Result Error String
cast_of e (ok s) = cast_jsonb e s
cast_of e (err x) = err x

pub complete_job-Writes :
    (e : Encoding) (c : Call) (f : LeaseFence) (response : Payload e) (r : Repo)
    → let bytes = or_blank (cast_of e (marshal_job_payload e response)) in
      Writes
        (complete_job e c f response)
        r
        (update_where (holds_lease c.now f) (set_succeeded c.now bytes) r.rows)
unfolding complete_job open_repo
complete_job-Writes e c f response r =
    let bytes = or_blank (cast_of e (marshal_job_payload e response)) in
    ground (arith, fenced-Writes c f (holds_lease c.now f) (set_succeeded c.now bytes) false r)

pub fail_job-Writes :
    (c : Call) (i : FailJobInput) (r : Repo)
    → Writes (fail_job c i) r (
        update_where
          (holds_lease c.now (fail_fence i))
          (set_failed c.now i.retryable
            (pos_part i.backoff / 1_000_000)
            i.failure_code
            i.failure_message)
          r.rows)
unfolding fail_job open_repo
fail_job-Writes c i r = ground (
  arith,
  fenced-Writes c (fail_fence i) (holds_lease c.now (fail_fence i))
      (set_failed c.now i.retryable (pos_part i.backoff / 1_000_000) i.failure_code
        i.failure_message)
      false r,
)

pub acknowledge_cancellation-Writes :
    (c : Call) (f : LeaseFence) (r : Repo)
    → Writes
        (acknowledge_cancellation c f)
        r
        (update_where (may_acknowledge c.now f) (set_canceled c.now) r.rows)
unfolding acknowledge_cancellation open_repo
acknowledge_cancellation-Writes c f r =
    ground (arith, fenced-Writes c f (may_acknowledge c.now f) (set_canceled c.now) false r)

pub cancel_job-Writes :
    (c : Call) (tenant_id job_id : String) (r : Repo)
    → Writes
        (cancel_job c tenant_id job_id)
        r
        (update_where (has_key tenant_id job_id) (set_cancel c.now) r.rows)
unfolding cancel_job open_repo exec
cancel_job-Writes c tenant_id job_id r = ground arith

pub reclaim_expired_leases-Writes :
    (c : Call) (locked : Row → Bool) (batch backoff : ℤ) (r : Repo)
    → Writes (reclaim_expired_leases c locked batch backoff) r (
        update_where
          (selected (choose (is_expired c.now) expires_before locked (pos_part batch) r.rows))
          (set_reclaimed c.now (pos_part backoff / 1_000_000))
          r.rows)
unfolding reclaim_expired_leases open_repo exec
reclaim_expired_leases-Writes c locked batch backoff r = ground arith

pub acquire_leases-Writes :
    (c : Call) (locked : Row → Bool) (owner : String) (batch duration : ℤ) (r : Repo)
    → Writes (acquire_leases c locked owner batch duration) r (
        update_where
          (selected (choose (is_ready c.now) runs_before locked (pos_part batch) r.rows))
          (set_leased c.now owner (pos_part duration / 1_000_000))
          r.rows)
unfolding acquire_leases open_repo exec
acquire_leases-Writes c locked owner batch duration r = ground arith

-- The row that a call of `CreateJob` would insert.
abbrev hash_of :
    (e : Encoding) → CreateJobInput (Payload e) → Result Error String → Result Error String
hash_of e input (ok request) = compute_job_idempotency_hash e request input
hash_of e input (err x) = err x

abbrev pub row_of : (e : Encoding) → ℕ → CreateJobInput (Payload e) → Payload e → Row
row_of e now input request =
    let bytes = marshal_job_payload e request in
    new_row e now input (or_blank (cast_of e bytes)) (or_blank (hash_of e input bytes))

pub create_job-Writes :
    (e : Encoding) (c : Call) (input : CreateJobInput (Payload e)) (request : Payload e) (r : Repo)
    → validate_create input ≡ ok request
    → let new = row_of e c.now input request in
      ((create_job e c input r).1.rows ≡ r.rows)
      ⊎ (((create_job e c input r).1.rows ≡ insert_row new r.rows) × (passes_checks new ≡ true))
unfolding create_job open_repo exec query
create_job-Writes e c input request r h = ground arith

-- An input that is refused writes nothing.
pub create_job-refused :
    (e : Encoding) (c : Call) (input : CreateJobInput (Payload e)) (x : JobError) (r : Repo)
    → validate_create input ≡ err x
    → (create_job e c input r).1 ≡ r
unfolding create_job open_repo exec query
create_job-refused e c input x r h = ground arith
