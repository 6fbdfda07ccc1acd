-- ===== src/Ledger/Examples.antt =====
-- The theorems of the ledger at concrete jobs, and runs of the methods.
mod Story
pub use Story.*
use progo_a2a.Prelude.{
  ℕ, ◌≡◌, ◌⊎◌, refl, Bool, true, false, none, some, List, [], ◌∷◌, arith, ok, err, here, String,
  is_blank, rune_count, sql_trim, find, str_eq, if◌then◌else◌,
}
use progo_a2a.Prelude.Int.{ℤ, pos}
use progo_a2a.Job.{
  Job, queued, running, succeeded, LeaseFence, CreateJobInput, FailJobInput, validate_fence,
  validate_fail, validate_create, check_text,
}
use progo_a2a.Ledger.Row.{Row, scan_job, has_key, has_idempotency_key, update_where, count_where}
use progo_a2a.Ledger.Statements.{
  holds_lease, may_run, set_running, set_succeeded, set_leased, null_if_blank, choose, selected,
  is_ready, is_expired,
}
use progo_a2a.Ledger.Constraints.{is_hash}
use progo_a2a.Ledger.Repository.{
  create_job, acquire_leases, mark_running, complete_job, fail_job, renew_lease,
  reclaim_expired_leases, acknowledge_cancellation, validate_lease_duration,
  validate_job_batch_size, new_row, conflicts,
}
use progo_a2a.Ledger.Repository.Monad.{Repo, Call, Wire, Error, open_repo, exec, query}
use progo_a2a.Ledger.Repository.Payloads.{
  Encoding, Payload, value, marshal_job_payload, compute_job_idempotency_hash,
}
use progo_a2a.Ledger.Action.{Action, run, run_all}
use progo_a2a.Ledger.Lookup.{at}
use progo_a2a.Ledger.Fencing.{IsLive}
use progo_a2a.Ledger.Table.{IsLedger, empty_repo, reachable-IsLedger}
use progo_a2a.Ledger.History.{Later, job_history}
use progo_a2a.Ledger.Outcomes.{Holds, complete_job_held, completed, FailOutcome, fail_job_held}
use progo_a2a.Ledger.Unheld.{unheld-Refused, Refused}
use progo_a2a.Ledger.Stale.{Idle, stale_fence}
use progo_a2a.Ledger.Create.{Accepts, create_job_existing, create_job_retried}
use progo_a2a.Ledger.Acquire.{Asks, Acquired, Acquired-lease}
use progo_a2a.Ledger.Reclaim.{Reclaimed, Kept, MayReclaim, expired-Reclaimed}

job_history_example :
    (later : Row) × (find (has_key "acme" "job-1") (run_all plain story waiting_repo).rows
      ≡ some later)
    × Later waiting later
unfolding has_key
job_history_example =
    job_history plain story waiting_repo "acme" "job-1" waiting waiting-IsLedger refl

complete_job_held_example :
    ((complete_job plain (live_at 500) f1 (value "done") held_repo).0 ≡ ok tt)
    × (at "acme" "job-1" (complete_job plain (live_at 500) f1 (value "done") held_repo).1.rows
        ≡ some (completed 500 "done" held))
unfolding has_key validate_fence is_blank rune_count marshal_job_payload
complete_job_held_example =
    complete_job_held plain (live_at 500) f1 (value "done") "done" "done" held_repo held (live 500)
      refl (refl, tt) refl refl refl refl held-Holds

abbrev failure : FailJobInput
failure = record {
  tenant_id = "acme";
  job_id = "job-1";
  lease_owner = "w1";
  lease_token = pos 1;
  failure_code = "DOWNSTREAM_TIMEOUT";
  failure_message = "downstream agent request timed out";
  retryable = true;
  backoff = pos 15_000_000_000;
}

fail_job_held_example :
    (s : Row) × ((fail_job (live_at 500) failure held_repo).0 ≡ ok tt)
    × (at "acme" "job-1" (fail_job (live_at 500) failure held_repo).1.rows ≡ some s)
    × FailOutcome 500 failure held s.state s.next_run_at
    × (s.lease_owner ≡ none)
    × (s.lease_expires_at ≡ none)
    × (s.attempt ≡ 1)
    × (s.lease_token ≡ 1)
    × (s.request ≡ "{}")
unfolding has_key validate_fail is_blank rune_count
fail_job_held_example =
    fail_job_held (live_at 500) failure held_repo held (live 500) refl (refl, tt) refl refl
      held-Holds

-- At 1000 the lease has run out.
not_held : Holds 1000 f1 held → ⊥
not_held h = ground (arith, h.expires, h.unexpired)

unheld-Refused_example :
    Refused (complete_job plain (live_at 1000) f1 (value "done")) held_repo Error.lease_lost
    × Refused (renew_lease (live_at 1000) f1 day) held_repo Error.lease_lost
unfolding has_key validate_fence is_blank rune_count marshal_job_payload validate_lease_duration
unheld-Refused_example =
    unheld-Refused plain (live_at 1000) f1 (value "done") "done" "done" day held_repo held
      (live 1000) refl (refl, tt) refl refl refl refl refl not_held

stale_fence_example :
    let later = run_all plain story waiting_repo in
    Idle (mark_running (live_at 60) f1) later
    × Idle (renew_lease (live_at 60) f1 day) later
    × Idle (complete_job plain (live_at 60) f1 (value "late")) later
    × Idle (fail_job (live_at 60) failure) later
    × Idle (acknowledge_cancellation (live_at 60) f1) later
unfolding has_key
stale_fence_example =
    stale_fence plain story (live_at 60) failure (value "late") day waiting_repo waiting
      waiting-IsLedger refl (omega arith)

accepted : Accepts plain input "{}" empty_hash
unfolding validate_create is_blank rune_count marshal_job_payload compute_job_idempotency_hash
    is_hash
accepted = record {
  request = value "{}";
  valid = refl;
  literal = "{}";
  encoded = refl;
  casted = refl;
  hashed = refl;
  hash_agrees = refl;
  hash_digits = refl;
}

create_job_existing_example : create_job plain (live_at 500) input held_repo ≡ (
  if str_eq held.request_hash empty_hash
      then ok (scan_job held)
      else err Error.idempotency_conflict,
  held_repo,
)
unfolding has_idempotency_key
create_job_existing_example =
    create_job_existing plain (live_at 500) input "{}" empty_hash held_repo held (live 500) refl
      accepted refl

abbrev cut_off : Call
cut_off = record { context = none; now = 10; first = Wire.lost; second = Wire.answered }

create_job_retried_example :
    let once = (create_job plain cut_off input empty_repo).1 in
    create_job plain (live_at 500) input once
    ≡ (ok (scan_job (new_row plain 10 input "{}" empty_hash)), once)
unfolding conflicts
create_job_retried_example =
    create_job_retried plain cut_off (live_at 500) input "{}" empty_hash empty_repo refl (λ e. cc)
      (live 500) refl accepted refl

asks : Asks "w2" (pos 5) day waiting_repo
unfolding check_text is_blank rune_count validate_job_batch_size validate_lease_duration
asks = record { owner_valid = refl; batch_valid = refl; duration_valid = refl }

abbrev again : Job
again = scan_job (set_leased 500 "w2" 86_400_000 waiting)

Acquired-lease_example :
    Acquired (live_at 500) unlocked "w2" (pos 5) day waiting_repo (live 500) refl asks again
unfolding acquire_leases open_repo exec check_text is_blank rune_count choose selected is_ready
    has_key update_where
Acquired-lease_example =
    Acquired-lease (live_at 500) unlocked "w2" (pos 5) day waiting_repo (live 500) refl asks again
      (again ∷ []) (refl, tt) refl (here refl)

may_reclaim : MayReclaim (pos 5) (pos 15_000_000_000) held_repo
unfolding validate_job_batch_size
may_reclaim = record { batch_valid = refl; backoff_low = refl; backoff_high = refl }

expired-Reclaimed_example :
    Reclaimed
      (live_at 1000)
      unlocked
      (pos 5)
      (pos 15_000_000_000)
      held_repo
      (live 1000)
      refl
      may_reclaim
      held
    ⊎ Kept
        (live_at 1000)
        unlocked
        (pos 5)
        (pos 15_000_000_000)
        held_repo
        (live 1000)
        refl
        may_reclaim
        held
expired-Reclaimed_example =
    expired-Reclaimed (live_at 1000) unlocked (pos 5) (pos 15_000_000_000) held_repo (live 1000)
      refl may_reclaim held (refl, tt) (here refl) (omega arith)
