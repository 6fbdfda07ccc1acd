-- ===== src/Ledger/Repository/Checks.antt =====
-- What the methods of pkg/storage/postgres_jobs.go check before and after their statement.
use progo_a2a.Prelude.{
  ℕ, String, Bool, ◌&&◌, ◌||◌, none, some, is_some, ◌==◌, ◌/◌, find, if◌then◌else◌,
}
use progo_a2a.Prelude.Int.{ℤ, pos, ltb_ℤ, pos_part}
use progo_a2a.Job.{LeaseFence}
use progo_a2a.Ledger.Row.{Row, has_key, update_where, count_where}
use progo_a2a.Ledger.Repository.Monad.{Error, M, Call, pure, raise, raise_if, exec, query, ◌>>=◌}

abbrev pub milliseconds : ℤ → ℕ
milliseconds d = pos_part d / 1_000_000

unfoldable pub validate_job_batch_size : ℤ → M Unit
validate_job_batch_size n =
    raise_if (ltb_ℤ n (pos 1) || ltb_ℤ (pos 1000) n) Error.invalid_batch_size

-- From one millisecond up to 24 hours, in nanoseconds.
unfoldable pub validate_lease_duration : ℤ → M Unit
validate_lease_duration d =
    raise_if (ltb_ℤ d (pos 1_000_000) || ltb_ℤ (pos 86_400_000_000_000) d)
      Error.invalid_lease_duration

-- Why a fenced statement met no row: `handleLeaseMutationMiss`.
unfoldable pub handle_lease_mutation_miss : Call → String → String → Bool → M Unit
handle_lease_mutation_miss c tenant_id job_id report_cancellation = do
  found ← query c.second (find (has_key tenant_id job_id))
  elim found [
    | none ↦ raise Error.job_not_found
    | some r ↦ raise (
        if report_cancellation && is_some r.cancel_requested_at
        then Error.cancellation_requested
        else Error.lease_lost)
  ]

-- An UPDATE behind a fence, and what follows when it affects no row.
unfoldable pub fenced : Call → LeaseFence → (Row → Bool) → (Row → Row) → Bool → M Unit
unfolding handle_lease_mutation_miss
fenced c f test set report_cancellation = do
  affected ← exec c.first (update_where test set) (count_where test)
  if affected == 0
      then handle_lease_mutation_miss c f.tenant_id f.job_id report_cancellation
      else pure tt
