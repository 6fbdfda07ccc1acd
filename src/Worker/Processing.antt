-- ===== src/Worker/Processing.antt =====
-- `processJob` of pkg/worker/worker.go over the job ledger. What the renewal goroutine and all other clients
-- write while the job executes is a sequence of calls of the repository. The map of cancel functions, the log and
-- the hooks of the tests are left out.
use progo_a2a.Prelude.{
  ℕ, ◌<◌, ◌≡◌, refl, ap, ◌∙◌, ◌∷◌, Bool, true, false, Option, none, some, List, [], Result, ok, err,
  arith, Bool-cases, inl, inr, if◌then◌else◌,
}
use progo_a2a.Prelude.Int.{ℤ, pos}
use progo_a2a.Job.{Job, leased, LeaseFence, FailJobInput, fence}
use progo_a2a.Ledger.Row.{Row}
use progo_a2a.Ledger.Statements.{may_run, holds_lease}
use progo_a2a.Ledger.Keys.{Distinct, same_key}
use progo_a2a.Ledger.Lookup.{at, passes, any-at, count_where-any}
use progo_a2a.Ledger.Fencing.{may_run-KeyTest}
use progo_a2a.Ledger.Repository.{
  fenced, handle_lease_mutation_miss, mark_running, complete_job, fail_job,
  acknowledge_cancellation,
}
use progo_a2a.Ledger.Repository.Monad.{Repo, Call, Error, open_repo, exec, query}
use progo_a2a.Ledger.Repository.Payloads.{Encoding, Payload}
use progo_a2a.Ledger.Outcomes.{Holds}
use progo_a2a.Ledger.Unheld.{Holds-of-holds_lease}
use progo_a2a.Ledger.Action.{Action, run, run_all}
use progo_a2a.Ledger.Table.{IsLedger, run_all-IsLedger}
use progo_a2a.Ledger.Stale.{stale_fence, fail_job-Idle}
use progo_a2a.Worker.Executor.{Failure, failure_input}

-- What the executor does: it panics, fails or responds.
pub data Outcome (V : Type 0) : Type 0 where
  panicked : Outcome V
  failed_with : Failure → Outcome V
  responded : V → Outcome V

-- What one run of `processJob` meets: the calls of `MarkRunning`, of `AcknowledgeCancellation` and of the last
-- write, whether the engine is shutting down, what is written during the execution, whether the context of
-- the job is done after it, and its outcome.
pub record Processing (e : Encoding) : Type 0 where
  pub mark_call : Call
  pub acknowledge_call : Call
  pub last_call : Call
  pub shutting_down : Bool
  pub meanwhile : List (Call × Action e)
  pub job_context_done : Bool
  pub outcome : Outcome (Payload e)

unfoldable pub panic_input : Job → FailJobInput
unfolding fence
panic_input job = record {
  tenant_id = job.tenant_id;
  job_id = job.id;
  lease_owner = (fence job).lease_owner;
  lease_token = (fence job).lease_token;
  failure_code = "PANIC";
  failure_message = "internal execution error occurred";
  retryable = false;
  backoff = pos 0;
}

module _ (e : Encoding) where
  -- The last write; its error is only logged.
  unfoldable pub finish : Call → ℤ → Job → Outcome (Payload e) → Repo → Repo
  unfolding fail_job complete_job failure_input panic_input fence
  finish c backoff job panicked r = (fail_job c (panic_input job) r).1
  finish c backoff job (failed_with f) r = (fail_job c (failure_input job f backoff) r).1
  finish c backoff job (responded v) r = (complete_job e c (fence job) v r).1

  -- What follows the reply to `MarkRunning`. The result says whether the executor ran.
  unfoldable pub after_mark : Processing e → ℤ → Job → Result Error Unit → Repo → Bool × Repo
  unfolding finish acknowledge_cancellation fence
  after_mark p backoff job (err Error.cancellation_requested) r =
      (false, (acknowledge_cancellation p.acknowledge_call (fence job) r).1)
  after_mark p backoff job (err _) r = (false, r)
  after_mark p backoff job (ok done) r =
      let later = run_all e p.meanwhile r in
      (true, if p.job_context_done then later else finish p.last_call backoff job p.outcome later)

  -- `processJob`; `none` is a nil job.
  unfoldable pub process_job : Processing e → ℤ → Option Job → Repo → Bool × Repo
  unfolding after_mark mark_running fence
  process_job p backoff none r = (false, r)
  process_job p backoff (some job) r = elim p.shutting_down [
    | true ↦ (false, r)
    | false ↦
        let (reply, r) = mark_running p.mark_call (fence job) r in after_mark p backoff job reply r
  ]

  executed_ok :
      (p : Processing e) (backoff : ℤ) (job : Job) (reply : Result Error Unit) (r : Repo)
      → (after_mark p backoff job reply r).0 ≡ true
      → reply ≡ ok tt
  unfolding after_mark
  executed_ok p backoff job (ok tt) r h = refl
  executed_ok p backoff job (err x) r h = absurd (ground (arith, h))

  marked-passes :
      (c : Call) (f : LeaseFence) (r : Repo)
      → Distinct same_key r.rows
      → (mark_running c f r).0 ≡ ok tt
      → passes (may_run c.now f) (at f.tenant_id f.job_id r.rows) ≡ true
  unfolding mark_running fenced exec query open_repo handle_lease_mutation_miss
  marked-passes c f r d h = ground (
    arith,
    h,
    any-at f.tenant_id f.job_id (may_run c.now f) r.rows (may_run-KeyTest c.now f) d,
    count_where-any (may_run c.now f) r.rows,
  )

  found_row :
      (test : Row → Bool) (o : Option Row)
      → passes test o ≡ true
      → (row : Row) × (o ≡ some row) × (test row ≡ true)
  found_row test none h = absurd (ground (arith, h))
  found_row test (some row) h = (row, refl, h)

  may_run-Holds :
      (now : ℕ) (f : LeaseFence) (row : Row)
      → may_run now f row ≡ true
      → Holds now f row × (row.state ≡ leased) × (row.cancel_requested_at ≡ none)
  unfolding may_run holds_lease
  may_run-Holds now f row h =
      (Holds-of-holds_lease now f row (ground (arith, h)), ground (arith, h), ground (arith, h))

  -- When the executor of a job runs, the table had, at the time of `MarkRunning`, a row of the job in the state leased, under
  -- the owner and the token of the worker's snapshot, with an expiry after that time and no cancellation requested.
  pub executed-marked :
      (p : Processing e) (backoff : ℤ) (job : Job) (r : Repo)
      → IsLedger r.rows
      → (process_job p backoff (some job) r).0 ≡ true
      → (row : Row) × (at job.tenant_id job.id r.rows ≡ some row)
        × Holds p.mark_call.now (fence job) row
        × (row.state ≡ leased)
        × (row.cancel_requested_at ≡ none)
  unfolding process_job fence
  executed-marked p backoff job r l h = elim (Bool-cases p.shutting_down) [
    | inl s ↦ absurd (ground (arith, h, s))
    | inr s ↦
        let m = mark_running p.mark_call (fence job) r in
        let runs : process_job p backoff (some job) r ≡ after_mark p backoff job m.0 m.1 =
          rw (process_job, s) refl in
        let reply = executed_ok p backoff job m.0 m.1 (rw runs at h) in
        let (row, found, may) =
          found_row (may_run p.mark_call.now (fence job)) (at job.tenant_id job.id r.rows)
            (marked-passes p.mark_call (fence job) r l.keys reply) in
        let (held, state, wanted) = may_run-Holds p.mark_call.now (fence job) row may in
        (row, found, held, state, wanted)
  ]

  -- The last write does nothing when the lease of the job has been taken over.
  finish-stale :
      (c : Call) (backoff : ℤ) (job : Job) (o : Outcome (Payload e)) (r : Repo) (row : Row)
      → IsLedger r.rows
      → at job.tenant_id job.id r.rows ≡ some row
      → job.lease_token < row.lease_token
      → finish c backoff job o r ≡ r
  unfolding finish panic_input failure_input fence run_all
  finish-stale c backoff job panicked r row l found behind =
      (fail_job-Idle c (panic_input job) r row l.keys found behind).0
  finish-stale c backoff job (failed_with f) r row l found behind =
      (fail_job-Idle c (failure_input job f backoff) r row l.keys found behind).0
  finish-stale c backoff job (responded v) r row l found behind =
      let (marked, renewed, done, failed, acknowledged) =
        stale_fence e [] c (panic_input job) v (pos 0) r row l found behind in
      done.0

  -- When the lease of a job has been taken over while its executor ran, so that the token of its row is ahead of the token of
  -- the worker's snapshot, the worker writes nothing afterwards, whatever its executor came to.
  pub superseded :
      (p : Processing e) (backoff : ℤ) (job : Job) (r : Repo) (row : Row)
      → IsLedger r.rows
      → (process_job p backoff (some job) r).0 ≡ true
      → at job.tenant_id job.id
          (run_all e p.meanwhile (mark_running p.mark_call (fence job) r).1).rows
        ≡ some row
      → job.lease_token < row.lease_token
      → (process_job p backoff (some job) r).1
        ≡ run_all e p.meanwhile (mark_running p.mark_call (fence job) r).1
  unfolding process_job after_mark run_all run
  superseded p backoff job r row l h found behind = elim (Bool-cases p.shutting_down) [
    | inl s ↦ absurd (ground (arith, h, s))
    | inr s ↦
        let m = mark_running p.mark_call (fence job) r in
        let later = run_all e p.meanwhile m.1 in
        let ledger : IsLedger later.rows =
          run_all-IsLedger e ((p.mark_call, Action.mark_running (fence job)) ∷ p.meanwhile) r l in
        let runs : process_job p backoff (some job) r ≡ after_mark p backoff job m.0 m.1 =
          rw (process_job, s) refl in
        let reply = executed_ok p backoff job m.0 m.1 (rw runs at h) in
        let still = finish-stale p.last_call backoff job p.outcome later row ledger found behind in
        let last : (after_mark p backoff job (ok tt) m.1).1 ≡ later =
          elim (Bool-cases p.job_context_done) [
            | inl c ↦ rw (after_mark, c) refl
            | inr c ↦ rw (after_mark, c) still
          ] in
        ap (λ (x : Bool × Repo). x.1) runs
        ∙ ap (λ (q : Result Error Unit). (after_mark p backoff job q m.1).1) reply
        ∙ last
  ]
