-- ===== src/Ledger/Outcomes.antt =====
-- The outcome of the fenced methods for a client: when the fence holds the lease of its job, and when it
-- does not.
use progo_a2a.Prelude.{
  ℕ, ◌≤◌, ◌<◌, ◌/◌, String, ◌≡◌, refl, ap, ◌∙◌, Bool, true, false, none, some, arith, Result, ok,
  str_eq_iff,
}
use progo_a2a.Prelude.Int.{pos, pos_part}
use progo_a2a.Job.{
  JobState, succeeded, failed, queued, dead_letter, LeaseFence, FailJobInput, fail_fence,
  validate_fence, validate_fail,
}
use progo_a2a.Ledger.Row.{Row, is_active, has_key, update_where}
use progo_a2a.Ledger.Statements.{after, holds_lease, set_running, set_succeeded, set_failed}
use progo_a2a.Ledger.Keys.{Distinct, same_key}
use progo_a2a.Ledger.Lookup.{at, at-update_where}
use progo_a2a.Ledger.Fencing.{IsLive, fenced-reply, holds_lease-KeyTest}
use progo_a2a.Ledger.Repository.{complete_job, fail_job}
use progo_a2a.Ledger.Repository.Monad.{Repo, Call, Error, open_repo}
use progo_a2a.Ledger.Repository.Payloads.{Encoding, Payload, marshal_job_payload}

-- The fence names the row, and its owner and token hold the row's lease at the time `now`.
pub record Holds (now : ℕ) (f : LeaseFence) (r : Row) : Type 0 where
  pub tenant : r.tenant_id ≡ f.tenant_id
  pub job : r.id ≡ f.job_id
  pub owner : r.lease_owner ≡ some f.lease_owner
  pub token : pos r.lease_token ≡ f.lease_token
  pub active : is_active r.state ≡ true
  pub expiry : ℕ
  pub expires : r.lease_expires_at ≡ some expiry
  pub unexpired : now < expiry

pub holds_lease-of-Holds :
    (now : ℕ) (f : LeaseFence) (r : Row) → Holds now f r → holds_lease now f r ≡ true
unfolding holds_lease
holds_lease-of-Holds now f r h = ground (
  arith,
  str_eq_iff r.tenant_id f.tenant_id,
  str_eq_iff r.id f.job_id,
  str_eq_iff f.lease_owner f.lease_owner,
)

-- The SET clauses keep the keys.
module _ (tenant_id id : String) (now : ℕ) (r : Row) where
  key-set_succeeded :
      (response : String)
      → has_key tenant_id id (set_succeeded now response r) ≡ has_key tenant_id id r
  unfolding has_key set_succeeded
  key-set_succeeded response = refl

  key-set_failed :
      (retryable : Bool) (milliseconds : ℕ) (code message : String)
      → has_key tenant_id id (set_failed now retryable milliseconds code message r)
        ≡ has_key tenant_id id r
  unfolding has_key set_failed
  key-set_failed retryable milliseconds code message = refl

  key-set_running : has_key tenant_id id (set_running now r) ≡ has_key tenant_id id r
  unfolding has_key set_running
  key-set_running = refl

-- The row of a completed job: it is as before but for these columns. `response` is the stored text.
abbrev pub completed : ℕ → String → Row → Row
completed now response row = record row {
  state = succeeded;
  response = some response;
  lease_owner = none;
  lease_expires_at = none;
  updated_at = now;
}

-- On an open repository, with a live call, a valid fence that holds the lease of its job, and a response that encodes to
-- a text that PostgreSQL takes as jsonb: CompleteJob returns no error, and the job is found succeeded, with the response as the
-- jsonb column stores it, without a lease, updated at the time of the call, every other column as it was.
pub complete_job_held :
    (e : Encoding) (c : Call) (f : LeaseFence) (response : Payload e) (bytes stored : String)
    (r : Repo) (row : Row)
    → IsLive c
    → r.closed ≡ false
    → Distinct same_key r.rows
    → validate_fence f ≡ ok tt
    → marshal_job_payload e response ≡ ok bytes
    → e.jsonb bytes ≡ some stored
    → at f.tenant_id f.job_id r.rows ≡ some row
    → Holds c.now f row
    → ((complete_job e c f response r).0 ≡ ok tt)
      × (at f.tenant_id f.job_id (complete_job e c f response r).1.rows
          ≡ some (completed c.now stored row))
unfolding complete_job open_repo set_succeeded
complete_job_held e c f response bytes stored r row live opened d valid encoded casted found held =
    let test = holds_lease c.now f in
    let set = set_succeeded c.now stored in
    ground (
      arith,
      live.no_context_error,
      holds_lease-of-Holds c.now f row held,
      fenced-reply c f test set false r live (holds_lease-KeyTest c.now f) d,
      at-update_where f.tenant_id f.job_id test set r.rows
          (λ s. key-set_succeeded f.tenant_id f.job_id c.now s stored),
    )

-- Where a failed job goes, and when it runs next.
pub data FailOutcome (now : ℕ) (i : FailJobInput) (row : Row) : JobState → ℕ → Type 0 where
  permanent : i.retryable ≡ false → FailOutcome now i row failed row.next_run_at
  again :
      i.retryable ≡ true
      → row.attempt < row.max_attempts
      → FailOutcome now i row queued (after now (pos_part i.backoff / 1_000_000))
  exhausted :
      i.retryable ≡ true
      → row.max_attempts ≤ row.attempt
      → FailOutcome now i row dead_letter row.next_run_at

set_failed-FailOutcome :
    (now : ℕ) (i : FailJobInput) (row : Row)
    → let s =
        set_failed now i.retryable
          (pos_part i.backoff / 1_000_000)
          i.failure_code
          i.failure_message
          row in
      FailOutcome now i row s.state s.next_run_at
unfolding set_failed
set_failed-FailOutcome now i row = grind (arith, permanent, again, exhausted)

fail_job_whole :
    (c : Call) (i : FailJobInput) (r : Repo) (row : Row)
    → IsLive c
    → r.closed ≡ false
    → Distinct same_key r.rows
    → validate_fail i ≡ ok tt
    → at i.tenant_id i.job_id r.rows ≡ some row
    → holds_lease c.now (fail_fence i) row ≡ true
    → fail_job c i r ≡ (
      ok tt,
      record r {
        rows =
            update_where
              (holds_lease c.now (fail_fence i))
              (set_failed c.now i.retryable
                (pos_part i.backoff / 1_000_000)
                i.failure_code
                i.failure_message)
              r.rows;
      },
    )
unfolding fail_job open_repo
fail_job_whole c i r row live opened d valid found passed =
    let f = fail_fence i in
    let set =
      set_failed c.now i.retryable (pos_part i.backoff / 1_000_000) i.failure_code
        i.failure_message in
    ground (
      arith,
      live.no_context_error,
      fenced-reply c f (holds_lease c.now f) set false r live (holds_lease-KeyTest c.now f) d,
    )

-- On an open repository, with a live call and a valid input whose fence holds the lease of its job:
-- FailJob returns no error, and the job is found without a lease, with its attempt, token and request as
-- before, failed for good if the failure is not retryable, queued after the backoff if it is and an
-- attempt is left, and a dead letter otherwise.
pub fail_job_held :
    (c : Call) (i : FailJobInput) (r : Repo) (row : Row)
    → IsLive c
    → r.closed ≡ false
    → Distinct same_key r.rows
    → validate_fail i ≡ ok tt
    → at i.tenant_id i.job_id r.rows ≡ some row
    → Holds c.now (fail_fence i) row
    → (s : Row) × ((fail_job c i r).0 ≡ ok tt)
      × (at i.tenant_id i.job_id (fail_job c i r).1.rows ≡ some s)
      × FailOutcome c.now i row s.state s.next_run_at
      × (s.lease_owner ≡ none)
      × (s.lease_expires_at ≡ none)
      × (s.attempt ≡ row.attempt)
      × (s.lease_token ≡ row.lease_token)
      × (s.request ≡ row.request)
fail_job_held c i r row live opened d valid found held = (
  set row,
  ap (λ (o : Result Error Unit × Repo). o.0) whole,
  ap (λ (o : Result Error Unit × Repo). at i.tenant_id i.job_id o.1.rows) whole ∙ after_update,
  set_failed-FailOutcome c.now i row,
  unfold set_failed in refl,
  unfold set_failed in refl,
  unfold set_failed in refl,
  unfold set_failed in refl,
  unfold set_failed in refl,
)
  where
    test : Row → Bool
    test = holds_lease c.now (fail_fence i)

    set : Row → Row
    set =
        set_failed c.now i.retryable (pos_part i.backoff / 1_000_000) i.failure_code
          i.failure_message

    passed : test row ≡ true
    passed = holds_lease-of-Holds c.now (fail_fence i) row held

    whole : fail_job c i r ≡ (ok tt, record r { rows = update_where test set r.rows })
    whole = fail_job_whole c i r row live opened d valid found passed

    after_update : at i.tenant_id i.job_id (update_where test set r.rows) ≡ some (set row)
    after_update =
        at-update_where i.tenant_id i.job_id test set r.rows (λ s.
          key-set_failed i.tenant_id i.job_id c.now s i.retryable _ i.failure_code
            i.failure_message)
        ∙ rw found (rw passed refl)
