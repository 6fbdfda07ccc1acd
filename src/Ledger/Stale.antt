-- ===== src/Ledger/Stale.antt =====
-- A fence whose lease token is behind that of its job does nothing, whatever has happened in between.
use progo_a2a.Prelude.{
  ℕ, ◌<◌, ◌/◌, String, ◌≡◌, ◌≢◌, refl, Bool, true, false, some, List, arith, any, Result, ok, err,
  Option-cases, inl, inr,
}
use progo_a2a.Prelude.Int.{ℤ, pos_part}
use progo_a2a.Job.{LeaseFence, FailJobInput, fail_fence}
use progo_a2a.Ledger.Row.{Row}
use progo_a2a.Ledger.Statements.{
  has_lease, holds_lease, may_run, may_acknowledge, set_running, set_renewed, set_succeeded,
  set_failed, set_canceled,
}
use progo_a2a.Ledger.Keys.{Distinct, same_key}
use progo_a2a.Ledger.Lookup.{at, update_unmatched, any-at}
use progo_a2a.Ledger.Fencing.{holds_lease-KeyTest, may_run-KeyTest, may_acknowledge-KeyTest}
use progo_a2a.Ledger.Repository.{
  fenced, mark_running, renew_lease, complete_job, fail_job, acknowledge_cancellation,
}
use progo_a2a.Ledger.Repository.Monad.{Error, M, Repo, Call, exec, query, open_repo}
use progo_a2a.Ledger.Repository.Payloads.{Encoding, Payload, marshal_job_payload}
use progo_a2a.Ledger.Action.{Action, run_all}
use progo_a2a.Ledger.Table.{IsLedger, run_all-IsLedger}
use progo_a2a.Ledger.History.{job_history}

-- The call fails and leaves the repository.
abbrev pub Idle : M Unit → Repo → Type 0
Idle m r = ((m r).1 ≡ r) × ((m r).0 ≢ ok tt)

fenced-Idle :
    (c : Call) (f : LeaseFence) (test : Row → Bool) (set : Row → Row) (report : Bool) (r : Repo)
    → any test r.rows ≡ false
    → Idle (fenced c f test set report) r
unfolding fenced exec query
fenced-Idle c f test set report r h =
    let (u, n) = update_unmatched test set r.rows h in (ground arith, λ q. ground arith)

-- A token that differs from the one of the row.
pub has_lease_stale :
    (now : ℕ) (f : LeaseFence) (r : Row)
    → pos_part f.lease_token < r.lease_token
    → has_lease now f r ≡ false
unfolding has_lease
has_lease_stale now f r h = ground arith

module _ (c : Call) (f : LeaseFence) (r : Repo) (row : Row) (d : Distinct same_key r.rows)
    (found : at f.tenant_id f.job_id r.rows ≡ some row)
    (behind : pos_part f.lease_token < row.lease_token) where
  no_lease : any (holds_lease c.now f) r.rows ≡ false
  unfolding holds_lease
  no_lease = ground (
    arith,
    any-at f.tenant_id f.job_id (holds_lease c.now f) r.rows (holds_lease-KeyTest c.now f) d,
    has_lease_stale c.now f row behind,
  )

  no_run : any (may_run c.now f) r.rows ≡ false
  unfolding may_run
  no_run = ground (
    arith,
    any-at f.tenant_id f.job_id (may_run c.now f) r.rows (may_run-KeyTest c.now f) d,
    has_lease_stale c.now f row behind,
  )

  no_acknowledgement : any (may_acknowledge c.now f) r.rows ≡ false
  unfolding may_acknowledge
  no_acknowledgement = ground (
    arith,
    any-at f.tenant_id f.job_id (may_acknowledge c.now f) r.rows (may_acknowledge-KeyTest c.now f)
        d,
    has_lease_stale c.now f row behind,
  )

  mark_running-Idle : Idle (mark_running c f) r
  unfolding mark_running open_repo
  mark_running-Idle =
      let (u, n) = fenced-Idle c f (may_run c.now f) (set_running c.now) true r no_run in
      (ground arith, λ q. ground arith)

  pub acknowledge_cancellation-Idle : Idle (acknowledge_cancellation c f) r
  unfolding acknowledge_cancellation open_repo
  acknowledge_cancellation-Idle =
      let (u, n) =
        fenced-Idle c f (may_acknowledge c.now f) (set_canceled c.now) false r no_acknowledgement in
      (ground arith, λ q. ground arith)

  pub renew_lease-Idle : (duration : ℤ) → Idle (renew_lease c f duration) r
  unfolding renew_lease open_repo
  renew_lease-Idle duration =
      let set = set_renewed c.now (pos_part duration / 1_000_000) in
      let (u, n) = fenced-Idle c f (holds_lease c.now f) set false r no_lease in
      (ground arith, λ q. ground arith)

  complete_job-Idle :
      (e : Encoding) (response : Payload e) (bytes : Result Error String)
      → marshal_job_payload e response ≡ bytes
      → Idle (complete_job e c f response) r
  unfolding complete_job open_repo
  complete_job-Idle e response (err x) h = (ground arith, λ q. ground arith)
  complete_job-Idle e response (ok bytes) h = elim (Option-cases (e.jsonb bytes)) [
    | inl x ↦ (ground (arith, h, x), λ q. ground (arith, h, x))
    | inr (stored, x) ↦
        let set = set_succeeded c.now stored in
        let (u, n) = fenced-Idle c f (holds_lease c.now f) set false r no_lease in
        (ground (arith, h, x), λ q. ground (arith, h, x))
  ]

pub fail_job-Idle :
    (c : Call) (i : FailJobInput) (r : Repo) (row : Row)
    → Distinct same_key r.rows
    → at i.tenant_id i.job_id r.rows ≡ some row
    → pos_part i.lease_token < row.lease_token
    → Idle (fail_job c i) r
unfolding fail_job open_repo
fail_job-Idle c i r row d found behind =
    let f = fail_fence i in
    let set =
      set_failed c.now i.retryable (pos_part i.backoff / 1_000_000) i.failure_code
        i.failure_message in
    let (u, n) =
      fenced-Idle c f (holds_lease c.now f) set false r (no_lease c f r row d found behind) in
    (ground arith, λ q. ground arith)

-- If a fence's token is behind the token of its job, then after any further calls, with any failures,
-- none of the five fenced methods does anything by that fence: the repository stays as it is, and the
-- call returns an error.
pub stale_fence :
    (e : Encoding) (calls : List (Call × Action e)) (c : Call) (i : FailJobInput)
    (response : Payload e) (duration : ℤ) (r : Repo) (row : Row)
    → IsLedger r.rows
    → at i.tenant_id i.job_id r.rows ≡ some row
    → pos_part i.lease_token < row.lease_token
    → let later = run_all e calls r in
      Idle (mark_running c (fail_fence i)) later
      × Idle (renew_lease c (fail_fence i) duration) later
      × Idle (complete_job e c (fail_fence i) response) later
      × Idle (fail_job c i) later
      × Idle (acknowledge_cancellation c (fail_fence i)) later
stale_fence e calls c i response duration r row l found behind =
    let f = fail_fence i in
    let later = run_all e calls r in
    let (s, found', grown) = job_history e calls r i.tenant_id i.job_id row l found in
    let d = (run_all-IsLedger e calls r l).keys in
    let behind' : pos_part i.lease_token < s.lease_token = omega (arith, grown.token_grows) in
    (
      mark_running-Idle c f later s d found' behind',
      renew_lease-Idle c f later s d found' behind' duration,
      complete_job-Idle c f later s d found' behind' e response _ refl,
      fail_job-Idle c i later s d found' behind',
      acknowledge_cancellation-Idle c f later s d found' behind',
    )
