-- ===== src/Ledger/Open.antt =====
-- No method of the repository closes it.
use progo_a2a.Prelude.{◌≡◌, refl, ◌∷◌, [], List, ◌∙◌, arith, ok, Bool, true, false}
use progo_a2a.Job.{LeaseFence, fail_fence}
use progo_a2a.Ledger.Row.{Row}
use progo_a2a.Prelude.{◌/◌}
use progo_a2a.Prelude.Int.{pos_part}
use progo_a2a.Ledger.Statements.{
  may_run, set_running, holds_lease, set_renewed, set_succeeded, set_failed, may_acknowledge,
  set_canceled,
}
use progo_a2a.Ledger.Evolution.Writes.{or_blank}
use progo_a2a.Ledger.Repository.{
  create_job, acquire_leases, mark_running, renew_lease, complete_job, fail_job, cancel_job,
  acknowledge_cancellation, reclaim_expired_leases, fenced, load_existing,
}
use progo_a2a.Ledger.Repository.Monad.{Repo, Call, M, exec, query, open_repo}
use progo_a2a.Ledger.Repository.Payloads.{Encoding, marshal_job_payload}
use progo_a2a.Ledger.Action.{
  Action, create, acquire, renew, complete, fail, cancel, acknowledge, reclaim, run, run_all,
}

-- A program of the monad that leaves the flag `closed`.
abbrev Keeps : {A : Type 0} → M A → Type 0
Keeps m = (r : Repo) → (m r).1.closed ≡ r.closed

fenced-Keeps :
    (c : Call) (f : LeaseFence) (test : Row → Bool) (set : Row → Row) (report : Bool)
    → Keeps (fenced c f test set report)
unfolding fenced exec query
fenced-Keeps c f test set report r = ground arith

module _ (e : Encoding) where
  run-closed : (c : Call) (a : Action e) → Keeps (λ r. (ok tt, run e c a r))
  unfolding run open_repo exec query create_job acquire_leases mark_running renew_lease complete_job
      fail_job cancel_job acknowledge_cancellation reclaim_expired_leases load_existing
  run-closed c (create input) r = ground arith
  run-closed c (acquire locked owner batch duration) r = ground arith
  run-closed c (Action.mark_running f) r =
      ground (arith, fenced-Keeps c f (may_run c.now f) (set_running c.now) true r)
  run-closed c (renew f duration) r = ground (
    arith,
    fenced-Keeps c f (holds_lease c.now f) (set_renewed c.now (pos_part duration / 1_000_000)) false
        r,
  )
  run-closed c (complete f response) r = ground (
    arith,
    fenced-Keeps c f (holds_lease c.now f)
        (set_succeeded c.now (or_blank (marshal_job_payload e response))) false r,
  )
  run-closed c (fail i) r = ground (
    arith,
    fenced-Keeps c (fail_fence i) (holds_lease c.now (fail_fence i))
        (set_failed c.now i.retryable (pos_part i.backoff / 1_000_000) i.failure_code
          i.failure_message)
        false r,
  )
  run-closed c (cancel tenant_id job_id) r = ground arith
  run-closed c (acknowledge f) r =
      ground (arith, fenced-Keeps c f (may_acknowledge c.now f) (set_canceled c.now) false r)
  run-closed c (reclaim locked batch backoff) r = ground arith

  pub run_all-closed :
      (calls : List (Call × Action e)) (r : Repo) → (run_all e calls r).closed ≡ r.closed
  unfolding run_all
  run_all-closed [] r = refl
  run_all-closed ((c, a) ∷ calls) r = run_all-closed calls (run e c a r) ∙ run-closed c a r
