-- ===== src/Ledger/Checked/Reachable.antt =====
-- Every row that the methods of pkg/storage/postgres_jobs.go leave has the CHECK constraints of `durable_jobs`.
use Prim.Native.Char.{code}
use progo_a2a.Prelude.{◌≡◌, refl, String, Bool, List, [], ◌∷◌, arith, Result, ok, err}
use progo_a2a.Prelude.Int.{ℤ}
use progo_a2a.Job.{
  JobError, FailJobInput, CreateJobInput, check_text, validate_fail, validate_create,
  max_lease_owner_length, empty_lease_owner, lease_owner_too_long,
}
use progo_a2a.Job.Validation.{check_text-IsText, validate_fail-lengths}
use progo_a2a.Ledger.Row.{Row}
use progo_a2a.Ledger.Repository.{acquire_leases, fail_job, create_job}
use progo_a2a.Ledger.Repository.Monad.{Repo, Call, open_repo, exec}
use progo_a2a.Ledger.Repository.Payloads.{Encoding, Payload}
use progo_a2a.Ledger.Action.{Action, run, run_all}
use progo_a2a.Ledger.Table.{IsLedger, empty_repo, reachable-IsLedger}
use progo_a2a.Ledger.Evolution.Writes.{
  mark_running-Writes, renew_lease-Writes, complete_job-Writes, fail_job-Writes,
  acknowledge_cancellation-Writes, cancel_job-Writes, reclaim_expired_leases-Writes,
  acquire_leases-Writes, row_of, create_job-Writes, create_job-refused,
}
use progo_a2a.Ledger.Checked.{text-Within}
use progo_a2a.Ledger.Checked.Updates.{
  set_running-IsChecked, set_renewed-IsChecked, set_succeeded-IsChecked, set_failed-IsChecked,
  set_cancel-IsChecked, set_canceled-IsChecked, set_leased-IsChecked, set_reclaimed-IsChecked,
  AllChecked, updated, inserted,
}

module _ (e : Encoding) (c : Call) where
  create-AllChecked :
      (input : CreateJobInput (Payload e)) (r : Repo)
      → AllChecked r.rows
      → AllChecked (create_job e c input r).1.rows
  create-AllChecked input r h = go (validate_create input) refl
    where
      go :
          (v : Result JobError (Payload e))
          → validate_create input ≡ v
          → AllChecked (create_job e c input r).1.rows
      go (err x) p = rw (create_job-refused e c input x r p) h
      go (ok request) p =
          inserted r.rows _ (row_of e c.now input request) h
            (create_job-Writes e c input request r p)

  -- An owner that is refused writes nothing.
  acquire_leases-refused :
      (locked : Row → Bool) (owner : String) (batch duration : ℤ) (x : JobError) (r : Repo)
      → check_text owner max_lease_owner_length empty_lease_owner lease_owner_too_long ≡ err x
      → (acquire_leases c locked owner batch duration r).1 ≡ r
  unfolding acquire_leases open_repo exec
  acquire_leases-refused locked owner batch duration x r p = ground (arith, p)

  acquire-AllChecked :
      (locked : Row → Bool) (owner : String) (batch duration : ℤ) (r : Repo)
      → AllChecked r.rows
      → AllChecked (acquire_leases c locked owner batch duration r).1.rows
  acquire-AllChecked locked owner batch duration r h =
      go (check_text owner max_lease_owner_length empty_lease_owner lease_owner_too_long) refl
    where
      go :
          (v : Result JobError Unit)
          → check_text owner max_lease_owner_length empty_lease_owner lease_owner_too_long ≡ v
          → AllChecked (acquire_leases c locked owner batch duration r).1.rows
      go (err x) p = rw (acquire_leases-refused locked owner batch duration x r p) h
      go (ok tt) p =
          let text = check_text-IsText owner max_lease_owner_length _ _ p in
          updated r.rows _ _ _
            (λ s k.
              set_leased-IsChecked c.now s k owner _
                (text-Within 256 owner text.filled text.bounded))
            h (acquire_leases-Writes c locked owner batch duration r)

  -- A failure that is refused writes nothing.
  fail_job-refused :
      (i : FailJobInput) (x : JobError) (r : Repo)
      → validate_fail i ≡ err x
      → (fail_job c i r).1 ≡ r
  unfolding fail_job open_repo
  fail_job-refused i x r p = ground (arith, p)

  fail-AllChecked :
      (i : FailJobInput) (r : Repo) → AllChecked r.rows → AllChecked (fail_job c i r).1.rows
  fail-AllChecked i r h = go (validate_fail i) refl
    where
      go : (v : Result JobError Unit) → validate_fail i ≡ v → AllChecked (fail_job c i r).1.rows
      go (err x) p = rw (fail_job-refused i x r p) h
      go (ok tt) p =
          let (code, message) = validate_fail-lengths i p in
          updated r.rows _ _ _ (λ s k. set_failed-IsChecked c.now s k _ _ _ _ code message) h
            (fail_job-Writes c i r)

  run-AllChecked : (a : Action e) (r : Repo) → AllChecked r.rows → AllChecked (run e c a r).rows
  unfolding run
  run-AllChecked (Action.create input) r h = create-AllChecked input r h
  run-AllChecked (Action.acquire locked owner batch duration) r h =
      acquire-AllChecked locked owner batch duration r h
  run-AllChecked (Action.mark_running f) r h =
      updated r.rows _ _ _ (λ s k. set_running-IsChecked c.now s k) h (mark_running-Writes c f r)
  run-AllChecked (Action.renew f duration) r h =
      updated r.rows _ _ _ (λ s k. set_renewed-IsChecked c.now s k _) h
        (renew_lease-Writes c f duration r)
  run-AllChecked (Action.complete f response) r h =
      updated r.rows _ _ _ (λ s k. set_succeeded-IsChecked c.now s k _) h
        (complete_job-Writes e c f response r)
  run-AllChecked (Action.fail i) r h = fail-AllChecked i r h
  run-AllChecked (Action.cancel tenant_id job_id) r h =
      updated r.rows _ _ _ (λ s k. set_cancel-IsChecked c.now s k) h
        (cancel_job-Writes c tenant_id job_id r)
  run-AllChecked (Action.acknowledge f) r h =
      updated r.rows _ _ _ (λ s k. set_canceled-IsChecked c.now s k) h
        (acknowledge_cancellation-Writes c f r)
  run-AllChecked (Action.reclaim locked batch backoff) r h =
      updated r.rows _ _ _ (λ s k. set_reclaimed-IsChecked c.now s k _) h
        (reclaim_expired_leases-Writes c locked batch backoff r)

module _ (e : Encoding) where
  run_all-AllChecked :
      (calls : List (Call × Action e)) (r : Repo)
      → AllChecked r.rows
      → AllChecked (run_all e calls r).rows
  unfolding run_all
  run_all-AllChecked [] r h = h
  run_all-AllChecked ((c, a) ∷ rest) r h =
      run_all-AllChecked rest (run e c a r) (run-AllChecked e c a r h)

  -- Whatever calls are made from an empty table, with failures of any kind, and whatever rows other transactions hold: the
  -- primary keys and the idempotency keys stay distinct, and every row has the CHECK constraints of
  -- 002_create_durable_jobs.sql: texts that are filled and within their lengths, a hash of 64 hexadecimal digits, an agent
  -- or a capability, a maximum of 1 to 100 attempts, and an owner and an expiry exactly while the job is leased or running,
  -- with a positive token then. Besides, no attempt is beyond the maximum, one is left while the job is queued, and the job
  -- has a response exactly when it succeeded.
  pub reachable-AllChecked :
      (calls : List (Call × Action e))
      → let rows = (run_all e calls empty_repo).rows in IsLedger rows × AllChecked rows
  reachable-AllChecked calls = (reachable-IsLedger e calls, run_all-AllChecked calls empty_repo tt)
