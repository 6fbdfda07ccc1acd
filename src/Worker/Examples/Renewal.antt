-- ===== src/Worker/Examples/Renewal.antt =====
-- The theorems of the renewal loop, at a job whose lease is reclaimed and at one whose cancellation is requested.
use progo_a2a.Prelude.{
  is_some, ℕ, ◌<◌, ◌≡◌, refl, true, false, none, some, List, [], ◌∷◌, inl, inr, ok, arith, is_blank,
  rune_count, sql_trim,
}
use progo_a2a.Prelude.Int.{pos}
use progo_a2a.Job.{fence, validate_fence, validate_create, check_text}
use progo_a2a.Ledger.Row.{Row, has_key, scan_job, update_where, count_where}
use progo_a2a.Ledger.Statements.{
  null_if_blank, may_run, set_running, choose, selected, is_ready, set_leased, is_expired,
  set_reclaimed, set_cancel,
}
use progo_a2a.Ledger.Constraints.{passes_checks}
use progo_a2a.Ledger.Repository.{
  conflicts, create_job, acquire_leases, mark_running, reclaim_expired_leases, cancel_job,
  validate_lease_duration,
}
use progo_a2a.Ledger.Repository.Monad.{Repo, Call, Wire, open_repo, exec, query}
use progo_a2a.Ledger.Repository.Payloads.{marshal_job_payload, compute_job_idempotency_hash}
use progo_a2a.Ledger.Action.{Action, run, run_all}
use progo_a2a.Ledger.Lookup.{at}
use progo_a2a.Ledger.Outcomes.{Holds}
use progo_a2a.Ledger.Fencing.{IsLive}
use progo_a2a.Ledger.Table.{empty_repo, reachable-IsLedger}
use progo_a2a.Worker.Renewal.{
  Tick, run_lease_renewal, renewal_tick, StoppedIdle, renewal-stops, renewal-acknowledges,
  acknowledged,
}
use progo_a2a.Worker.Examples.{plain, call_at, input, snapshot}

abbrev mark : Call × Action plain
mark = (call_at 30, Action.mark_running (fence snapshot))

abbrev reclaimed_calls : List (Call × Action plain)
reclaimed_calls =
    (call_at 10, Action.create input)
    ∷ (call_at 20, Action.acquire (λ r. false) "w1" (pos 5) (pos 1_000_000))
    ∷ mark
    ∷ (call_at 2000, Action.reclaim (λ r. false) (pos 5) (pos 1_000_000))
    ∷ []

abbrev canceled_calls : List (Call × Action plain)
canceled_calls =
    (call_at 10, Action.create input)
    ∷ (call_at 20, Action.acquire (λ r. false) "w1" (pos 5) (pos 1_000_000))
    ∷ mark
    ∷ (call_at 40, Action.cancel "acme" "job-1")
    ∷ []

reclaimed_repo : Repo
unfolding run_all
reclaimed_repo = run_all plain reclaimed_calls empty_repo

canceled_repo : Repo
unfolding run_all
canceled_repo = run_all plain canceled_calls empty_repo

-- A round trip that is refused, and a tick whose calls are answered.
abbrev refused_call : Call
refused_call = record { context = none; now = 2500; first = Wire.refused; second = Wire.refused }

abbrev tick : Call → Tick plain
tick c = record { before = []; check_call = c; acknowledge_call = c; renew_call = c }

call_at-IsLive : (now : ℕ) → IsLive (call_at now)
call_at-IsLive now = record {
  no_context_error = refl;
  first_answered = refl;
  second_answered = refl;
}

reclaimed_row :
    (row : Row) × (at "acme" "job-1" reclaimed_repo.rows ≡ some row)
    × (snapshot.lease_token < row.lease_token)
    × (reclaimed_repo.closed ≡ false)
unfolding reclaimed_repo run_all run create_job acquire_leases mark_running open_repo exec query
    fence validate_fence validate_create check_text is_blank rune_count null_if_blank
    marshal_job_payload compute_job_idempotency_hash passes_checks sql_trim conflicts update_where
    count_where choose selected is_ready set_leased may_run set_running has_key scan_job
    reclaim_expired_leases is_expired set_reclaimed
reclaimed_row = (_, refl, omega arith, refl)

snapshot-valid : validate_fence (fence snapshot) ≡ ok tt
unfolding validate_fence fence check_text is_blank rune_count
snapshot-valid = refl

timely : (r : Repo) → validate_lease_duration (pos 1_000_000) r ≡ (ok tt, r)
unfolding validate_lease_duration
timely r = refl

renewal-stops_example :
    StoppedIdle plain
      (pos 1_000_000)
      snapshot
      (tick refused_call ∷ tick (call_at 3000) ∷ [])
      reclaimed_repo
      (run_lease_renewal plain
        (pos 1_000_000)
        snapshot
        (tick refused_call ∷ tick (call_at 3000) ∷ [])
        reclaimed_repo)
renewal-stops_example =
    renewal-stops plain (pos 1_000_000) snapshot snapshot-valid timely
      (tick refused_call ∷ tick (call_at 3000) ∷ []) reclaimed_repo reclaimed_row.0
      (unfold reclaimed_repo in reachable-IsLedger plain reclaimed_calls) reclaimed_row.3
      reclaimed_row.1 reclaimed_row.2 (inr (inl (call_at-IsLive 3000, call_at-IsLive 3000)))

canceled_row :
    (row : Row) × (at "acme" "job-1" canceled_repo.rows ≡ some row)
    × Holds 50 (fence snapshot) row
    × (is_some row.cancel_requested_at ≡ true)
    × (canceled_repo.closed ≡ false)
unfolding canceled_repo run_all run create_job acquire_leases mark_running open_repo exec query
    fence validate_fence validate_create check_text is_blank rune_count null_if_blank
    marshal_job_payload compute_job_idempotency_hash passes_checks sql_trim conflicts update_where
    count_where choose selected is_ready set_leased may_run set_running has_key scan_job cancel_job
    set_cancel
canceled_row = (
  _,
  refl,
  record {
    tenant = refl;
    job = refl;
    owner = refl;
    token = refl;
    active = refl;
    expiry = _;
    expires = refl;
    unexpired = omega arith;
  },
  refl,
  refl,
)

renewal-acknowledges_example :
    ((renewal_tick plain (pos 1_000_000) snapshot (tick (call_at 50)) canceled_repo).0 ≡ true)
    × (at "acme" "job-1"
          (renewal_tick plain (pos 1_000_000) snapshot (tick (call_at 50)) canceled_repo).1.rows
        ≡ some (acknowledged 50 canceled_row.0))
renewal-acknowledges_example =
    renewal-acknowledges plain (pos 1_000_000) snapshot snapshot-valid timely (tick (call_at 50))
      canceled_repo canceled_row.0 (call_at-IsLive 50) (call_at-IsLive 50) canceled_row.4
      (unfold canceled_repo in (reachable-IsLedger plain canceled_calls).keys) canceled_row.1
      canceled_row.2 canceled_row.3
