-- ===== src/Worker/Renewal.antt =====
-- `runLeaseRenewal` of pkg/worker/worker.go over the job ledger, one tick of its timer at a time. The times out of
-- its calls are part of the calls; the log and the hooks of the tests are left out.
use progo_a2a.Prelude.{
  ◌<◌, ℕ, suc, ◌≡◌, refl, ◌∙◌, ◌∷◌, ◌++◌, Bool, true, false, none, some, List, [], Result, ok, err,
  arith, Bool-cases, inl, inr, ◌⊎◌, take, sym, is_some,
}
use mathlib.Core.List.{append-nil}
use progo_a2a.Prelude.Int.{ℤ}
use progo_a2a.Job.{Job, LeaseFence, canceled, fence, validate_fence}
use progo_a2a.Ledger.Row.{Row, has_key, scan_job}
use progo_a2a.Ledger.Statements.{holds_lease, may_acknowledge, set_canceled}
use progo_a2a.Ledger.Keys.{Distinct, same_key}
use progo_a2a.Ledger.Lookup.{at, at-update_where}
use progo_a2a.Ledger.Fencing.{IsLive, fenced-reply, may_acknowledge-KeyTest}
use progo_a2a.Ledger.Repository.{
  get_job, renew_lease, acknowledge_cancellation, validate_lease_duration,
}
use progo_a2a.Ledger.Repository.Monad.{Repo, Call, Error, open_repo, query}
use progo_a2a.Ledger.Repository.Payloads.{Encoding}
use progo_a2a.Ledger.Outcomes.{Holds, holds_lease-of-Holds}
use progo_a2a.Ledger.Action.{Action, run, run_all}
use progo_a2a.Ledger.Table.{IsLedger, run_all-IsLedger}
use progo_a2a.Ledger.History.{job_history}
use progo_a2a.Ledger.Stale.{has_lease_stale, acknowledge_cancellation-Idle, renew_lease-Idle}
use progo_a2a.Ledger.Unheld.{renew_lease-Refused}
use progo_a2a.Ledger.Open.{run_all-closed}

-- One tick: what others write since the last one, and the calls that the loop may make at it.
pub record Tick (e : Encoding) : Type 0 where
  pub before : List (Call × Action e)
  pub check_call : Call
  pub acknowledge_call : Call
  pub renew_call : Call

-- `errors.Is(err, ErrLeaseLost) || errors.Is(err, ErrJobNotFound)`
abbrev pub is_lost : Result Error Unit → Bool
is_lost (err Error.lease_lost) = true
is_lost (err Error.job_not_found) = true
is_lost _ = false

-- The row of a job whose cancellation is acknowledged: it is as before but for these columns.
abbrev pub acknowledged : ℕ → Row → Row
acknowledged now row = record row {
  state = canceled;
  lease_owner = none;
  lease_expires_at = none;
  updated_at = now;
}

module _ (e : Encoding) (duration : ℤ) (job : Job) where
  -- The second half of a tick. A result `true` is that `cancelJob` is called and the loop returns.
  unfoldable pub renew_active : Tick e → Repo → Bool × Repo
  unfolding renew_lease fence
  renew_active t r =
      let (reply, r) = renew_lease t.renew_call (fence job) duration r in (is_lost reply, r)

  -- What follows the answer of `GetJob`.
  unfoldable pub after_check : Tick e → Result Error Job → Repo → Bool × Repo
  unfolding renew_active acknowledge_cancellation fence
  after_check t (err Error.job_not_found) r = (true, r)
  after_check t (err _) r = renew_active t r
  after_check t (ok snap) r = elim snap.cancel_requested_at [
    | some _ ↦ (true, (acknowledge_cancellation t.acknowledge_call (fence job) r).1)
    | none ↦ renew_active t r
  ]

  unfoldable pub renewal_tick : Tick e → Repo → Bool × Repo
  unfolding after_check
  renewal_tick t r =
      let (reply, r) = get_job t.check_call job.tenant_id job.id r in after_check t reply r

  -- The loop, over the ticks until its context is done.
  unfoldable pub run_lease_renewal : List (Tick e) → Repo → Bool × Repo
  unfolding renewal_tick
  run_lease_renewal [] r = (false, r)
  run_lease_renewal (t ∷ ticks) r =
      let (stopped, r) = renewal_tick t (run_all e t.before r) in
      elim stopped [ true ↦ (true, r) | false ↦ run_lease_renewal ticks r ]

  -- A tick whose check and renewal are answered.
  abbrev pub Answered : Tick e → Type 0
  Answered t = IsLive t.check_call × IsLive t.renew_call

  abbrev pub SomeAnswered : List (Tick e) → Type 0
  SomeAnswered [] = ⊥
  SomeAnswered (t ∷ ticks) = Answered t ⊎ SomeAnswered ticks

  -- What others write during some ticks.
  abbrev pub others : List (Tick e) → List (Call × Action e)
  others [] = []
  others (t ∷ ticks) = t.before ++ others ticks

  run_all-append :
      (xs ys : List (Call × Action e)) (r : Repo)
      → run_all e (xs ++ ys) r ≡ run_all e ys (run_all e xs r)
  unfolding run_all
  run_all-append [] ys r = refl
  run_all-append ((c, a) ∷ xs) ys r = run_all-append xs ys (run e c a r)

  -- The loop has stopped the execution, and the table is as the others left it after some of the ticks.
  abbrev pub StoppedIdle : List (Tick e) → Repo → Bool × Repo → Type 0
  StoppedIdle ticks r out = (out.0 ≡ true) × (n : ℕ) × (out.1 ≡ run_all e (others (take n ticks)) r)

  module _ (valid : validate_fence (fence job) ≡ ok tt)
      (timely : (r : Repo) → validate_lease_duration duration r ≡ (ok tt, r)) where
    -- A tick after the lease has been taken over leaves the table.
    tick_stale :
        (t : Tick e) (r : Repo) (row : Row)
        → Distinct same_key r.rows
        → at job.tenant_id job.id r.rows ≡ some row
        → job.lease_token < row.lease_token
        → (renewal_tick t r).1 ≡ r
    unfolding renewal_tick after_check renew_active get_job open_repo query fence
    tick_stale t r row d found behind = ground (
      arith,
      (acknowledge_cancellation-Idle t.acknowledge_call (fence job) r row d found behind).0,
      (renew_lease-Idle t.renew_call (fence job) r row d found behind duration).0,
    )

    -- The reply of the check, for a job that is there.
    checked :
        (c : Call) (r : Repo) (row : Row)
        → IsLive c
        → r.closed ≡ false
        → at job.tenant_id job.id r.rows ≡ some row
        → get_job c job.tenant_id job.id r ≡ (ok (scan_job row), r)
    unfolding get_job open_repo query fence validate_fence
    checked c r row live opened found =
        ground (arith, live.no_context_error, live.first_answered, opened, found, valid)

    tick_stops :
        (t : Tick e) (r : Repo) (row : Row)
        → Answered t
        → r.closed ≡ false
        → Distinct same_key r.rows
        → at job.tenant_id job.id r.rows ≡ some row
        → job.lease_token < row.lease_token
        → (renewal_tick t r).0 ≡ true
    unfolding renewal_tick after_check renew_active holds_lease fence scan_job
    tick_stops t r row (check, renewal) opened d found behind =
        let missed : holds_lease t.renew_call.now (fence job) row ≡ false =
          ground (arith, has_lease_stale t.renew_call.now (fence job) row behind) in
        ground (
          arith,
          checked t.check_call r row check opened found,
          renew_lease-Refused t.renew_call (fence job) duration r row renewal opened d valid
              (timely r) found missed,
        )

    -- Once the lease of a job has been taken over, so that the token of its row is ahead of that of the worker's
    -- snapshot, the renewal loop writes nothing, whatever its calls meet and whatever others write; and at the latest at
    -- its first tick whose check and renewal are answered, it cancels the execution of the job. The repository is
    -- open, and the fence and the duration are valid.
    pub renewal-stops :
        (ticks : List (Tick e)) (r : Repo) (row : Row)
        → IsLedger r.rows
        → r.closed ≡ false
        → at job.tenant_id job.id r.rows ≡ some row
        → job.lease_token < row.lease_token
        → SomeAnswered ticks
        → StoppedIdle ticks r (run_lease_renewal ticks r)
    unfolding run_lease_renewal
    renewal-stops [] r row l opened found behind some_answered = absurd some_answered
    renewal-stops (t ∷ ticks) r row l opened found behind some_answered =
        let now = run_all e t.before r in
        let ledger = run_all-IsLedger e t.before r l in
        let (s, found', grown) = job_history e t.before r job.tenant_id job.id row l found in
        let behind' : job.lease_token < s.lease_token = omega (arith, grown.token_grows, behind) in
        let opened' : now.closed ≡ false = run_all-closed e t.before r ∙ opened in
        let still = tick_stale t now s ledger.keys found' behind' in
        elim (Bool-cases (renewal_tick t now).0) [
          | inl stopped ↦
              let runs : run_lease_renewal (t ∷ ticks) r ≡ (true, (renewal_tick t now).1) =
                rw (run_lease_renewal, stopped) refl in
              rw runs (refl, 1, still ∙ rw append-nil refl)
          | inr goes_on ↦
              let runs : run_lease_renewal (t ∷ ticks) r
                  ≡ run_lease_renewal ticks (renewal_tick t now).1 =
                rw (run_lease_renewal, goes_on) refl in
              let rest : SomeAnswered ticks = elim some_answered [
                | inl a ↦
                    absurd (cc (goes_on, tick_stops t now s a opened' ledger.keys found' behind'))
                | inr later ↦ later
              ] in
              let (stops, n, writes) =
                renewal-stops ticks now s ledger opened' found' behind' rest in
              rw (runs, still)
                (stops, suc n, writes ∙ sym (run_all-append t.before (others (take n ticks)) r))
        ]

    may_acknowledge-of-Holds :
        (now : ℕ) (f : LeaseFence) (row : Row)
        → Holds now f row
        → is_some row.cancel_requested_at ≡ true
        → may_acknowledge now f row ≡ true
    unfolding may_acknowledge holds_lease
    may_acknowledge-of-Holds now f row h asked =
        ground (arith, asked, holds_lease-of-Holds now f row h)

    -- When the cancellation of a job is requested while the worker's lease of it still holds, a tick whose check and
    -- acknowledgement are answered cancels the execution, and the row of the job is then canceled, without a lease,
    -- updated at the time of the acknowledgement, every other column as it was.
    pub renewal-acknowledges :
        (t : Tick e) (r : Repo) (row : Row)
        → IsLive t.check_call
        → IsLive t.acknowledge_call
        → r.closed ≡ false
        → Distinct same_key r.rows
        → at job.tenant_id job.id r.rows ≡ some row
        → Holds t.acknowledge_call.now (fence job) row
        → is_some row.cancel_requested_at ≡ true
        → ((renewal_tick t r).0 ≡ true)
          × (at job.tenant_id job.id (renewal_tick t r).1.rows
              ≡ some (acknowledged t.acknowledge_call.now row))
    unfolding renewal_tick after_check acknowledge_cancellation open_repo fence scan_job
        set_canceled may_acknowledge has_key
    renewal-acknowledges t r row check answered opened d found holds asked =
        let f = fence job in
        let c = t.acknowledge_call in
        let test = may_acknowledge c.now f in
        let may = may_acknowledge-of-Holds c.now f row holds asked in
        ground (
          arith,
          checked t.check_call r row check opened found,
          answered.no_context_error,
          may,
          fenced-reply c f test (set_canceled c.now) false r answered
              (may_acknowledge-KeyTest c.now f) d,
          at-update_where job.tenant_id job.id test (set_canceled c.now) r.rows (λ s. refl),
        )
