-- ===== src/Ledger/Acquire.antt =====
-- What AcquireLeases returns: the leases that it took, at most as many as were asked for, in the order in
-- which they are due.
use progo_a2a.Prelude.{
  ℕ, suc, ◌≤◌, ◌<◌, ◌/◌, String, ◌≡◌, refl, sym, ap, subst, ◌∙◌, Bool, true, false, some, List, [],
  ◌∷◌, arith, Bool-cases, inl, inr, Result, ok, In, here, there, In-any,
}
use progo_a2a.Prelude.Int.{ℤ, pos_part}
use progo_a2a.Job.{
  Job, queued, fence, check_text, max_lease_owner_length, empty_lease_owner, lease_owner_too_long,
}
use progo_a2a.Ledger.Row.{Row, has_key, scan_job, update_where}
use progo_a2a.Ledger.Statements.{after, selected, choose, is_ready, runs_before, set_leased}
use progo_a2a.Ledger.Keys.{Distinct, same_key, has_key_self, has_key-sym, selected-choose}
use progo_a2a.Ledger.Lookup.{at, at-update_where}
use progo_a2a.Ledger.Fencing.{IsLive}
use progo_a2a.Ledger.Outcomes.{Holds}
use progo_a2a.Ledger.Repository.{
  acquire_leases, returning, sort_jobs, insert_job, job_before, validate_job_batch_size,
  validate_lease_duration,
}
use progo_a2a.Ledger.Repository.Monad.{Error, Repo, Call, exec, open_repo}

-- A row of a table with distinct keys is the one found by its key.
pub at-In :
    (rows : List Row) (r : Row)
    → Distinct same_key rows
    → In r rows
    → at r.tenant_id r.id rows ≡ some r
at-In [] r d i = elim i [ ]
at-In (x ∷ rows) r d (here p) =
    let self : has_key r.tenant_id r.id x ≡ true =
      subst (λ (y : Row). has_key r.tenant_id r.id y ≡ true) p (has_key_self r) in
    rw self (ap some (sym p))
at-In (x ∷ rows) r d (there i) = elim (Bool-cases (has_key r.tenant_id r.id x)) [
  | inr e ↦ rw e (at-In rows r d.1 i)
  | inl e ↦ let clash = In-any (same_key x) rows r i (has_key-sym r x e) in absurd (ground arith)
]

In-returning :
    (test : Row → Bool) (set : Row → Row) (rows : List Row) (j : Job)
    → In j (returning test set rows)
    → (r : Row) × In r rows × (test r ≡ true) × (j ≡ scan_job (set r))
unfolding returning
In-returning test set [] j i = elim i [ ]
In-returning test set (r ∷ rows) j i = elim (Bool-cases (test r)) [
  | inl e ↦ first e (rw e at i) (In-returning test set rows j)
  | inr e ↦ let (s, k, t, q) = In-returning test set rows j (rw e at i) in (s, there k, t, q)
]
  where
    first :
        test r ≡ true
        → In j (scan_job (set r) ∷ returning test set rows)
        → (In j (returning test set rows)
            → (s : Row) × In s rows × (test s ≡ true) × (j ≡ scan_job (set s)))
        → (s : Row) × In s (r ∷ rows) × (test s ≡ true) × (j ≡ scan_job (set s))
    first e (here q) ih = (r, here refl, e, q)
    first e (there k) ih = let (s, m, t, q) = ih k in (s, there m, t, q)

In-insert_job : (j : Job) (jobs : List Job) (a : Job) → In a (insert_job j jobs) → In a (j ∷ jobs)
unfolding insert_job
In-insert_job j [] a i = i
In-insert_job j (k ∷ jobs) a i = elim (Bool-cases (job_before k j)) [
  | inl e ↦ later (rw e at i) (In-insert_job j jobs a)
  | inr e ↦ rw e at i
]
  where
    later :
        In a (k ∷ insert_job j jobs)
        → (In a (insert_job j jobs) → In a (j ∷ jobs))
        → In a (j ∷ k ∷ jobs)
    later (here p) ih = there (here p)
    later (there m) ih = swap (ih m)
      where
        swap : In a (j ∷ jobs) → In a (j ∷ k ∷ jobs)
        swap (here p) = here p
        swap (there n) = there (there n)

In-sort_jobs : (jobs : List Job) (a : Job) → In a (sort_jobs jobs) → In a jobs
unfolding sort_jobs
In-sort_jobs [] a i = i
In-sort_jobs (j ∷ jobs) a i = sorted (In-insert_job j (sort_jobs jobs) a i) (In-sort_jobs jobs a)
  where
    sorted : In a (j ∷ sort_jobs jobs) → (In a (sort_jobs jobs) → In a jobs) → In a (j ∷ jobs)
    sorted (here p) ih = here p
    sorted (there m) ih = there (ih m)

key-set_leased :
    (tenant_id id : String) (now : ℕ) (owner : String) (milliseconds : ℕ) (r : Row)
    → has_key tenant_id id (set_leased now owner milliseconds r) ≡ has_key tenant_id id r
unfolding has_key set_leased
key-set_leased tenant_id id now owner milliseconds r = refl

-- The inputs of a call of AcquireLeases that passes its tests.
pub record Asks (owner : String) (batch duration : ℤ) (r : Repo) : Type 0 where
  pub owner_valid :
      check_text owner max_lease_owner_length empty_lease_owner lease_owner_too_long ≡ ok tt
  pub batch_valid : validate_job_batch_size batch r ≡ (ok tt, r)
  pub duration_valid : validate_lease_duration duration r ≡ (ok tt, r)

-- The test and the SET clause of the UPDATE.
abbrev pub chosen : Call → (Row → Bool) → ℤ → List Row → Row → Bool
chosen c locked batch rows =
    selected (choose (is_ready c.now) runs_before locked (pos_part batch) rows)

abbrev pub leasing : Call → String → ℤ → Row → Row
leasing c owner duration = set_leased c.now owner (pos_part duration / 1_000_000)

duration_positive :
    (duration : ℤ) (r : Repo)
    → validate_lease_duration duration r ≡ (ok tt, r)
    → 0 < pos_part duration / 1_000_000
unfolding validate_lease_duration
duration_positive duration r h = ground arith

leased-Holds :
    (c : Call) (owner : String) (milliseconds : ℕ) (r : Row)
    → 0 < milliseconds
    → Holds c.now
        (fence (scan_job (set_leased c.now owner milliseconds r)))
        (set_leased c.now owner milliseconds r)
unfolding scan_job set_leased fence
leased-Holds c owner milliseconds r h = record {
  tenant = refl;
  job = refl;
  owner = refl;
  token = refl;
  active = refl;
  expiry = after c.now milliseconds;
  expires = refl;
  unexpired = omega arith;
}

-- A job that was ready.
pub record WasReady (now : ℕ) (r : Row) : Type 0 where
  pub state : r.state ≡ queued
  pub due : r.next_run_at ≤ now
  pub attempt_left : r.attempt < r.max_attempts

is_ready-WasReady : (now : ℕ) (r : Row) → is_ready now r ≡ true → WasReady now r
unfolding is_ready
is_ready-WasReady now r h = ground arith

module _ (c : Call) (locked : Row → Bool) (owner : String) (batch duration : ℤ) (r : Repo)
    (live : IsLive c) (opened : r.closed ≡ false) (asks : Asks owner batch duration r) where
  pub acquire_leases-ok : acquire_leases c locked owner batch duration r ≡ (
    ok (sort_jobs (returning (chosen c locked batch r.rows) (leasing c owner duration) r.rows)),
    record r {
      rows = update_where (chosen c locked batch r.rows) (leasing c owner duration) r.rows;
    },
  )
  unfolding acquire_leases exec open_repo
  acquire_leases-ok = ground (
    arith, live.no_context_error, live.first_answered, asks.owner_valid, asks.batch_valid,
    asks.duration_valid,
  )

  -- What is true of the snapshot of a lease that was taken.
  abbrev pub Acquired : Job → Type 0
  Acquired j =
      (old row : Row) × (at j.tenant_id j.id r.rows ≡ some old)
      × WasReady c.now old
      × (locked old ≡ false)
      × (at j.tenant_id j.id (acquire_leases c locked owner batch duration r).1.rows ≡ some row)
      × Holds c.now (fence j) row
      × (row.attempt ≡ suc old.attempt)
      × (row.lease_token ≡ suc old.lease_token)

  Acquired-row :
      (old : Row)
      → Distinct same_key r.rows
      → In old r.rows
      → chosen c locked batch r.rows old ≡ true
      → Acquired (scan_job (leasing c owner duration old))
  unfolding scan_job set_leased
  Acquired-row old d m t =
      let test = chosen c locked batch r.rows in
      let set = leasing c owner duration in
      let (ready, free) =
        selected-choose (is_ready c.now) runs_before locked (pos_part batch) r.rows old d m t in
      let found = at-In r.rows old d m in
      let updated =
        at-update_where old.tenant_id old.id test set r.rows (λ s.
          key-set_leased old.tenant_id old.id c.now owner (pos_part duration / 1_000_000) s) in
      (
        old,
        set old,
        found,
        is_ready-WasReady c.now old ready,
        free,
        ap (λ (o : Result Error (List Job) × Repo). at old.tenant_id old.id o.1.rows)
              acquire_leases-ok
            ∙ updated
            ∙ rw found (rw t refl),
        leased-Holds c owner (pos_part duration / 1_000_000) old
            (duration_positive duration r asks.duration_valid),
        refl,
        refl,
      )

  -- On an open repository, with a live call and valid inputs: each job that AcquireLeases returns was
  -- queued, due, unlocked and had an attempt left; it is now in the table with its attempt and its token
  -- one higher, and the fence of the returned snapshot holds its lease.
  pub Acquired-lease :
      (j : Job) (jobs : List Job)
      → Distinct same_key r.rows
      → (acquire_leases c locked owner batch duration r).0 ≡ ok jobs
      → In j jobs
      → Acquired j
  Acquired-lease j jobs d result i =
      let listed = returning (chosen c locked batch r.rows) (leasing c owner duration) r.rows in
      let e : ok (sort_jobs listed) ≡ ok jobs =
        ap (λ (o : Result Error (List Job) × Repo). o.0) (sym acquire_leases-ok) ∙ result in
      let same : jobs ≡ sort_jobs listed = cc in
      let (old, m, t, q) =
        In-returning (chosen c locked batch r.rows) (leasing c owner duration) r.rows j
          (In-sort_jobs listed j (subst (λ js. In j js) same i)) in
      subst Acquired (sym q) (Acquired-row old d m t)
