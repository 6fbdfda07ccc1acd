-- ===== src/Ledger/Batch.antt =====
-- The batches of AcquireLeases and ReclaimExpiredLeases are no larger than asked for, and AcquireLeases
-- lists its jobs in the order in which they are due.
use Prim.Native.String.{String}
use progo_a2a.Prelude.{
  ℕ, suc, ◌+◌, ◌≤◌, ◌<◌, ◌≡◌, refl, sym, ap, subst, ◌∙◌, Bool, true, false, ◌&&◌, ◌||◌, ◌⊎◌, not,
  List, [], ◌∷◌, arith, any, Bool-cases, inl, inr, Result, ok, length, length-take-le, keep,
}
use progo_a2a.Prelude.Int.{ℤ, pos_part}
use progo_a2a.Job.{Job}
use progo_a2a.Ledger.Row.{Row, count_where}
use progo_a2a.Ledger.Statements.{selected, choose, sort_by}
use progo_a2a.Ledger.Keys.{Distinct, same_key}
use progo_a2a.Ledger.Lookup.{has_key-same}
use progo_a2a.Ledger.Fencing.{IsLive}
use progo_a2a.Ledger.Acquire.{Asks, chosen, leasing, acquire_leases-ok}
use progo_a2a.Ledger.Repository.{acquire_leases, returning, sort_jobs, insert_job, job_before}
use progo_a2a.Ledger.Repository.Monad.{Error, Repo, Call}

-- With distinct keys at most one row has a key.
count_where-none :
    (test : Row → Bool) (rows : List Row) → any test rows ≡ false → count_where test rows ≡ 0
unfolding count_where
count_where-none test [] h = refl
count_where-none test (r ∷ rows) h = ground (arith, count_where-none test rows)

any-key :
    (s r : Row) (rows : List Row)
    → same_key s r ≡ true
    → any (same_key r) rows ≡ false
    → any (same_key s) rows ≡ false
any-key s r [] e h = refl
any-key s r (x ∷ rows) e h = ground (arith, has_key-same s.tenant_id s.id r x e, any-key s r rows e)

count_where-key :
    (s : Row) (rows : List Row) → Distinct same_key rows → count_where (same_key s) rows ≤ 1
unfolding count_where
count_where-key s [] d = omega arith
count_where-key s (r ∷ rows) d = elim (Bool-cases (same_key s r)) [
  | inl e ↦ let n = count_where-none (same_key s) rows (any-key s r rows e d.0) in ground arith
  | inr e ↦ ground (arith, count_where-key s rows d.1)
]

count_where-or :
    (p q : Row → Bool) (rows : List Row)
    → count_where (λ r. p r || q r) rows ≤ count_where p rows + count_where q rows
unfolding count_where
count_where-or p q [] = omega arith
count_where-or p q (r ∷ rows) = ground (arith, count_where-or p q rows)

-- A subquery of n rows updates at most n rows.
pub count_where-selected :
    (picked rows : List Row)
    → Distinct same_key rows
    → count_where (selected picked) rows ≤ length picked
unfolding selected
count_where-selected [] rows d =
    let n = count_where-none (selected []) rows (none_selected rows) in omega arith
  where
    none_selected : (rows : List Row) → any (selected []) rows ≡ false
    none_selected [] = refl
    none_selected (r ∷ rows) = none_selected rows
count_where-selected (s ∷ picked) rows d = omega (
  arith,
  count_where-or (same_key s) (selected picked) rows,
  count_where-key s rows d,
  count_where-selected picked rows d,
)

length-returning :
    (test : Row → Bool) (set : Row → Row) (rows : List Row)
    → length (returning test set rows) ≡ count_where test rows
unfolding returning count_where
length-returning test set [] = refl
length-returning test set (r ∷ rows) = ground (arith, length-returning test set rows)

length-insert_job : (j : Job) (jobs : List Job) → length (insert_job j jobs) ≡ suc (length jobs)
unfolding insert_job
length-insert_job j [] = refl
length-insert_job j (k ∷ jobs) = ground (arith, length-insert_job j jobs)

length-sort_jobs : (jobs : List Job) → length (sort_jobs jobs) ≡ length jobs
unfolding sort_jobs
length-sort_jobs [] = refl
length-sort_jobs (j ∷ jobs) =
    omega (arith, length-insert_job j (sort_jobs jobs), length-sort_jobs jobs)

-- The order in which jobs are due: by the time of the next run, then by the time of creation.
abbrev pub DueNoLater : Job → Job → Type 0
DueNoLater a b =
    (a.next_run_at < b.next_run_at)
    ⊎ ((a.next_run_at ≡ b.next_run_at) × (a.created_at ≤ b.created_at))

-- Each job is due no later than the one behind it.
abbrev pub InOrder : List Job → Type 0
InOrder [] = Unit
InOrder (a ∷ []) = Unit
InOrder (a ∷ b ∷ jobs) = DueNoLater a b × InOrder (b ∷ jobs)

before-due : (k j : Job) → job_before k j ≡ true → DueNoLater k j
unfolding job_before
before-due k j h = ground arith

not_before-due : (k j : Job) → job_before k j ≡ false → DueNoLater j k
unfolding job_before
not_before-due k j h = ground arith

insert_job-InOrder : (j : Job) (jobs : List Job) → InOrder jobs → InOrder (insert_job j jobs)
unfolding insert_job
insert_job-InOrder j [] h = tt
insert_job-InOrder j (k ∷ []) h = elim (Bool-cases (job_before k j)) [
  | inl e ↦ rw e (before-due k j e, tt)
  | inr e ↦ rw e (not_before-due k j e, tt)
]
insert_job-InOrder j (k ∷ l ∷ jobs) h = elim (Bool-cases (job_before k j)) [
  | inl e ↦ rw e (behind e (insert_job-InOrder j (l ∷ jobs) h.1))
  | inr e ↦ rw e (not_before-due k j e, h)
]
  where
    behind :
        job_before k j ≡ true
        → InOrder (insert_job j (l ∷ jobs))
        → InOrder (k ∷ insert_job j (l ∷ jobs))
    behind e t = elim (Bool-cases (job_before l j)) [
      | inl f ↦ rw f (h.0, rw f at t)
      | inr f ↦ rw f (before-due k j e, rw f at t)
    ]

sort_jobs-InOrder : (jobs : List Job) → InOrder (sort_jobs jobs)
unfolding sort_jobs
sort_jobs-InOrder [] = tt
sort_jobs-InOrder (j ∷ jobs) = insert_job-InOrder j (sort_jobs jobs) (sort_jobs-InOrder jobs)

pub length-choose :
    (test : Row → Bool) (before : Row → Row → Bool) (locked : Row → Bool) (limit : ℕ)
    (rows : List Row)
    → length (choose test before locked limit rows) ≤ limit
unfolding choose
length-choose test before locked limit rows =
    length-take-le limit (sort_by before (keep (λ r. test r && not (locked r)) rows))

-- On an open repository, with a live call and valid inputs, AcquireLeases returns at most as many jobs as
-- the batch size, in the order in which they are due.
pub acquired_batch :
    (c : Call) (locked : Row → Bool) (owner : String) (batch duration : ℤ) (r : Repo)
    (jobs : List Job)
    → IsLive c
    → r.closed ≡ false
    → Asks owner batch duration r
    → Distinct same_key r.rows
    → (acquire_leases c locked owner batch duration r).0 ≡ ok jobs
    → (length jobs ≤ pos_part batch) × InOrder jobs
acquired_batch c locked owner batch duration r jobs live opened asks d result =
    let test = chosen c locked batch r.rows in
    let listed = returning test (leasing c owner duration) r.rows in
    let e : ok (sort_jobs listed) ≡ ok jobs =
      ap (λ (o : Result Error (List Job) × Repo). o.0)
        (sym (acquire_leases-ok c locked owner batch duration r live opened asks))
      ∙ result in
    let same : sort_jobs listed ≡ jobs = cc in
    subst (λ js. (length js ≤ pos_part batch) × InOrder js) same
      (
        omega (
          arith,
          length-sort_jobs listed,
          length-returning test (leasing c owner duration) r.rows,
          count_where-selected _ r.rows d,
          length-choose _ _ locked (pos_part batch) r.rows,
        ),
        sort_jobs-InOrder listed,
      )
