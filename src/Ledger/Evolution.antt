-- ===== src/Ledger/Evolution.antt =====
-- What every method of the repository does to the table: it leaves the table, or each row makes a step
-- of `Transition` in its place, or one new row is added behind.
pub mod Writes
use progo_a2a.Prelude.{
  ℕ, suc, ◌≤◌, ◌<◌, ◌/◌, Result, err, String, ◌≡◌, refl, sym, Bool, true, false, ◌⊎◌, inl, inr,
  Option, none, some, List, [], ◌∷◌, ◌++◌, arith, any, Bool-cases, if◌then◌else◌, In, here, there,
  subst, ok,
}
use progo_a2a.Prelude.Int.{ℤ, pos_part}
use progo_a2a.Job.{
  JobError, LeaseFence, FailJobInput, fail_fence, CreateJobInput, queued, validate_create,
}
use progo_a2a.Job.Validation.{validate_create-attempts}
use progo_a2a.Ledger.Row.{Row, update_where, has_key, has_idempotency_key}
use progo_a2a.Ledger.Statements.{is_ready, runs_before, is_expired, expires_before}
use progo_a2a.Ledger.Transition.{
  RowStep, RowStep-refl, IsValid, may_run-leased, holds_lease-active, may_acknowledge-active,
  is_expired-active, set_running-RowStep, set_renewed-RowStep, set_succeeded-RowStep,
  set_failed-RowStep, set_cancel-RowStep, set_canceled-RowStep, set_leased-RowStep,
  set_reclaimed-RowStep,
}
use progo_a2a.Ledger.Keys.{Distinct, same_key, selected-choose}
use progo_a2a.Ledger.Constraints.{passes_checks}
use progo_a2a.Ledger.Repository
use progo_a2a.Ledger.Repository.{conflicts, insert_row, new_row}
use progo_a2a.Ledger.Repository.Monad.{Repo, Call}
use progo_a2a.Ledger.Repository.Payloads.{Encoding, Payload}
use progo_a2a.Ledger.Action.{Action, run}
use Writes.{
  mark_running-Writes, renew_lease-Writes, complete_job-Writes, fail_job-Writes,
  acknowledge_cancellation-Writes, cancel_job-Writes, reclaim_expired_leases-Writes,
  acquire_leases-Writes, row_of, create_job-Writes, create_job-refused,
}

-- The rows of one table, each before and after.
abbrev pub Steps : List Row → List Row → Type 0
Steps [] [] = Unit
Steps (r ∷ rows) (s ∷ rows') = RowStep r s × Steps rows rows'
Steps _ _ = ⊥

-- A row as `CreateJob` inserts it.
pub record IsNew (r : Row) : Type 0 where
  pub valid : IsValid r
  pub queued_first : r.state ≡ queued
  pub no_token : r.lease_token ≡ 0
  pub no_attempt : r.attempt ≡ 0

pub data Evolves (rows : List Row) : List Row → Type 0 where
  update : {rows' : List Row} → Steps rows rows' → Evolves rows rows'
  insert : (r : Row) → IsNew r → conflicts r rows ≡ false → Evolves rows (rows ++ r ∷ [])

pub Steps-refl : (rows : List Row) → Steps rows rows
Steps-refl [] = tt
Steps-refl (r ∷ rows) = (RowStep-refl r, Steps-refl rows)

pub update_where-Steps :
    (test : Row → Bool) (set : Row → Row) (rows : List Row)
    → ((r : Row) → In r rows → test r ≡ true → RowStep r (set r))
    → Steps rows (update_where test set rows)
unfolding update_where
update_where-Steps test set [] h = tt
update_where-Steps test set (r ∷ rows) h = (
  elim (Bool-cases (test r)) [ inl e ↦ rw e (h r (here refl) e) | inr e ↦ rw e (RowStep-refl r) ],
  update_where-Steps test set rows (λ s i. h s (there i)),
)

-- An outcome that leaves the table or makes all the steps of an UPDATE.
update-Evolves :
    (rows rows' : List Row) (test : Row → Bool) (set : Row → Row)
    → ((r : Row) → In r rows → test r ≡ true → RowStep r (set r))
    → (rows' ≡ rows) ⊎ (rows' ≡ update_where test set rows)
    → Evolves rows rows'
update-Evolves rows rows' test set h (inl e) = rw e (update (Steps-refl rows))
update-Evolves rows rows' test set h (inr e) = rw e (update (update_where-Steps test set rows h))

new_row-IsNew :
    (e : Encoding) (now : ℕ) (input : CreateJobInput (Payload e)) (request hash : String)
    → 0 < pos_part input.max_attempts
    → pos_part input.max_attempts ≤ 100
    → IsNew (new_row e now input request hash)
unfolding new_row
new_row-IsNew e now input request hash low high = ground arith

insert-Evolves :
    (rows rows' : List Row) (r : Row)
    → IsNew r
    → (rows' ≡ rows) ⊎ ((rows' ≡ insert_row r rows) × (passes_checks r ≡ true))
    → Evolves rows rows'
unfolding insert_row
insert-Evolves rows rows' r n (inl e) = rw e (update (Steps-refl rows))
insert-Evolves rows rows' r n (inr (e, checked)) = elim (Bool-cases (conflicts r rows)) [
  | inl c ↦ rw (e, c) (update (Steps-refl rows))
  | inr c ↦ rw (e, c) (insert r n c)
]

module _ (e : Encoding) (c : Call) where
  create-Evolves :
      (input : CreateJobInput (Payload e)) (r : Repo)
      → Evolves r.rows (Repository.create_job e c input r).1.rows
  create-Evolves input r = go (validate_create input) refl
    where
      go :
          (v : Result JobError (Payload e))
          → validate_create input ≡ v
          → Evolves r.rows (Repository.create_job e c input r).1.rows
      go (err x) h = rw (create_job-refused e c input x r h) (update (Steps-refl r.rows))
      go (ok request) h =
          let (low, high) = validate_create-attempts input h in
          insert-Evolves r.rows _ (row_of e c.now input request)
            (new_row-IsNew e c.now input _ _ low high) (create_job-Writes e c input request r h)

  acquire-Evolves :
      (locked : Row → Bool) (owner : String) (batch duration : ℤ) (r : Repo)
      → Distinct same_key r.rows
      → Evolves r.rows (Repository.acquire_leases c locked owner batch duration r).1.rows
  acquire-Evolves locked owner batch duration r d =
      update-Evolves r.rows _ _ _
        (λ s i h.
          set_leased-RowStep c.now owner _ s
            (selected-choose (is_ready c.now) runs_before locked (pos_part batch) r.rows s d i h).0)
        (acquire_leases-Writes c locked owner batch duration r)

  reclaim-Evolves :
      (locked : Row → Bool) (batch backoff : ℤ) (r : Repo)
      → Distinct same_key r.rows
      → Evolves r.rows (Repository.reclaim_expired_leases c locked batch backoff r).1.rows
  reclaim-Evolves locked batch backoff r d =
      update-Evolves r.rows _ _ _
        (λ s i h. set_reclaimed-RowStep c.now _ s (
          is_expired-active c.now s
            (selected-choose (is_expired c.now) expires_before locked (pos_part batch) r.rows s d i
              h).0))
        (reclaim_expired_leases-Writes c locked batch backoff r)

  -- Whatever the call and whatever it meets, the table evolves.
  pub run-Evolves :
      (a : Action e) (r : Repo) → Distinct same_key r.rows → Evolves r.rows (run e c a r).rows
  unfolding run
  run-Evolves (Action.create input) r d = create-Evolves input r
  run-Evolves (Action.acquire locked owner batch duration) r d =
      acquire-Evolves locked owner batch duration r d
  run-Evolves (Action.mark_running f) r d =
      update-Evolves r.rows _ _ _
        (λ s i h. set_running-RowStep c.now s (may_run-leased c.now f s h))
        (mark_running-Writes c f r)
  run-Evolves (Action.renew f duration) r d =
      update-Evolves r.rows _ _ _
        (λ s i h. set_renewed-RowStep c.now _ s (holds_lease-active c.now f s h))
        (renew_lease-Writes c f duration r)
  run-Evolves (Action.complete f response) r d =
      update-Evolves r.rows _ _ _
        (λ s i h. set_succeeded-RowStep c.now _ s (holds_lease-active c.now f s h))
        (complete_job-Writes e c f response r)
  run-Evolves (Action.fail i) r d =
      update-Evolves r.rows _ _ _
        (λ s _ h. set_failed-RowStep c.now _ _ _ _ s (holds_lease-active c.now (fail_fence i) s h))
        (fail_job-Writes c i r)
  run-Evolves (Action.cancel tenant_id job_id) r d =
      update-Evolves r.rows _ _ _ (λ s i h. set_cancel-RowStep c.now s)
        (cancel_job-Writes c tenant_id job_id r)
  run-Evolves (Action.acknowledge f) r d =
      update-Evolves r.rows _ _ _
        (λ s i h. set_canceled-RowStep c.now s (may_acknowledge-active c.now f s h))
        (acknowledge_cancellation-Writes c f r)
  run-Evolves (Action.reclaim locked batch backoff) r d = reclaim-Evolves locked batch backoff r d
