-- ===== src/Ledger/Unheld.antt =====
-- The fenced methods for a client whose fence does not hold the lease of its job.
use progo_a2a.Prelude.{
  ℕ, ◌/◌, String, ◌≡◌, ◌⊎◌, inl, inr, true, false, none, some, arith, Bool-cases, Option-cases, ok,
  err, str_eq_iff,
}
use progo_a2a.Prelude.Int.{ℤ, pos_part}
use progo_a2a.Job.{LeaseFence, validate_fence}
use progo_a2a.Ledger.Row.{Row}
use progo_a2a.Ledger.Statements.{holds_lease, set_renewed, set_succeeded}
use progo_a2a.Ledger.Keys.{Distinct, same_key}
use progo_a2a.Ledger.Lookup.{at, update_unmatched, any-at}
use progo_a2a.Ledger.Fencing.{IsLive, fenced-reply, holds_lease-KeyTest}
use progo_a2a.Ledger.Repository.{renew_lease, complete_job, validate_lease_duration}
use progo_a2a.Ledger.Repository.Monad.{Repo, Call, Error, open_repo, M}
use progo_a2a.Ledger.Repository.Payloads.{Encoding, Payload, marshal_job_payload}
use progo_a2a.Ledger.Outcomes.{Holds}

pub Holds-of-holds_lease :
    (now : ℕ) (f : LeaseFence) (r : Row) → holds_lease now f r ≡ true → Holds now f r
unfolding holds_lease
Holds-of-holds_lease now f r h = go (Option-cases r.lease_owner) (Option-cases r.lease_expires_at)
  where
    go :
        (r.lease_owner ≡ none) ⊎ ((o : String) × (r.lease_owner ≡ some o))
        → (r.lease_expires_at ≡ none) ⊎ ((t : ℕ) × (r.lease_expires_at ≡ some t))
        → Holds now f r
    go (inl a) b = absurd (ground arith)
    go (inr a) (inl b) = absurd (ground arith)
    go (inr (o, a)) (inr (t, b)) = record {
      tenant = ground (arith, str_eq_iff r.tenant_id f.tenant_id);
      job = ground (arith, str_eq_iff r.id f.job_id);
      owner = ground (arith, str_eq_iff o f.lease_owner);
      token = ground arith;
      active = ground arith;
      expiry = t;
      expires = b;
      unexpired = ground arith;
    }

-- The job of the fence is there, and the fence does not hold its lease: the call fails and leaves the
-- repository.
abbrev pub Refused : M Unit → Repo → Error → Type 0
Refused m r e = m r ≡ (err e, r)

unheld : (now : ℕ) (f : LeaseFence) (r : Row) → (Holds now f r → ⊥) → holds_lease now f r ≡ false
unheld now f r h = elim (Bool-cases (holds_lease now f r)) [
  | inl e ↦ absurd (h (Holds-of-holds_lease now f r e))
  | inr e ↦ e
]

pub renew_lease-Refused :
    (c : Call) (f : LeaseFence) (duration : ℤ) (r : Repo) (row : Row)
    → IsLive c
    → r.closed ≡ false
    → Distinct same_key r.rows
    → validate_fence f ≡ ok tt
    → validate_lease_duration duration r ≡ (ok tt, r)
    → at f.tenant_id f.job_id r.rows ≡ some row
    → holds_lease c.now f row ≡ false
    → Refused (renew_lease c f duration) r Error.lease_lost
unfolding renew_lease open_repo
renew_lease-Refused c f duration r row live opened d valid timely found missed =
    let test = holds_lease c.now f in
    let none_passes = any-at f.tenant_id f.job_id test r.rows (holds_lease-KeyTest c.now f) d in
    let renewed = set_renewed c.now (pos_part duration / 1_000_000) in
    ground (
      arith,
      live.no_context_error,
      none_passes,
      update_unmatched test renewed r.rows,
      fenced-reply c f test renewed false r live (holds_lease-KeyTest c.now f) d,
    )

-- On an open repository, with a live call, valid inputs and a response that encodes to a text that PostgreSQL takes as jsonb,
-- a fence that does not hold the lease of its job (another owner or token, an inactive state, or an expiry that has come) is
-- refused by CompleteJob and RenewLease with ErrLeaseLost, and the repository stays as it is.
pub unheld-Refused :
    (e : Encoding) (c : Call) (f : LeaseFence) (response : Payload e) (bytes stored : String)
    (duration : ℤ) (r : Repo) (row : Row)
    → IsLive c
    → r.closed ≡ false
    → Distinct same_key r.rows
    → validate_fence f ≡ ok tt
    → marshal_job_payload e response ≡ ok bytes
    → e.jsonb bytes ≡ some stored
    → validate_lease_duration duration r ≡ (ok tt, r)
    → at f.tenant_id f.job_id r.rows ≡ some row
    → (Holds c.now f row → ⊥)
    → Refused (complete_job e c f response) r Error.lease_lost
      × Refused (renew_lease c f duration) r Error.lease_lost
unfolding complete_job open_repo
unheld-Refused e c f response bytes stored duration r row live opened d valid encoded casted timely
      found free =
    let test = holds_lease c.now f in
    let missed = unheld c.now f row free in
    let none_passes = any-at f.tenant_id f.job_id test r.rows (holds_lease-KeyTest c.now f) d in
    let done = set_succeeded c.now stored in
    (
      ground (
        arith,
        live.no_context_error,
        none_passes,
        update_unmatched test done r.rows,
        fenced-reply c f test done false r live (holds_lease-KeyTest c.now f) d,
      ),
      renew_lease-Refused c f duration r row live opened d valid timely found missed,
    )
