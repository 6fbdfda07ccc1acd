-- ===== src/Ledger/Fencing.antt =====
-- What the fenced methods of the repository return and write, in terms of the job that the fence names;
-- and that a fence whose token is behind that of the job does nothing, whatever has happened since.
use progo_a2a.Prelude.{
  ℕ, ◌≡◌, Bool, ◌&&◌, Option, none, some, arith, is_some, Result, ok, err, if◌then◌else◌,
}
use progo_a2a.Job.{LeaseFence}
use progo_a2a.Ledger.Row.{Row, update_where}
use progo_a2a.Ledger.Statements.{holds_lease, may_run, may_acknowledge}
use progo_a2a.Ledger.Keys.{Distinct, same_key}
use progo_a2a.Ledger.Lookup.{at, KeyTest, update_unmatched, count_where-any, any-at}
use progo_a2a.Ledger.Repository.{fenced}
use progo_a2a.Ledger.Repository.Monad.{Repo, Call, Error, answered, exec, query}

pub holds_lease-KeyTest :
    (now : ℕ) (f : LeaseFence) → KeyTest f.tenant_id f.job_id (holds_lease now f)
unfolding holds_lease
holds_lease-KeyTest now f r h = ground arith

pub may_run-KeyTest : (now : ℕ) (f : LeaseFence) → KeyTest f.tenant_id f.job_id (may_run now f)
unfolding may_run
may_run-KeyTest now f r h = ground arith

pub may_acknowledge-KeyTest :
    (now : ℕ) (f : LeaseFence) → KeyTest f.tenant_id f.job_id (may_acknowledge now f)
unfolding may_acknowledge
may_acknowledge-KeyTest now f r h = ground arith

-- A call whose context is alive and whose round trips are answered.
pub record IsLive (c : Call) : Type 0 where
  pub no_context_error : c.context ≡ none
  pub first_answered : c.first ≡ answered
  pub second_answered : c.second ≡ answered

-- The reply to a fence, from the job of its key and the test of its statement.
abbrev pub reply : Bool → (Row → Bool) → Option Row → Result Error Unit
reply report_cancellation test none = err Error.job_not_found
reply report_cancellation test (some r) =
    if test r
    then ok tt
    else err (
        if report_cancellation && is_some r.cancel_requested_at
        then Error.cancellation_requested
        else Error.lease_lost)

module _ (c : Call) (f : LeaseFence) (test : Row → Bool) (set : Row → Row) (report : Bool)
    (r : Repo) (live : IsLive c) (only : KeyTest f.tenant_id f.job_id test)
    (d : Distinct same_key r.rows) where
  pub fenced-reply : fenced c f test set report r ≡ (
    reply report test (at f.tenant_id f.job_id r.rows),
    record r { rows = update_where test set r.rows },
  )
  unfolding fenced exec query
  fenced-reply = ground (
    arith,
    live.first_answered,
    live.second_answered,
    any-at f.tenant_id f.job_id test r.rows only d,
    count_where-any test r.rows,
    update_unmatched test set r.rows,
  )
