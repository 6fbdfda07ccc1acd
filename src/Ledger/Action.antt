-- ===== src/Ledger/Action.antt =====
-- The calls that a client of the repository may make, one constructor for each method that writes,
-- and the repository that a sequence of calls leaves.
use progo_a2a.Prelude.{String, Bool, List, [], ◌∷◌}
use progo_a2a.Prelude.Int.{ℤ}
use progo_a2a.Job.{LeaseFence, FailJobInput, CreateJobInput}
use progo_a2a.Ledger.Row.{Row}
use progo_a2a.Ledger.Repository
use progo_a2a.Ledger.Repository.Monad.{Repo, Call}
use progo_a2a.Ledger.Repository.Payloads.{Encoding, Payload}

module _ (e : Encoding) where
  pub data Action : Type 0 where
    create : CreateJobInput (Payload e) → Action
    acquire : (Row → Bool) → String → ℤ → ℤ → Action
    mark_running : LeaseFence → Action
    renew : LeaseFence → ℤ → Action
    complete : LeaseFence → Payload e → Action
    fail : FailJobInput → Action
    cancel : String → String → Action
    acknowledge : LeaseFence → Action
    reclaim : (Row → Bool) → ℤ → ℤ → Action

  unfoldable pub run : Call → Action → Repo → Repo
  run c (create input) r = (Repository.create_job e c input r).1
  run c (acquire locked owner batch duration) r =
      (Repository.acquire_leases c locked owner batch duration r).1
  run c (mark_running f) r = (Repository.mark_running c f r).1
  run c (renew f duration) r = (Repository.renew_lease c f duration r).1
  run c (complete f response) r = (Repository.complete_job e c f response r).1
  run c (fail i) r = (Repository.fail_job c i r).1
  run c (cancel tenant_id job_id) r = (Repository.cancel_job c tenant_id job_id r).1
  run c (acknowledge f) r = (Repository.acknowledge_cancellation c f r).1
  run c (reclaim locked batch backoff) r =
      (Repository.reclaim_expired_leases c locked batch backoff r).1

  -- The calls of all the clients, in the order in which the database takes them.
  unfoldable pub run_all : List (Call × Action) → Repo → Repo
  run_all [] r = r
  run_all ((c, a) ∷ rest) r = run_all rest (run c a r)
