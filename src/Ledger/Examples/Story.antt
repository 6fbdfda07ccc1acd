-- ===== src/Ledger/Examples/Story.antt =====
-- The rows, the calls and a run of the ledger that the examples of pkg/storage/postgres_jobs.go share.
use progo_a2a.Prelude.{
  ℕ, ◌≡◌, refl, Bool, true, false, none, some, List, [], ◌∷◌, arith, String, is_blank, rune_count,
  sql_trim,
}
use progo_a2a.Prelude.Int.{ℤ, pos}
use progo_a2a.Job.{
  Job, queued, running, succeeded, LeaseFence, CreateJobInput, validate_fence, validate_create,
  check_text,
}
use progo_a2a.Ledger.Row.{Row, scan_job, has_key, update_where, count_where}
use progo_a2a.Ledger.Statements.{
  holds_lease, may_run, set_running, set_succeeded, set_leased, null_if_blank, choose, selected,
  is_ready,
}
use progo_a2a.Ledger.Constraints.{passes_checks}
use progo_a2a.Ledger.Repository.{create_job, acquire_leases, mark_running, complete_job, conflicts}
use progo_a2a.Ledger.Repository.Monad.{Repo, Call, Wire, open_repo, exec, query}
use progo_a2a.Ledger.Repository.Payloads.{
  Encoding, Payload, value, marshal_job_payload, compute_job_idempotency_hash,
}
use progo_a2a.Ledger.Action.{Action, run, run_all}
use progo_a2a.Ledger.Fencing.{IsLive}
use progo_a2a.Ledger.Table.{IsLedger, empty_repo}
use progo_a2a.Ledger.Checked.Updates.{AllChecked}
use progo_a2a.Ledger.Checked.Reachable.{reachable-AllChecked}
use progo_a2a.Ledger.Outcomes.{Holds}

-- The hash of the request `{}`.
abbrev pub empty_hash : String
empty_hash = "44136fa355b3678a1146ad16f7e8649e94fb4fc21fe77e8310c060f61caaff8a"

abbrev pub plain : Encoding
plain = record {
  Value = String;
  marshal = λ v. some v;
  valid = λ s. true;
  fingerprint = λ request agent capability attempts. some request;
  digest = λ s. empty_hash;
  jsonb = λ s. some s;
}

abbrev pub live_at : ℕ → Call
live_at now = record { context = none; now = now; first = Wire.answered; second = Wire.answered }

pub live : (now : ℕ) → IsLive (live_at now)
live now = record { no_context_error = refl; first_answered = refl; second_answered = refl }

abbrev pub unlocked : Row → Bool
unlocked r = false

abbrev pub input : CreateJobInput (Payload plain)
input = record {
  id = "job-1";
  tenant_id = "acme";
  idempotency_key = "key-1";
  request = some (value "{}");
  request_hash = "";
  agent_id = "writer";
  required_capability = "";
  max_attempts = pos 2;
  next_run_at = none;
}

abbrev pub f1 : LeaseFence
f1 = record { tenant_id = "acme"; job_id = "job-1"; lease_owner = "w1"; lease_token = pos 1 }

abbrev pub day : ℤ
day = pos 86_400_000_000_000

-- Create, lease, run and complete; a second worker's late completion changes nothing.
abbrev pub story : List (Call × Action plain)
story =
    (live_at 10, Action.create input)
    ∷ (live_at 20, Action.acquire unlocked "w1" (pos 5) day)
    ∷ (live_at 30, Action.mark_running f1)
    ∷ (live_at 40, Action.complete f1 (value "done"))
    ∷ []

abbrev states : List Row → List Job
states [] = []
states (r ∷ rows) = scan_job r ∷ states rows

story_runs :
    (r : Row) × ((run_all plain story empty_repo).rows ≡ r ∷ [])
    × (r.state ≡ succeeded)
    × (r.response ≡ some "done")
    × (r.attempt ≡ 1)
    × (r.lease_token ≡ 1)
unfolding run_all run create_job acquire_leases mark_running complete_job open_repo exec query
    validate_fence validate_create check_text is_blank rune_count null_if_blank marshal_job_payload
    compute_job_idempotency_hash passes_checks sql_trim conflicts update_where count_where choose
    selected is_ready set_leased may_run set_running holds_lease set_succeeded has_key scan_job
story_runs = (_, refl, refl, refl, refl, refl)

reachable-AllChecked_example :
    IsLedger (run_all plain story empty_repo).rows
    × AllChecked (run_all plain story empty_repo).rows
reachable-AllChecked_example = reachable-AllChecked plain story

-- A job that "w1" runs, with its lease up to 1000.
abbrev pub held : Row
held = record {
  id = "job-1";
  tenant_id = "acme";
  idempotency_key = "key-1";
  request_hash = empty_hash;
  request = "{}";
  agent_id = some "writer";
  required_capability = none;
  state = running;
  attempt = 1;
  max_attempts = 2;
  next_run_at = 10;
  lease_owner = some "w1";
  lease_token = 1;
  lease_expires_at = some 1000;
  response = none;
  failure_code = none;
  failure_message = none;
  cancel_requested_at = none;
  created_at = 10;
  updated_at = 30;
}

abbrev pub waiting : Row
waiting = record held {
  state = queued;
  attempt = 1;
  lease_owner = none;
  lease_token = 2;
  lease_expires_at = none;
}

abbrev pub held_repo : Repo
held_repo = record { closed = false; rows = held ∷ [] }

abbrev pub waiting_repo : Repo
waiting_repo = record { closed = false; rows = waiting ∷ [] }

pub waiting-IsLedger : IsLedger waiting_repo.rows
waiting-IsLedger = record {
  valid = (
    record {
      attempts_capped = omega arith;
      max_positive = omega arith;
      max_capped = omega arith;
      owner_when_active = refl;
      expiry_when_active = refl;
      token_positive = omega arith;
      token_bounded = omega arith;
      queued_has_attempt = omega arith;
      response_when_succeeded = refl;
    },
    tt,
  );
  keys = (refl, tt);
  idempotency_keys = (refl, tt);
}

pub held-Holds : Holds 500 f1 held
held-Holds = record {
  tenant = refl;
  job = refl;
  owner = refl;
  token = refl;
  active = refl;
  expiry = 1000;
  expires = refl;
  unexpired = omega arith;
}
