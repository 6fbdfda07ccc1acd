-- ===== src/Worker/Examples/Settings.antt =====
-- The settings and the calls of the examples of pkg/worker.
use progo_a2a.Prelude.{ℕ, String, true, false, none, some, List, [], ◌∷◌}
use progo_a2a.Prelude.Int.{pos}
use progo_a2a.Job.{Job, CreateJobInput, leased}
use progo_a2a.Config.{WorkerConfig}
use progo_a2a.Ledger.Repository.Monad.{Call, Wire}
use progo_a2a.Ledger.Repository.Payloads.{Encoding, Payload, value}
use progo_a2a.Ledger.Action.{Action}

abbrev settings : WorkerConfig
settings = record {
  worker_id = "w1";
  concurrency = pos 10;
  batch_size = pos 5;
  poll_interval_milliseconds = pos 1000;
  lease_duration_seconds = pos 30;
  renewal_interval_seconds = pos 10;
  retry_backoff_seconds = pos 15;
  drain_timeout_seconds = pos 30;
}

-- The hash of the request `{}`.
abbrev pub empty_hash : String
empty_hash = "44136fa355b3678a1146ad16f7e8649e94fb4fc21fe77e8310c060f61caaff8a"

abbrev pub plain : Encoding
plain = record {
  Value = String;
  marshal = λ v. some v;
  valid = λ s. true;
  fingerprint = λ request agent capability attempts. some request;
  digest = λ s. empty_hash;
  jsonb = λ s. some s;
}

abbrev pub call_at : ℕ → Call
call_at now = record { context = none; now = now; first = Wire.answered; second = Wire.answered }

abbrev pub input : CreateJobInput (Payload plain)
input = record {
  id = "job-1";
  tenant_id = "acme";
  idempotency_key = "key-1";
  request = some (value "{}");
  request_hash = "";
  agent_id = "writer";
  required_capability = "";
  max_attempts = pos 2;
  next_run_at = none;
}

-- A job that "w1" has leased for one millisecond, and the snapshot that it got.
abbrev pub first_calls : List (Call × Action plain)
first_calls =
    (call_at 10, Action.create input)
    ∷ (call_at 20, Action.acquire (λ r. false) "w1" (pos 5) (pos 1_000_000))
    ∷ []

abbrev pub snapshot : Job
snapshot = record {
  id = "job-1";
  tenant_id = "acme";
  idempotency_key = "key-1";
  request_hash = empty_hash;
  request = "{}";
  agent_id = "writer";
  required_capability = "";
  state = leased;
  attempt = 1;
  max_attempts = 2;
  next_run_at = 10;
  lease_owner = some "w1";
  lease_token = 1;
  lease_expires_at = some 1020;
  response = none;
  failure_code = none;
  failure_message = none;
  cancel_requested_at = none;
  created_at = 10;
  updated_at = 20;
}
