-- ===== src/Ledger/Row.antt =====
-- The table `durable_jobs`: its rows, the statements UPDATE and SELECT over a list of rows, and
-- `scanJob` of pkg/storage/postgres_jobs.go. Times are microseconds, the precision of TIMESTAMPTZ.
use progo_a2a.Prelude.{
  ℕ, ◌+◌, String, Bool, true, false, ◌&&◌, Option, none, some, List, [], ◌∷◌, str_eq, if◌then◌else◌,
}
use progo_a2a.Job.{Job, JobState, queued, leased, running}

-- NULL is `none`; `attempt` and `lease_token` have the check `>= 0`.
pub record Row : Type 0 where
  pub id : String
  pub tenant_id : String
  pub idempotency_key : String
  pub request_hash : String
  pub request : String
  pub agent_id : Option String
  pub required_capability : Option String
  pub state : JobState
  pub attempt : ℕ
  pub max_attempts : ℕ
  pub next_run_at : ℕ
  pub lease_owner : Option String
  pub lease_token : ℕ
  pub lease_expires_at : Option ℕ
  pub response : Option String
  pub failure_code : Option String
  pub failure_message : Option String
  pub cancel_requested_at : Option ℕ
  pub created_at : ℕ
  pub updated_at : ℕ

abbrev or_blank : Option String → String
or_blank none = ""
or_blank (some s) = s

-- `scanJob`: a NULL routing column is the empty text of the snapshot.
unfoldable pub scan_job : Row → Job
scan_job r = record {
  id = r.id;
  tenant_id = r.tenant_id;
  idempotency_key = r.idempotency_key;
  request_hash = r.request_hash;
  request = r.request;
  agent_id = or_blank r.agent_id;
  required_capability = or_blank r.required_capability;
  state = r.state;
  attempt = r.attempt;
  max_attempts = r.max_attempts;
  next_run_at = r.next_run_at;
  lease_owner = r.lease_owner;
  lease_token = r.lease_token;
  lease_expires_at = r.lease_expires_at;
  response = r.response;
  failure_code = r.failure_code;
  failure_message = r.failure_message;
  cancel_requested_at = r.cancel_requested_at;
  created_at = r.created_at;
  updated_at = r.updated_at;
}

-- `tenant_id = $1 AND id = $2`.
unfoldable pub has_key : String → String → Row → Bool
has_key tenant_id id r = str_eq r.tenant_id tenant_id && str_eq r.id id

-- `tenant_id = $1 AND idempotency_key = $2`.
unfoldable pub has_idempotency_key : String → String → Row → Bool
has_idempotency_key tenant_id key r = str_eq r.tenant_id tenant_id && str_eq r.idempotency_key key

-- `state IN ('leased', 'running')`.
abbrev pub is_active : JobState → Bool
is_active leased = true
is_active running = true
is_active _ = false

abbrev pub is_queued : JobState → Bool
is_queued queued = true
is_queued _ = false

-- UPDATE … SET set WHERE test.
unfoldable pub update_where : (Row → Bool) → (Row → Row) → List Row → List Row
update_where test set [] = []
update_where test set (r ∷ rows) = (if test r then set r else r) ∷ update_where test set rows

-- The number of rows that an UPDATE affects.
unfoldable pub count_where : (Row → Bool) → List Row → ℕ
count_where test [] = 0
count_where test (r ∷ rows) = (if test r then 1 else 0) + count_where test rows
