-- ===== src/Job.antt =====
-- pkg/model/job.go: the states of a durable job, the job snapshot, lease fences, and the validation
-- of the inputs that the job repository takes. A text is a `String` of runes; `time.Duration` is a
-- number of nanoseconds.
pub mod Validation
use progo_a2a.Prelude.{
  ℕ, String, Bool, true, false, ◌||◌, ◌&&◌, Option, none, some, ltb, str_eq, is_blank, rune_count,
  Result, ok, err, ◌>>=◌, fail_if,
}
use progo_a2a.Prelude.Int.{ℤ, pos, ltb_ℤ, leb_ℤ}

pub data JobState : Type 0 where
  queued leased running succeeded failed canceled dead_letter : JobState

unfoldable pub is_terminal : JobState → Bool
is_terminal succeeded = true
is_terminal failed = true
is_terminal canceled = true
is_terminal dead_letter = true
is_terminal _ = false

abbrev pub max_failure_code_length : ℕ
max_failure_code_length = 128

abbrev pub max_failure_message_length : ℕ
max_failure_message_length = 2048

abbrev pub max_allowed_attempts : ℕ
max_allowed_attempts = 100

abbrev pub max_job_id_length : ℕ
max_job_id_length = 256

abbrev pub max_tenant_id_length : ℕ
max_tenant_id_length = 128

abbrev pub max_idempotency_key_length : ℕ
max_idempotency_key_length = 512

abbrev pub max_routing_value_length : ℕ
max_routing_value_length = 256

abbrev pub max_lease_owner_length : ℕ
max_lease_owner_length = 256

-- Seven days, in nanoseconds.
abbrev pub max_retry_backoff : ℕ
max_retry_backoff = 604_800_000_000_000

pub data JobError : Type 0 where
  empty_tenant_id empty_job_id empty_idempotency_key invalid_routing invalid_max_attempts : JobError
  empty_lease_owner invalid_lease_token failure_code_too_long failure_message_too_long : JobError
  nil_request request_hash_mismatch job_id_too_long tenant_id_too_long : JobError
  idempotency_key_too_long routing_value_too_long lease_owner_too_long : JobError
  invalid_retry_backoff : JobError

-- `attempt` and `lease_token` are columns with the check `>= 0`; times are microseconds.
pub record Job : Type 0 where
  pub id : String
  pub tenant_id : String
  pub idempotency_key : String
  pub request_hash : String
  pub request : String
  pub agent_id : String
  pub required_capability : String
  pub state : JobState
  pub attempt : ℕ
  pub max_attempts : ℕ
  pub next_run_at : ℕ
  pub lease_owner : Option String
  pub lease_token : ℕ
  pub lease_expires_at : Option ℕ
  pub response : Option String
  pub failure_code : Option String
  pub failure_message : Option String
  pub cancel_requested_at : Option ℕ
  pub created_at : ℕ
  pub updated_at : ℕ

pub record LeaseFence : Type 0 where
  pub tenant_id : String
  pub job_id : String
  pub lease_owner : String
  pub lease_token : ℤ

abbrev or_empty : Option String → String
or_empty none = ""
or_empty (some s) = s

unfoldable pub fence : Job → LeaseFence
fence j = record {
  tenant_id = j.tenant_id;
  job_id = j.id;
  lease_owner = or_empty j.lease_owner;
  lease_token = pos j.lease_token;
}

-- The pair of tests, blank and too long, that every identifier goes through.
unfoldable pub check_text : String → ℕ → JobError → JobError → Result JobError Unit
check_text s bound empty long = do
  _ ← fail_if (is_blank s) empty
  fail_if (ltb bound (rune_count s)) long

unfoldable pub validate_ids : String → String → Result JobError Unit
unfolding check_text
validate_ids tenant_id job_id = do
  _ ← check_text tenant_id max_tenant_id_length empty_tenant_id tenant_id_too_long
  check_text job_id max_job_id_length empty_job_id job_id_too_long

-- `LeaseFence.Validate`.
unfoldable pub validate_fence : LeaseFence → Result JobError Unit
unfolding validate_ids check_text
validate_fence f = do
  _ ← validate_ids f.tenant_id f.job_id
  _ ← check_text f.lease_owner max_lease_owner_length empty_lease_owner lease_owner_too_long
  fail_if (leb_ℤ f.lease_token (pos 0)) invalid_lease_token

-- The request is any value, so its type is a parameter; `none` is Go's nil.
pub record CreateJobInput (V : Type 0) : Type 0 where
  pub id : String
  pub tenant_id : String
  pub idempotency_key : String
  pub request : Option V
  pub request_hash : String
  pub agent_id : String
  pub required_capability : String
  pub max_attempts : ℤ
  pub next_run_at : Option ℕ

-- `CreateJobInput.Validate`, less the last test, on the request.
unfoldable pub validate_create_fields : {V : Type 0} → CreateJobInput V → Result JobError Unit
unfolding validate_ids check_text
validate_create_fields input = do
  _ ← validate_ids input.tenant_id input.id
  _ ←
      check_text input.idempotency_key max_idempotency_key_length empty_idempotency_key
        idempotency_key_too_long
  _ ← fail_if (is_blank input.agent_id && is_blank input.required_capability) invalid_routing
  _ ←
      fail_if
        (ltb max_routing_value_length (rune_count input.agent_id)
          || ltb max_routing_value_length (rune_count input.required_capability))
        routing_value_too_long
  fail_if (ltb_ℤ input.max_attempts (pos 1) || ltb_ℤ (pos max_allowed_attempts) input.max_attempts)
      invalid_max_attempts

-- `CreateJobInput.Validate`; a valid input has a request, which comes back.
unfoldable pub validate_create : {V : Type 0} → CreateJobInput V → Result JobError V
unfolding validate_create_fields
validate_create input = do _ ← validate_create_fields input; require_request input.request
  where
    require_request : {V : Type 0} → Option V → Result JobError V
    require_request none = err nil_request
    require_request (some v) = ok v

pub record FailJobInput : Type 0 where
  pub tenant_id : String
  pub job_id : String
  pub lease_owner : String
  pub lease_token : ℤ
  pub failure_code : String
  pub failure_message : String
  pub retryable : Bool
  pub backoff : ℤ

abbrev pub fail_fence : FailJobInput → LeaseFence
fail_fence i = record {
  tenant_id = i.tenant_id;
  job_id = i.job_id;
  lease_owner = i.lease_owner;
  lease_token = i.lease_token;
}

-- `FailJobInput.Validate`.
unfoldable pub validate_fail : FailJobInput → Result JobError Unit
unfolding validate_fence
validate_fail i = do
  _ ← validate_fence (fail_fence i)
  _ ← fail_if (ltb max_failure_code_length (rune_count i.failure_code)) failure_code_too_long
  _ ←
      fail_if (ltb max_failure_message_length (rune_count i.failure_message))
        failure_message_too_long
  fail_if (ltb_ℤ i.backoff (pos 0) || ltb_ℤ (pos max_retry_backoff) i.backoff) invalid_retry_backoff
