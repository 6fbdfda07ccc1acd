-- ===== src/Worker/Executor.antt =====
-- pkg/worker/executor.go: the execution of one job, and the failures that the ledger stores for it.
use Prim.Native.String as Str
use progo_a2a.Prelude.{
  ℕ, zero, suc, ◌≤◌, String, ◌≡◌, Bool, true, false, ◌&&◌, leb, ltb, rune_count, trim_space,
  if◌then◌else◌, Bool-cases, inl, inr, ok, arith,
}
use progo_a2a.Prelude.Int.{ℤ, pos, leb_ℤ, ltb_ℤ}
use progo_a2a.A2a.{
  Code, downstream_timeout, downstream_unavailable, agent_not_found, capability_not_found,
  cycle_detected, invalid_request,
}
use progo_a2a.Job.{
  Job, FailJobInput, fence, validate_fence, validate_fail, max_failure_code_length,
  max_failure_message_length, max_retry_backoff,
}

pub record ExecutionError : Type 0 where
  pub code : String
  pub message : String
  pub retryable : Bool

-- The errors of an executor, as `errors.As` and `errors.Is` tell them apart.
pub data Failure : Type 0 where
  execution : ExecutionError → Failure
  from_dispatcher : Code → Failure
  deadline other : Failure

abbrev fixed : String → String → Bool → ExecutionError
fixed code message retryable = record { code = code; message = message; retryable = retryable }

-- `mapDispatcherError`.
unfoldable pub map_dispatcher_error : Failure → ℕ → ExecutionError
map_dispatcher_error (from_dispatcher code) max_attempts = elim code [
  | downstream_timeout ↦
      fixed "DOWNSTREAM_TIMEOUT" "downstream agent request timed out" (ltb 1 max_attempts)
  | downstream_unavailable ↦
      fixed "DOWNSTREAM_UNAVAILABLE" "downstream agent unavailable" (ltb 1 max_attempts)
  | agent_not_found ↦ fixed "AGENT_NOT_FOUND" "agent not found" false
  | capability_not_found ↦ fixed "CAPABILITY_NOT_FOUND" "agent capability not found" false
  | cycle_detected ↦ fixed "CYCLE_DETECTED" "fallback cycle detected" false
  | invalid_request ↦ fixed "INVALID_REQUEST" "invalid task request" false
  | _ ↦ fixed "DOWNSTREAM_ERROR" "downstream execution failed" false
]
map_dispatcher_error deadline max_attempts =
    fixed "DOWNSTREAM_TIMEOUT" "downstream agent request timed out" (ltb 1 max_attempts)
map_dispatcher_error _ max_attempts = fixed "INTERNAL_ERROR" "internal execution failure" false

-- `string(runes[:n])`.
unfoldable pub take_runes : ℕ → String → String
take_runes zero s = Str.[]
take_runes (suc n) Str.[] = Str.[]
take_runes (suc n) (Str.◌∷◌ c s) = Str.◌∷◌ c (take_runes n s)

-- `boundString`.
unfoldable pub bound_string : String → ℕ → String
unfolding take_runes
bound_string s max_runes =
    let t = trim_space s in if leb (rune_count t) max_runes then t else take_runes max_runes t

-- `SanitizeFailure`, of an error that is not nil.
unfoldable pub sanitize_failure : Failure → ℕ → ExecutionError
unfolding map_dispatcher_error bound_string
sanitize_failure (execution e) max_attempts = record {
  code = bound_string e.code max_failure_code_length;
  message = bound_string e.message max_failure_message_length;
  retryable = e.retryable && ltb 1 max_attempts;
}
sanitize_failure f max_attempts =
    let mapped = map_dispatcher_error f max_attempts in
    record {
      code = bound_string mapped.code max_failure_code_length;
      message = bound_string mapped.message max_failure_message_length;
      retryable = mapped.retryable && ltb 1 max_attempts;
    }

-- The input of `FailJob` that `processJob` makes of a failure.
unfoldable pub failure_input : Job → Failure → ℤ → FailJobInput
unfolding sanitize_failure fence
failure_input job f backoff =
    let s = sanitize_failure f job.max_attempts in
    record {
      tenant_id = job.tenant_id;
      job_id = job.id;
      lease_owner = (fence job).lease_owner;
      lease_token = (fence job).lease_token;
      failure_code = s.code;
      failure_message = s.message;
      retryable = s.retryable;
      backoff = backoff;
    }

take_runes-bound : (n : ℕ) (s : String) → rune_count (take_runes n s) ≤ n
unfolding take_runes rune_count
take_runes-bound zero s = omega arith
take_runes-bound (suc n) Str.[] = omega arith
take_runes-bound (suc n) (Str.◌∷◌ c s) = omega (arith, take_runes-bound n s)

bound_string-bound : (s : String) (n : ℕ) → rune_count (bound_string s n) ≤ n
unfolding bound_string
bound_string-bound s n = elim (Bool-cases (leb (rune_count (trim_space s)) n)) [
  | inl h ↦ rw h (ground (arith, h))
  | inr h ↦ rw h (take_runes-bound n (trim_space s))
]

record Bounded (e : ExecutionError) : Type 0 where
  code : rune_count e.code ≤ max_failure_code_length
  message : rune_count e.message ≤ max_failure_message_length

sanitize_failure-Bounded : (f : Failure) (n : ℕ) → Bounded (sanitize_failure f n)
unfolding sanitize_failure
sanitize_failure-Bounded (execution e) n = record {
  code = bound_string-bound e.code max_failure_code_length;
  message = bound_string-bound e.message max_failure_message_length;
}
sanitize_failure-Bounded (from_dispatcher c) n = record {
  code = bound_string-bound _ max_failure_code_length;
  message = bound_string-bound _ max_failure_message_length;
}
sanitize_failure-Bounded deadline n = record {
  code = bound_string-bound _ max_failure_code_length;
  message = bound_string-bound _ max_failure_message_length;
}
sanitize_failure-Bounded other n = record {
  code = bound_string-bound _ max_failure_code_length;
  message = bound_string-bound _ max_failure_message_length;
}

-- Whatever an executor fails with, however long its texts, the input of `FailJob` that the worker makes of it for a job with a
-- valid fence and a backoff within its bounds passes the validation of the ledger, so that no failure is lost to it.
pub failure_input-valid :
    (job : Job) (f : Failure) (backoff : ℤ)
    → validate_fence (fence job) ≡ ok tt
    → ltb_ℤ backoff (pos 0) ≡ false
    → leb_ℤ backoff (pos max_retry_backoff) ≡ true
    → validate_fail (failure_input job f backoff) ≡ ok tt
unfolding validate_fail failure_input fence
failure_input-valid job f backoff v lo hi =
    let b = sanitize_failure-Bounded f job.max_attempts in
    ground (arith, v, lo, hi, b.code, b.message)
