-- ===== src/Worker/Examples.antt =====
-- The theorems of the worker at one job, its ledger and a network of one agent.
mod Settings
mod Renewal
pub use Settings.*
use progo_a2a.Prelude.{
  ℕ, suc, ◌≤◌, ◌<◌, ◌+◌, String, ◌≡◌, refl, true, false, none, some, List, [], ◌∷◌, str_eq, inl,
  inr, if◌then◌else◌, is_blank, rune_count, sql_trim, ok, arith,
}
use progo_a2a.Prelude.Int.{pos}
use progo_a2a.A2a.{Json, TaskRequest, status_completed}
use progo_a2a.Job.{
  Job, CreateJobInput, fence, validate_fence, validate_fail, validate_create, check_text, leased,
}
use progo_a2a.Config.{WorkerConfig, AgentConfig}
use progo_a2a.Config.Validator.{validate_settings}
use progo_a2a.Dispatcher.{World, Adapter, Dispatcher, get_agent}
use progo_a2a.Dispatcher.Requests.{sent_count}
use progo_a2a.Ledger.Row.{Row, has_key, scan_job, update_where, count_where}
use progo_a2a.Ledger.Statements.{
  may_run, set_running, set_leased, null_if_blank, choose, selected, is_ready, is_expired,
  set_reclaimed,
}
use progo_a2a.Ledger.Constraints.{passes_checks}
use progo_a2a.Ledger.Repository.{
  create_job, acquire_leases, mark_running, conflicts, reclaim_expired_leases,
}
use progo_a2a.Ledger.Repository.Monad.{Repo, Call, Wire, open_repo, exec, query}
use progo_a2a.Ledger.Repository.Payloads.{
  Encoding, Payload, value, marshal_job_payload, compute_job_idempotency_hash,
}
use progo_a2a.Ledger.Action.{Action, run, run_all}
use progo_a2a.Ledger.Lookup.{at}
use progo_a2a.Ledger.Outcomes.{Holds}
use progo_a2a.Ledger.Table.{empty_repo, reachable-IsLedger}
use progo_a2a.Worker.Executor.{Failure, execution, failure_input, failure_input-valid}
use progo_a2a.Worker.Execution.{execute, by_id, execute-requests}
use progo_a2a.Worker.Processing.{Processing, responded, process_job, executed-marked, superseded}
use progo_a2a.Worker.Slots.Bounded.{slots_bounded}
use progo_a2a.Worker.Slots.{
  Slots, new_slots, start_batch, Reaches, done, next, acquire_token, request, answer, polling,
  request_leases, after_acquire,
}

-- The lease expires while the job executes, and the job is reclaimed.
abbrev processing : Processing plain
processing = record {
  mark_call = call_at 30;
  acknowledge_call = call_at 40;
  last_call = call_at 3000;
  shutting_down = false;
  meanwhile = (call_at 2000, Action.reclaim (λ r. false) (pos 5) (pos 1_000_000)) ∷ [];
  job_context_done = false;
  outcome = responded (value "late");
}

start_repo : Repo
unfolding run_all
start_repo = run_all plain first_calls empty_repo

executed : (process_job plain processing (pos 15_000_000_000) (some snapshot) start_repo).0 ≡ true
unfolding start_repo run_all run process_job create_job acquire_leases mark_running open_repo exec
    query validate_fence validate_create check_text is_blank rune_count null_if_blank
    marshal_job_payload compute_job_idempotency_hash passes_checks sql_trim conflicts update_where
    count_where choose selected is_ready set_leased may_run has_key scan_job
executed = refl

executed-marked_example :
    (row : Row) × (at "acme" "job-1" start_repo.rows ≡ some row)
    × Holds 30 (fence snapshot) row
    × (row.state ≡ leased)
    × (row.cancel_requested_at ≡ none)
executed-marked_example =
    executed-marked plain processing (pos 15_000_000_000) snapshot start_repo
      (unfold start_repo in reachable-IsLedger plain first_calls) executed

reclaimed :
    (row : Row) × (at "acme" "job-1"
        (run_all plain processing.meanwhile
          (mark_running (call_at 30) (fence snapshot) start_repo).1).rows
      ≡ some row)
    × (snapshot.lease_token < row.lease_token)
unfolding start_repo run_all run create_job acquire_leases mark_running open_repo exec query fence
    validate_fence validate_create check_text is_blank rune_count null_if_blank marshal_job_payload
    compute_job_idempotency_hash passes_checks sql_trim conflicts update_where count_where choose
    selected is_ready set_leased may_run set_running has_key scan_job reclaim_expired_leases
    is_expired set_reclaimed
reclaimed = (_, refl, omega arith)

superseded_example :
    (process_job plain processing (pos 15_000_000_000) (some snapshot) start_repo).1
    ≡ run_all plain processing.meanwhile (mark_running (call_at 30) (fence snapshot) start_repo).1
superseded_example =
    superseded plain processing (pos 15_000_000_000) snapshot start_repo reclaimed.0
      (unfold start_repo in reachable-IsLedger plain first_calls) executed reclaimed.1 reclaimed.2

-- A failure whose code is longer than the ledger takes.
abbrev long_failure : Failure
long_failure = execution (record {
  code =
      "aaaaaaaaaaaaaaaaaaaaaaaaaaaaaaaaaaaaaaaaaaaaaaaaaaaaaaaaaaaaaaaaaaaaaaaaaaaaaaaaaaaaaaaaaaaaaaaaaaaaaaaaaaaaaaaaaaaaaaaaaaaaaaaaaaaaaaaaaaaaaaaaaaaaaaaaaaaaa";
  message = "";
  retryable = true;
})

failure_input-valid_example :
    validate_fail (failure_input snapshot long_failure (pos 15_000_000_000)) ≡ ok tt
failure_input-valid_example =
    failure_input-valid snapshot long_failure (pos 15_000_000_000)
      (unfold validate_fence fence is_blank rune_count in refl) refl refl

abbrev network : World
network = record {
  State = ℕ;
  Failure = String;
  Request = String;
  Body = String;
  is_deadline = λ e. false;
  ctx_err = λ n. (none, n);
  wait = λ d n. (none, n);
  interval = λ attempt n. (pos 100, n);
  send = λ t r n. (ok (200, r), suc n);
  generate_task_id = λ n. ("task-0", n);
}

abbrev adapter : Adapter network
adapter = record {
  translate_request = λ t a task n. (ok task.id, n);
  translate_response = λ t a r n. (
    ok (record {
      task_id = "";
      agent_id = "";
      status = status_completed;
      output = Json.null;
      artifacts = [];
      error = none;
      timestamp = 0;
    }),
    n,
  );
  translate_stream = λ t a r n. (none, (true, n));
}

abbrev writer : AgentConfig
writer = record {
  id = "writer";
  name = "writer";
  description = "";
  agent_type = "openai";
  endpoint = "http://agent";
  capabilities = [];
  tags = [];
  timeout_seconds = pos 30;
  retries = pos 3;
  fallback_agent_ids = [];
  auth = record { auth_type = "none"; token = ""; header_name = ""; header_value = "" };
  options = [];
  mapping = none;
}

abbrev one : Dispatcher network
one = record { agents = writer ∷ []; reg = λ t. some adapter; backoff = true; metrics = false }

-- The stored request names another agent.
abbrev stored : TaskRequest
stored = record {
  id = "";
  agent_id = "admin";
  required_capability = "";
  input = Json.null;
  context = none;
  metadata = none;
  stream = false;
}

execute-requests_example :
    sent_count "admin" (execute (λ s. some stored) (some one) (some snapshot) 0).1.trace
    ≤ (if str_eq "writer" "admin" then 1 else 0)
execute-requests_example =
    execute-requests (λ s. some stored) one snapshot 0 stored writer "admin" refl
      (by_id refl (unfold get_agent in refl))

abbrev after_batch : Slots
after_batch = record { capacity_tokens = 1; active = 1; phase = polling }

-- An iteration that leases one job, and one that meets an error.
two_iterations : Reaches 5 (new_slots 2) after_batch
unfolding new_slots request_leases after_acquire start_batch
two_iterations = next (acquire_token (omega arith)) (
    next (acquire_token (omega arith)) (
      next (request (omega arith) (inl refl) false) (
        next (answer (some (some snapshot ∷ [])) false) (
          next (acquire_token (omega arith))
            (next (request (omega arith) (inl refl) false) (next (answer none false) done))))))

slots_bounded_example : (1 + 0 + 1 ≡ 2) × (1 ≤ 2) × (0 ≤ 5)
slots_bounded_example = slots_bounded 2 5 after_batch (omega arith) two_iterations
