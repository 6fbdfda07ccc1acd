-- ===== src/Worker/Execution.antt =====
-- `DispatcherExecutor.Execute` of pkg/worker/executor.go: one downstream attempt for one job.
use progo_a2a.Prelude.{
  ℕ, ◌≤◌, String, ◌≡◌, refl, ap, ◌∙◌, Bool, true, false, Option, none, some, is_empty, str_eq,
  if◌then◌else◌, Bool-cases, inl, inr, Result, ok, err, [], arith,
}
use progo_a2a.A2a.{TaskRequest, TaskResponse, TaskStatus, status_failed}
use progo_a2a.Job.{Job}
use progo_a2a.Config.{AgentConfig}
use progo_a2a.Dispatcher.{
  CtxError, canceled, deadline_exceeded, World, Dispatcher, Run, Failed, a2a, stopped,
  resolve_agent, get_agent, find_agent_by_capability,
}
use progo_a2a.Dispatcher.Retry.{ctx_err}
use progo_a2a.Dispatcher.Fallback.{dispatch_single_attempt, new_run}
use progo_a2a.Dispatcher.Requests.{sent_count}
use progo_a2a.Dispatcher.Dispatching.{single_attempt-requests}
use progo_a2a.Worker.Executor.{
  Failure, execution, from_dispatcher, deadline, other, map_dispatcher_error,
}

abbrev refused : String → String → Failure
refused code message = execution (record { code = code; message = message; retryable = false })

-- The error of a context, as an executor's failure.
abbrev of_context : CtxError → Failure
of_context deadline_exceeded = deadline
of_context canceled = other

-- What `errors.As` and `errors.Is` find in an error of `DispatchSingleAttempt`, which returns those of the
-- first two forms only.
abbrev pub of_dispatcher : {X : World} → Failed X → Failure
of_dispatcher (a2a e) = from_dispatcher e.code
of_dispatcher (stopped c) = of_context c
of_dispatcher _ = other

-- The request with the routing and the id of the job's columns.
unfoldable pub routed : Job → TaskRequest → TaskRequest
routed job req = record req {
  id = job.id;
  agent_id = job.agent_id;
  required_capability = job.required_capability;
}

module _ {X : World} where
  abbrev settle : ℕ → Result (Failed X) TaskResponse → Run X → Result Failure TaskResponse × Run X
  settle max_attempts (err e) s =
      let (c, s) = ctx_err s in
      (
        elim c [
          | some c ↦ err (of_context c)
          | none ↦ err (execution (map_dispatcher_error (of_dispatcher e) max_attempts))
        ],
        s,
      )
  settle max_attempts (ok resp) s = elim resp.status [
    | status_failed ↦ (err (refused "TASK_FAILED" "downstream task reported failure"), s)
    | _ ↦ (ok resp, s)
  ]

  -- The last argument is whether the request asks for a stream.
  abbrev dispatch_decoded :
      Dispatcher X → Job → X.State → TaskRequest → Bool → Result Failure TaskResponse × Run X
  dispatch_decoded d job w req true = (
    err (refused "STREAMING_NOT_SUPPORTED" "streaming jobs are not supported in durable worker"),
    new_run w,
  )
  dispatch_decoded d job w req false =
      let (r, s) = dispatch_single_attempt d (some (routed job req)) w in
      settle job.max_attempts r s

  abbrev dispatch_job :
      Dispatcher X → Job → X.State → Option TaskRequest → Result Failure TaskResponse × Run X
  dispatch_job d job w none =
      (err (refused "INVALID_PAYLOAD" "failed to decode job request payload"), new_run w)
  dispatch_job d job w (some req) = dispatch_decoded d job w req req.stream

  -- `Execute`, for an executor and a job that may be nil; `decode` is `json.Unmarshal` into a task request.
  unfoldable pub execute :
      (String → Option TaskRequest)
      → Option (Dispatcher X)
      → Option Job
      → X.State
      → Result Failure TaskResponse × Run X
  unfolding dispatch_single_attempt map_dispatcher_error routed
  execute decode none job w =
      (err (refused "NIL_DISPATCHER" "dispatcher is not configured"), new_run w)
  execute decode (some d) none w = (err (refused "INVALID_JOB" "job cannot be nil"), new_run w)
  execute decode (some d) (some job) w = elim (is_empty job.request) [
    | true ↦ (err (refused "INVALID_PAYLOAD" "job request payload is empty"), new_run w)
    | false ↦ dispatch_job d job w (decode job.request)
  ]

  settle-trace :
      (n : ℕ) (r : Result (Failed X) TaskResponse) (s : Run X) → (settle n r s).1.trace ≡ s.trace
  unfolding map_dispatcher_error
  settle-trace n (err e) s = refl
  settle-trace n (ok resp) s = by_status resp.status
    where
      by_status :
          (status : TaskStatus)
          → (elim status as (λ _. Result Failure TaskResponse × Run X) [
            | status_failed ↦ (err (refused "TASK_FAILED" "downstream task reported failure"), s)
            | _ ↦ (ok resp, s)
          ]).1.trace
            ≡ s.trace
      by_status status_failed = refl
      by_status TaskStatus.status_pending = refl
      by_status TaskStatus.status_in_progress = refl
      by_status TaskStatus.status_completed = refl
      by_status TaskStatus.status_canceled = refl

  -- The agent that the columns of a job name: the one of the column agent_id, and without an id the one that is found for
  -- the column required_capability.
  pub data Named (d : Dispatcher X) (job : Job) (agent : AgentConfig) : Type 0 where
    by_id : is_empty job.agent_id ≡ false → get_agent d job.agent_id ≡ ok agent → Named d job agent
    by_capability :
        is_empty job.agent_id ≡ true
        → is_empty job.required_capability ≡ false
        → find_agent_by_capability d job.required_capability ≡ ok agent
        → Named d job agent

  Named-resolve_agent :
      (d : Dispatcher X) (job : Job) (req : TaskRequest) (agent : AgentConfig)
      → Named d job agent
      → resolve_agent d (some (routed job req)) ≡ ok agent
  unfolding resolve_agent routed
  Named-resolve_agent d job req agent (by_id e h) = rw e h
  Named-resolve_agent d job req agent (by_capability e c h) = rw (e, c) h

  -- The execution of a job sends at most one request, and only to the agent that the columns of the job name, whatever
  -- agent, capability, retries or fallbacks its stored request and that agent name.
  pub execute-requests :
      (decode : String → Option TaskRequest) (d : Dispatcher X) (job : Job) (w : X.State)
      (req : TaskRequest) (agent : AgentConfig) (id : String)
      → decode job.request ≡ some req
      → Named d job agent
      → sent_count id (execute decode (some d) (some job) w).1.trace
        ≤ (if str_eq agent.id id then 1 else 0)
  unfolding execute
  execute-requests decode d job w req agent id known h =
      let out = dispatch_single_attempt d (some (routed job req)) w in
      let one =
        single_attempt-requests d (routed job req) w agent id
          (Named-resolve_agent d job req agent h) in
      elim (Bool-cases (is_empty job.request)) [
        | inl e ↦
            let runs : (execute decode (some d) (some job) w).1.trace ≡ [] = rw (execute, e) refl in
            rw runs (omega arith)
        | inr e ↦ elim (Bool-cases req.stream) [
          | inl s ↦ rw (sends e ∙ ap (dispatch_decoded d job w req) s) (omega arith)
          | inr s ↦
              rw
                (
                  sends e ∙ ap (dispatch_decoded d job w req) s,
                  settle-trace job.max_attempts out.0 out.1,
                )
                one
        ]
      ]
    where
      sends :
          is_empty job.request ≡ false
          → execute decode (some d) (some job) w ≡ dispatch_decoded d job w req req.stream
      sends e = rw (execute, e, known) refl
