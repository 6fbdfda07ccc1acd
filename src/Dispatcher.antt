-- ===== src/Dispatcher.antt =====
-- pkg/dispatcher/dispatcher.go and pkg/dispatcher/retry.go: routing, retries and fallbacks. What is not the
-- dispatcher's own is a `World`: the network, the context, the clock and the adapters, over a state of theirs.
pub mod Retry
pub mod Fallback
pub mod Routing
pub mod Streaming
pub mod StreamAttempts
pub mod Requests
pub mod Outcomes
pub mod Dispatching
pub mod Streams
pub mod StreamDispatch
pub mod Validated
mod Examples
use progo_a2a.Prelude.{
  ℕ, ◌+◌, String, Bool, true, false, Option, none, some, List, [], ◌∷◌, ◌++◌, str_eq, is_empty, any,
  find, ltb, if◌then◌else◌, Result, ok, err, trim_space, equal_fold,
}
use progo_a2a.Prelude.Int.{ℤ, pos, leb_ℤ, pos_part}
use progo_a2a.A2a.{
  TaskRequest, TaskResponse, A2aError, Code, agent_not_found, capability_not_found, invalid_request,
}
use progo_a2a.Config.{AgentConfig}

-- `context.Canceled` and `context.DeadlineExceeded`.
pub data CtxError : Type 0 where
  canceled deadline_exceeded : CtxError

-- The HTTP client and the context, over the state of the world; a call may change the world.
pub record World : Type 1 where
  -- the state of the world, the errors of others, a request, the body of a response, a stream
  pub State : Type 0
  pub Failure : Type 0
  pub Request : Type 0
  pub Body : Type 0
  -- `errors.Is(err, context.DeadlineExceeded) || strings.Contains(err.Error(), "context deadline exceeded")`
  pub is_deadline : Failure → Bool
  -- `ctx.Err()`
  pub ctx_err : State → Option CtxError × State
  -- the wait of `Sleep` for a duration, ended by the context or by the timer
  pub wait : ℤ → State → Option CtxError × State
  -- the interval that `Duration` computes, with its jitter, when its guard passes
  pub interval : ℕ → State → ℤ × State
  -- `client.Do` and the status and body of the response
  pub send : Option ℕ → Request → State → Result Failure (ℕ × Body) × State
  -- `generateTaskID`
  pub generate_task_id : State → String × State

-- The interface `adapter.Adapter`, less its type. `TranslateStream` returns an error or nothing, and whether
-- it has emitted an event.
pub record Adapter (X : World) : Type 0 where
  pub translate_request :
      Option ℕ → AgentConfig → TaskRequest → X.State → Result X.Failure X.Request × X.State
  pub translate_response :
      Option ℕ → AgentConfig → ℕ × X.Body → X.State → Result X.Failure TaskResponse × X.State
  pub translate_stream :
      Option ℕ → AgentConfig → ℕ × X.Body → X.State → Option X.Failure × (Bool × X.State)

-- `Dispatcher`: the agents of the configuration, the registry of adapters, whether the backoff policy has a
-- positive first interval, and whether a registry of metrics is set.
pub record Dispatcher (X : World) : Type 0 where
  pub agents : List AgentConfig
  pub reg : String → Option (Adapter X)
  pub backoff : Bool
  pub metrics : Bool

-- What a dispatch does that others see: a request to an agent, an answer of an agent passed on to the caller's
-- stream, and the counts of retries and fallbacks.
pub data Event : Type 0 where
  sent : String → Event
  streamed : String → Event
  retried : String → Event
  fell_back : String → String → Event

-- The state that a dispatch passes on. `has_emitted` is the field of `trackingEmitter`.
pub record Run (X : World) : Type 0 where
  pub world : X.State
  pub visited : List String
  pub has_emitted : Bool
  pub trace : List Event

-- `visited[k]`
unfoldable pub is_visited : {X : World} → String → Run X → Bool
is_visited k s = any (λ j. str_eq j k) s.visited

-- The errors of the dispatcher.
pub data Failed (X : World) : Type 0 where
  a2a : A2aError → Failed X
  stopped : CtxError → Failed X
  adapter_error : String → String → Failed X
  translate_request_failed : X.Failure → Failed X
  translate_response_failed : X.Failure → Failed X
  transport_failed : X.Failure → Failed X
  stream_failed : X.Failure → Failed X
  downstream_status : ℕ → Failed X

abbrev pub refuse : {X : World} → Code → String → ℕ → Failed X
refuse code agent_id status = a2a (record { code = code; agent_id = agent_id; status = status })

abbrev or_refuse : {X : World} → Failed X → Option AgentConfig → Result (Failed X) AgentConfig
or_refuse e none = err e
or_refuse e (some agent) = ok agent

-- `GetAgent`.
unfoldable pub get_agent : {X : World} → Dispatcher X → String → Result (Failed X) AgentConfig
get_agent d agent_id =
    or_refuse (refuse agent_not_found agent_id 404) (find (λ a. str_eq a.id agent_id) d.agents)

unfoldable pub has_capability : String → AgentConfig → Bool
has_capability target agent = any (λ c. equal_fold (trim_space c) target) agent.capabilities

-- `FindAgentByCapability`. Case is folded in the comparison, so that the lower case of the target is left out.
unfoldable pub find_agent_by_capability :
    {X : World} → Dispatcher X → String → Result (Failed X) AgentConfig
unfolding has_capability
find_agent_by_capability d capability =
    or_refuse (refuse capability_not_found "" 404)
      (find (has_capability (trim_space capability)) d.agents)

-- `resolveAgent`.
unfoldable pub resolve_agent :
    {X : World} → Dispatcher X → Option TaskRequest → Result (Failed X) AgentConfig
unfolding get_agent find_agent_by_capability
resolve_agent d none = err (refuse invalid_request "" 400)
resolve_agent d (some task) =
    if is_empty task.agent_id
    then if is_empty task.required_capability
      then err (refuse invalid_request "" 400)
      else find_agent_by_capability d task.required_capability
    else get_agent d task.agent_id
