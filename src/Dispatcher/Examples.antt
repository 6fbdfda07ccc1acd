-- ===== src/Dispatcher/Examples.antt =====
-- The theorems of the dispatcher at two agents that fall back to each other, over a network whose first two
-- responses have the status 503.
use progo_a2a.Prelude.{
  ℕ, suc, ◌≤◌, String, ◌≡◌, ◌⊎◌, refl, true, false, none, some, List, [], ◌∷◌, ltb, if◌then◌else◌,
  ok, str_eq,
}
use progo_a2a.Prelude.Int.{pos}
use progo_a2a.A2a.{Json, TaskRequest, status_completed}
use progo_a2a.Config.{AgentConfig}
use progo_a2a.Config.Sample.{sample_config, two_agents, parse_sample, two_agents-valid}
use progo_a2a.Dispatcher.Validated.{validated-dispatch}
use progo_a2a.Dispatcher.{
  World, Adapter, Dispatcher, Event, sent, retried, fell_back, Run, get_agent,
}
use progo_a2a.Dispatcher.Fallback.{dispatch, dispatch_stream}
use progo_a2a.Dispatcher.Requests.{sent_count}
use progo_a2a.Dispatcher.Routing.{budget}
use progo_a2a.Dispatcher.Outcomes.{Ended}
use progo_a2a.Dispatcher.Dispatching.{Distinct, Reports, dispatch-requests, dispatch-errors}
use progo_a2a.Dispatcher.Streaming.{Silent, Streamed}
use progo_a2a.Dispatcher.StreamDispatch.{dispatch_stream-Streamed}

-- The state counts the requests.
abbrev network : World
network = record {
  State = ℕ;
  Failure = String;
  Request = String;
  Body = String;
  is_deadline = λ e. false;
  ctx_err = λ n. (none, n);
  wait = λ d n. (none, n);
  interval = λ attempt n. (pos 100, n);
  send = λ t r n. (ok ((if ltb n 2 then 503 else 200), r), suc n);
  generate_task_id = λ n. ("task-0", n);
}

abbrev agent : String → ℕ → String → AgentConfig
agent id retries fallback = record {
  id = id;
  name = id;
  description = "";
  agent_type = "openai";
  endpoint = "http://agent";
  capabilities = "write" ∷ [];
  tags = [];
  timeout_seconds = pos 30;
  retries = pos retries;
  fallback_agent_ids = fallback ∷ [];
  auth = record { auth_type = "none"; token = ""; header_name = ""; header_value = "" };
  options = [];
  mapping = none;
}

abbrev adapter : Adapter network
adapter = record {
  translate_request = λ t a task n. (ok task.id, n);
  translate_response = λ t a r n. (
    ok (record {
      task_id = "";
      agent_id = "";
      status = status_completed;
      output = Json.null;
      artifacts = [];
      error = none;
      timestamp = 0;
    }),
    n,
  );
  translate_stream = λ t a r n. (none, (true, n));
}

abbrev two : Dispatcher network
two = record {
  agents = agent "a" 1 "b" ∷ agent "b" 0 "a" ∷ [];
  reg = λ t. if str_eq t "openai" then some adapter else none;
  backoff = true;
  metrics = true;
}

abbrev task : TaskRequest
task = record {
  id = "task-1";
  agent_id = "a";
  required_capability = "";
  input = Json.null;
  context = none;
  metadata = none;
  stream = false;
}

two-Distinct : Distinct two
unfolding get_agent
two-Distinct = (refl, (refl, tt))

abbrev trace_of : {A : Type 0} → A × Run network → List Event
trace_of (r, s) = s.trace

-- Two requests to the target, then one to its fallback.
abbrev expected : List Event
expected = sent "a" ∷ retried "a" ∷ sent "a" ∷ fell_back "a" "b" ∷ sent "b" ∷ []

falls_back : Ended (λ r t. t.trace ≡ expected) (dispatch two (some task) 0)
unfolding dispatch
falls_back = refl

dispatch-requests_example :
    Ended
      (λ r t. (id : String) → sent_count id t.trace ≤ budget two id)
      (dispatch two (some task) 0)
dispatch-requests_example = dispatch-requests two task 0 two-Distinct

dispatch-errors_example : Ended (λ r t. Reports two task r) (dispatch two (some task) 0)
dispatch-errors_example = dispatch-errors two task 0 two-Distinct

dispatch_stream-Streamed_example :
    Ended
      (λ r t. ((id : String) → sent_count id t.trace ≤ budget two id) × (Silent t ⊎ Streamed t))
      (dispatch_stream two (some task) 0)
dispatch_stream-Streamed_example = dispatch_stream-Streamed two task 0 two-Distinct

abbrev configured : Dispatcher network
configured = record {
  agents = two_agents;
  reg = λ t. if str_eq t "openai" then some adapter else none;
  backoff = true;
  metrics = true;
}

validated-dispatch_example :
    Ended (λ r t. (id : String) → sent_count id t.trace ≤ 11) (dispatch configured (some task) 0)
validated-dispatch_example =
    validated-dispatch parse_sample (sample_config two_agents) configured task 0 two_agents-valid
      refl
