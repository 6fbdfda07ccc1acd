-- ===== src/Server/Examples.antt =====
-- The theorems of the server at a client that may use one agent.
mod Cards
mod Streams
use progo_a2a.Prelude.{
  ℕ, suc, String, ◌≡◌, refl, true, false, none, some, [], ◌∷◌, ok, trim_space, equal_fold, arith,
}
use progo_a2a.Prelude.Int.{pos}
use progo_a2a.Prelude.Dict.{get, put}
use progo_a2a.A2a.{Json, TaskRequest, TaskResponse, status_completed, forbidden}
use progo_a2a.Config.{AgentConfig, SecurityConfig}
use progo_a2a.Dispatcher.{World, Adapter, Dispatcher, Run, sent, resolve_agent}
use progo_a2a.Dispatcher.Fallback.{dispatch, new_run}
use progo_a2a.TaskStore.{MemoryTaskStore, save, contains}
use progo_a2a.TaskStore.Fifo.{IsStore}
use progo_a2a.Server.Access.{
  ClientCredentials, Request, allows, is_agent_allowed, auth_middleware, extract_api_key,
  extract_agent_id, is_public_endpoint, refusal,
}
use progo_a2a.Server.Authentication.{Authenticated, auth_middleware-Authenticated}
use progo_a2a.Server.Tasks.{
  read, refused, answered, read_request_body, check_access, finish_dispatch, dispatch_task,
  get_task,
}
use progo_a2a.Server.Replies.{dispatch_task-forbidden, get_task-dispatch_task}

abbrev pub secured : SecurityConfig
secured = record {
  enabled = true;
  api_keys = record { key = "k1"; client_id = "c1"; allowed_agents = "writer" ∷ [] } ∷ [];
}

abbrev pub request : Request
request = record {
  path = "/a2a/v1/agents/writer";
  authorization = "Bearer k1";
  x_api_key = "";
  query_agent_id = "";
  path_agent_id = "";
  segments = "a2a" ∷ "v1" ∷ "agents" ∷ "writer" ∷ [];
}

abbrev pub client : ClientCredentials
client = record { client_id = "c1"; allowed_agents = "writer" ∷ [] }

auth_middleware-Authenticated_example : Authenticated secured request (some client)
auth_middleware-Authenticated_example =
    auth_middleware-Authenticated secured request (some client) refl
      (unfold is_public_endpoint in refl)
      (unfold auth_middleware is_public_endpoint extract_api_key extract_agent_id allows
          is_agent_allowed trim_space equal_fold in
        refl)

abbrev pub network : World
network = record {
  State = ℕ;
  Failure = String;
  Request = String;
  Body = String;
  is_deadline = λ e. false;
  ctx_err = λ n. (none, n);
  wait = λ d n. (none, n);
  interval = λ attempt n. (pos 100, n);
  send = λ t r n. (ok (200, r), suc n);
  generate_task_id = λ n. ("task-0", n);
}

abbrev response : TaskResponse
response = record {
  task_id = "remote-7";
  agent_id = "writer";
  status = status_completed;
  output = Json.null;
  artifacts = [];
  error = none;
  timestamp = 0;
}

abbrev adapter : Adapter network
adapter = record {
  translate_request = λ t a task n. (ok task.id, n);
  translate_response = λ t a r n. (ok response, n);
  translate_stream = λ t a r n. (none, (true, n));
}

abbrev pub agent : String → AgentConfig
agent id = record {
  id = id;
  name = id;
  description = "";
  agent_type = "openai";
  endpoint = "http://agent";
  capabilities = [];
  tags = [];
  timeout_seconds = pos 30;
  retries = pos 0;
  fallback_agent_ids = [];
  auth = record { auth_type = "none"; token = ""; header_name = ""; header_value = "" };
  options = [];
  mapping = none;
}

abbrev pub two : Dispatcher network
two = record {
  agents = agent "writer" ∷ agent "admin" ∷ [];
  reg = λ t. some adapter;
  backoff = true;
  metrics = false;
}

abbrev pub task_for : String → TaskRequest
task_for id = record {
  id = "task-1";
  agent_id = id;
  required_capability = "";
  input = Json.null;
  context = none;
  metadata = none;
  stream = false;
}

abbrev empty_store : MemoryTaskStore
empty_store = record { max_tasks = 10; tasks = []; ll = [] }

empty-IsStore : IsStore empty_store
unfolding contains get
empty-IsStore = record {
  index = record { dict = tt; distinct = tt; same = λ k. refl; sizes = refl };
  bound = omega arith;
}

dispatch_task-forbidden_example :
    dispatch_task (λ s. some (task_for "admin")) two (some client) false (read 2 "{}") 0 empty_store
    ≡ some (refused (refusal forbidden "admin" 403), new_run {X = network} 0, empty_store)
dispatch_task-forbidden_example =
    dispatch_task-forbidden (λ s. some (task_for "admin")) two client false (read 2 "{}") 0
      empty_store (task_for "admin") (agent "admin") (unfold read_request_body in refl)
      (unfold resolve_agent in refl) refl (unfold allows in refl)

abbrev saved_store : MemoryTaskStore
saved_store = record {
  max_tasks = 10;
  tasks = ("remote-7", response) ∷ ("task-1", response) ∷ [];
  ll = "remote-7" ∷ "task-1" ∷ [];
}

abbrev last_run : Run network
last_run = record {
  world = 1;
  visited = "writer" ∷ [];
  has_emitted = false;
  trace = sent "writer" ∷ [];
}

get_task-dispatch_task_example :
    get_task (some client) false "task-1" saved_store ≡ answered response
get_task-dispatch_task_example =
    get_task-dispatch_task (λ s. some (task_for "writer")) two (some client) false (read 2 "{}") 0
      empty_store (task_for "writer") response last_run saved_store client "task-1" empty-IsStore
      (unfold read_request_body in refl)
      (unfold dispatch_task read_request_body check_access allows is_agent_allowed finish_dispatch
          dispatch save put get in
        refl)
      refl refl (unfold allows in refl)
