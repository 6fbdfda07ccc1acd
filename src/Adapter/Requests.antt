-- ===== src/Adapter/Requests.antt =====
-- The methods `TranslateRequest` of pkg/adapter: openai.go, langgraph.go, crewai.go, autogen.go and custom.go, and
-- `applyOutboundAuth`. A body is the map before it is marshalled; `agent` and `task` are not nil.
mod Bodies
unfoldable pub use Bodies.*
use progo_a2a.Prelude.{
  String, Bool, true, ◌&&◌, ◌||◌, not, Option, none, some, List, [], ◌∷◌, str_eq, is_empty,
  is_blank, str_append, equal_fold, any, if◌then◌else◌, Result, ok, err, ◌>>=◌, fail_if, of_option,
}
use progo_a2a.Prelude.Dict.{Dict, get, put}
use progo_a2a.A2a.{Json, Items, Fields, TaskRequest}
use progo_a2a.Config.{AgentConfig, AuthConfig}
use progo_a2a.Config.Agents.{is_valid_header_field_name}
use progo_a2a.Adapter.{pair}

-- `http.Request`, with a body of JSON or of text.
pub record HttpRequest (B : Type 0) : Type 0 where
  pub method : String
  pub url : String
  pub header : Dict String
  pub body : B

-- `http.Header.Set`: names with the same canonical form are one header.
unfoldable pub same_header : String → String → Bool
unfolding is_valid_header_field_name equal_fold
same_header a b =
    str_eq a b || (is_valid_header_field_name a && is_valid_header_field_name b && equal_fold a b)

unfoldable pub set_header : String → String → Dict String → Dict String
unfolding same_header
set_header name value [] = (name, value) ∷ []
set_header name value ((k, v) ∷ header) =
    let rest = set_header name value header in
    if same_header k name then (k, value) ∷ header else (k, v) ∷ rest

-- `applyOutboundAuth`
unfoldable pub apply_outbound_auth : AuthConfig → Dict String → Dict String
unfolding set_header
apply_outbound_auth auth header =
    if str_eq auth.auth_type "bearer"
    then if is_empty auth.token
      then header
      else set_header "Authorization" (str_append "Bearer " auth.token) header
    else if str_eq auth.auth_type "header"
    then if not (is_empty auth.header_name) && not (is_empty auth.header_value)
      then set_header auth.header_name auth.header_value header
      else header
    else header

unfoldable pub json_header : AgentConfig → TaskRequest → Dict String
unfolding set_header apply_outbound_auth
json_header agent task =
    let header = set_header "Content-Type" "application/json" [] in
    apply_outbound_auth agent.auth
      (if task.stream then set_header "Accept" "text/event-stream" header else header)

-- The errors of a translation.
pub data RequestError : Type 0 where
  missing_mapping bad_template failed_template bad_request : RequestError

-- `http.NewRequestWithContext`, which `accepts` a method and a URL or not, and what follows it.
unfoldable pub json_request :
    (String → String → Bool)
    → AgentConfig
    → TaskRequest
    → Dict Json
    → Result RequestError (HttpRequest (Dict Json))
unfolding json_header
json_request accepts agent task payload =
    if accepts "POST" agent.endpoint
    then ok (record {
      method = "POST";
      url = agent.endpoint;
      header = json_header agent task;
      body = payload;
    })
    else err bad_request

-- The bodies of the three adapters that pass options on.
unfoldable pub openai_payload : AgentConfig → TaskRequest → Dict Json
unfolding openai_base add_options
openai_payload agent task = add_options openai_reserved agent.options (openai_base agent task)

unfoldable pub crewai_payload : AgentConfig → TaskRequest → Dict Json
unfolding crewai_base add_options
crewai_payload agent task = add_options crewai_reserved agent.options (crewai_base agent task)

unfoldable pub autogen_payload : AgentConfig → TaskRequest → Dict Json
unfolding autogen_base add_options
autogen_payload agent task = add_options autogen_reserved agent.options (autogen_base agent task)

-- The body of langgraph's request: its other entries are options of the agent.
unfoldable pub langgraph_payload : AgentConfig → TaskRequest → Dict Json
unfolding graph_config get put put_some
langgraph_payload agent task =
    let c = graph_config agent task in
    let entry = or_else c.replaced (Json.object (to_fields c.configurable)) in
    let config = Json.object (Fields.field "configurable" entry (to_fields c.config_map)) in
    put_some "stream_mode" (get "stream_mode" agent.options) (
      put_some "assistant_id" (get "assistant_id" agent.options)
        (put "config" config (put "input" task.input [])))

module _ (accepts : String → String → Bool) (agent : AgentConfig) (task : TaskRequest) where
  unfoldable pub openai_request : Result RequestError (HttpRequest (Dict Json))
  unfolding openai_payload json_request
  openai_request = json_request accepts agent task (openai_payload agent task)

  unfoldable pub crewai_request : Result RequestError (HttpRequest (Dict Json))
  unfolding crewai_payload json_request
  crewai_request = json_request accepts agent task (crewai_payload agent task)

  unfoldable pub autogen_request : Result RequestError (HttpRequest (Dict Json))
  unfolding autogen_payload json_request
  autogen_request = json_request accepts agent task (autogen_payload agent task)

  unfoldable pub langgraph_request : Result RequestError (HttpRequest (Dict Json))
  unfolding langgraph_payload json_request
  langgraph_request = json_request accepts agent task (langgraph_payload agent task)

-- The headers of the mapping.
unfoldable pub set_headers : Dict String → Dict String → Dict String
unfolding set_header
set_headers [] header = header
set_headers ((k, v) ∷ more) header = set_headers more (set_header k v header)

-- custom.go, where `render` parses and executes the body template on the task and the agent: the cache of parsed
-- templates keeps what parsing gives. An empty body is none.
unfoldable pub custom_body :
    (String → AgentConfig → TaskRequest → Result RequestError String)
    → AgentConfig
    → TaskRequest
    → String
    → Result RequestError (Option String)
custom_body render agent task template =
    if is_blank template then ok none else elim (render template agent task) [
      | err e ↦ err e
      | ok text ↦ ok (if is_empty text then none else some text)
    ]

unfoldable pub custom_request :
    (String → AgentConfig → TaskRequest → Result RequestError String)
    → (String → String → Bool)
    → AgentConfig
    → TaskRequest
    → Result RequestError (HttpRequest (Option String))
unfolding custom_body set_headers set_header apply_outbound_auth
custom_request render accepts agent task = do
  m ← of_option missing_mapping agent.mapping
  body ← custom_body render agent task m.request.body_template
  let method = if is_empty m.request.method then "POST" else m.request.method
  _ ← fail_if (not (accepts method agent.endpoint)) bad_request
  let header = set_headers m.request.headers []
  ok (record {
    method = method;
    url = agent.endpoint;
    header =
        apply_outbound_auth agent.auth
          (if task.stream then set_header "Accept" "text/event-stream" header else header);
    body = body;
  })
