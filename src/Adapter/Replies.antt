-- ===== src/Adapter/Replies.antt =====
-- The methods `TranslateResponse` of pkg/adapter: openai.go, langgraph.go, crewai.go, autogen.go and custom.go. The
-- agent and the response are not nil; `read` is what `io.ReadAll` gives.
mod Words
unfoldable pub use Words.*
use progo_a2a.Prelude.{
  ℕ, ◌+◌, String, Bool, true, false, ◌&&◌, not, ◌==◌, leb, Option, none, some, List, [], ◌∷◌, any,
  is_empty, str_append, if◌then◌else◌, Result, ok, err,
}
use Prim.Native.Char.{code}
use progo_a2a.A2a.{
  Json, TaskResponse, TaskStatus, Artifact, status_pending, status_in_progress, status_completed,
  status_failed, status_canceled,
}
use progo_a2a.Config.{CustomMapping, ResponseMapping}
use progo_a2a.Adapter.{Gjson, Found}
use progo_a2a.Adapter.Paths.{normalize_json_path}
use progo_a2a.Adapter.Streaming.{upstream_text}
use progo_a2a.Adapter.Lines.{first_value}

module _ (G : Gjson) (agent_id : String) (now : ℕ) where
  -- The text of the first of some paths that exists, or else another one.
  unfoldable pub first_text : String → List String → String → String
  first_text body [] other = other
  first_text body (p ∷ paths) other = elim (G.get body p) [
    | some v ↦ v.text
    | none ↦ first_text body paths other
  ]

  abbrev pub reply_with : TaskStatus → Json → Option String → TaskResponse
  reply_with status output error = record {
    task_id = "";
    agent_id = agent_id;
    status = status;
    output = output;
    artifacts = [];
    error = error;
    timestamp = now;
  }

  abbrev pub failed_reply : String → TaskResponse
  failed_reply message = reply_with status_failed Json.null (some message)

  -- The reply to a status of 400 and more, with the error of the body or a text of the proxy's.
  unfoldable pub upstream_failure : ℕ → String → List String → TaskResponse
  unfolding first_text
  upstream_failure status body paths =
      failed_reply (first_text body paths (upstream_text status body))

  -- The body as a value: JSON, or a text.
  unfoldable pub parsed_body : String → Json
  parsed_body body = elim (G.unmarshal body) [ some v ↦ v | none ↦ Json.text body ]

  -- openai.go: a path that exists, is not null, and is not the empty text.
  abbrev pub is_filled : Found G.Result → Bool
  is_filled v = not (is_null v.value) && not (is_empty v.text)

  unfoldable pub openai_text : String → Json
  unfolding parsed_body
  openai_text body = elim (G.get body "choices.0.text") [
    | none ↦ parsed_body body
    | some v ↦ if is_filled v then Json.text v.text else parsed_body body
  ]

  unfoldable pub openai_calls : String → Json
  unfolding openai_text
  openai_calls body = elim (G.get body "choices.0.message.tool_calls") [
    | none ↦ openai_text body
    | some v ↦ if not (is_null v.value) then v.value else openai_text body
  ]

  unfoldable pub openai_output : String → Json
  unfolding openai_calls
  openai_output body = elim (G.get body "choices.0.message.content") [
    | none ↦ openai_calls body
    | some v ↦ if is_filled v then Json.text v.text else openai_calls body
  ]

  unfoldable pub openai_reply : ℕ → String → TaskResponse
  unfolding upstream_failure openai_output
  openai_reply status body =
      if leb 400 status
      then upstream_failure status body ("error.message" ∷ "message" ∷ [])
      else reply_with status_completed (openai_output body) none

  -- langgraph.go
  unfoldable pub langgraph_reply : ℕ → String → TaskResponse
  unfolding upstream_failure first_value parsed_body
  langgraph_reply status body =
      if leb 400 status
      then upstream_failure status body ("detail" ∷ "error" ∷ "message" ∷ [])
      else reply_with status_completed
          (first_value G body ("output" ∷ "values" ∷ []) (parsed_body body)) none

  -- crewai.go
  unfoldable pub crewai_status : String → Json → TaskResponse
  unfolding first_text is_lower_of crewai_failure
  crewai_status body output = elim (G.get body "status") [
    | none ↦ reply_with status_completed output none
    | some s ↦
        if reads_as ("failed" ∷ "error" ∷ []) s.text
        then reply_with status_failed output (
            some (
              first_text body ("error.message" ∷ "error" ∷ "message" ∷ []) (crewai_failure s.text)))
        else reply_with status_completed output none
  ]

  unfoldable pub crewai_reply : ℕ → String → TaskResponse
  unfolding upstream_failure first_value parsed_body crewai_status
  crewai_reply status body =
      if leb 400 status
      then upstream_failure status body ("error" ∷ "message" ∷ [])
      else crewai_status body (
          first_value G body ("result" ∷ "raw" ∷ "output" ∷ "tasks_output" ∷ []) (parsed_body body))

  -- autogen.go
  unfoldable pub content_of : Found G.Result → Json
  content_of v = elim (G.sub v.result "content") [ some c ↦ c.value | none ↦ v.value ]

  unfoldable pub last_content : String → Option (Found G.Result) → Json
  unfolding parsed_body content_of
  last_content body none = parsed_body body
  last_content body (some last) = content_of last

  unfoldable pub history_output : String → Json
  unfolding parsed_body last_content
  history_output body = elim (G.get body "chat_history") [
    | none ↦ parsed_body body
    | some h ↦
        if is_array h.value
        then last_content body (last_of (G.items h.result))
        else parsed_body body
  ]

  unfoldable pub autogen_reply : ℕ → String → TaskResponse
  unfolding upstream_failure first_value history_output
  autogen_reply status body =
      if leb 400 status
      then upstream_failure status body ("error" ∷ "message" ∷ [])
      else reply_with status_completed
          (first_value G body ("reply" ∷ "response" ∷ "summary" ∷ "message" ∷ [])
            (history_output body))
          none

  -- custom.go: what a path of the mapping leads to; an empty path leads nowhere
  unfoldable pub at_path : String → String → Option (Found G.Result)
  unfolding normalize_json_path
  at_path body path = if is_empty path then none else G.get body (normalize_json_path path)

  abbrev pub text_of : Option (Found G.Result) → String
  text_of none = ""
  text_of (some v) = v.text

  abbrev pub value_of : Option (Found G.Result) → Json
  value_of none = Json.null
  value_of (some v) = v.value

  unfoldable pub custom_output : ResponseMapping → String → Json
  unfolding at_path
  custom_output m body =
      if is_empty m.output_path then Json.text body else value_of (at_path body m.output_path)

  unfoldable pub custom_status : ResponseMapping → String → TaskStatus
  unfolding at_path named_status
  custom_status m body = elim (at_path body m.status_path) [
    | none ↦ status_completed
    | some v ↦ named_status v.text
  ]

  -- The loop over the artifacts.
  unfoldable pub artifacts_of : List (Found G.Result) → List Artifact
  artifacts_of [] = []
  artifacts_of (item ∷ items) =
      let rest = artifacts_of items in
      if is_object item.value
      then (record {
        name = text_of (G.sub item.result "name");
        mime_type = text_of (G.sub item.result "mime_type");
        uri = text_of (G.sub item.result "uri");
        content = value_of (G.sub item.result "data");
      })
        ∷ rest
      else rest

  unfoldable pub custom_artifacts : ResponseMapping → String → List Artifact
  unfolding at_path artifacts_of
  custom_artifacts m body = elim (at_path body m.artifacts_path) [
    | none ↦ []
    | some v ↦ if is_array v.value then artifacts_of (G.items v.result) else []
  ]

  abbrev pub error_at : Option (Found G.Result) → Option String
  error_at none = none
  error_at (some v) = some v.text

  unfoldable pub custom_reply : ResponseMapping → ℕ → String → TaskResponse
  unfolding at_path custom_output custom_status custom_artifacts
  custom_reply m status body =
      let found = error_at (at_path body m.error_path) in
      let s = custom_status m body in
      if leb 400 status then failed_reply (or_text found (upstream_text status body)) else record {
        task_id = "";
        agent_id = agent_id;
        status = s;
        output = custom_output m body;
        artifacts = custom_artifacts m body;
        error = if is_failed s then found else none;
        timestamp = now;
      }

  -- `TranslateResponse` of each adapter, from what `io.ReadAll` gives. A custom agent without a mapping is refused
  -- before the body is read.
  unfoldable pub translate_response :
      {E : Type 0} → Format → ℕ → Result E String → Result (ResponseError E) TaskResponse
  unfolding openai_reply langgraph_reply crewai_reply autogen_reply custom_reply
  translate_response (custom none) status read = err missing_mapping
  translate_response format status (err e) = err (unreadable e)
  translate_response openai status (ok body) = ok (openai_reply status body)
  translate_response langgraph status (ok body) = ok (langgraph_reply status body)
  translate_response crewai status (ok body) = ok (crewai_reply status body)
  translate_response autogen status (ok body) = ok (autogen_reply status body)
  translate_response (custom (some m)) status (ok body) = ok (custom_reply m.response status body)
