-- ===== src/Adapter/Lines.antt =====
-- What the methods `TranslateStream` of pkg/adapter do with one line: openai.go, crewai.go, autogen.go, langgraph.go
-- and custom.go.
use progo_a2a.Prelude.{
  String, Bool, ◌&&◌, ◌||◌, not, Option, none, some, List, [], ◌∷◌, is_some, any, str_eq, is_empty,
  is_prefix, trim_space, trim_prefix, if◌then◌else◌,
}
use progo_a2a.A2a.{Json, StreamEventType, token_delta, step_progress}
use progo_a2a.Adapter.{Gjson, Found, pair, single}
use progo_a2a.Config.{StreamMapping}
use progo_a2a.Adapter.Paths.{normalize_json_path}
use progo_a2a.Adapter.Streaming.{
  Response, StreamError, translate_stream, Out, Control, next, finish, emit_or_stop, emit_error,
}

-- The adapters, the custom one with the mapping of its agent's streams.
pub data Kind : Type 0 where
  openai langgraph crewai autogen : Kind
  custom : StreamMapping → Kind

-- The data of a line, when it starts with "data:".
unfoldable pub data_of : String → Option String
unfolding is_prefix trim_space trim_prefix
data_of line = if is_prefix "data:" line then some (trim_space (trim_prefix "data:" line)) else none

-- The message of an error: its field "message", unless that is missing or empty.
unfoldable pub message_of : (G : Gjson) → Found G.Result → String
message_of G e = elim (G.sub e.result "message") [
  | none ↦ e.text
  | some m ↦ if is_empty m.text then e.text else m.text
]

-- The value of the first of some paths that exists, or else of another text.
unfoldable pub first_value : (G : Gjson) → String → List String → Json → Json
first_value G text [] other = other
first_value G text (p ∷ paths) other = elim (G.get text p) [
  | some v ↦ v.value
  | none ↦ first_value G text paths other
]

abbrev pub has_path : (G : Gjson) → String → String → Bool
has_path G text path = is_some (G.get text path)

-- The names of langgraph's events.
abbrev pub is_message : String → Bool
is_message event = any (λ n. str_eq event n) ("messages" ∷ "message" ∷ "token" ∷ [])

abbrev pub is_step : String → Bool
is_step event = any (λ n. str_eq event n) ("values" ∷ "updates" ∷ "steps" ∷ "step" ∷ [])

module _ (G : Gjson) {S E : Type 0} (emit : StreamEventType → Json → S → Option E × S)
    (agent_id : String) where
  abbrev pub Handled : Type 0
  Handled = Control E × (String × Out S)

  -- The variable `currentEvent` is kept.
  abbrev pub keeping : String → Control E × Out S → Handled
  keeping event (c, out) = (c, (event, out))

  unfoldable pub emit_delta : Json → Out S → Control E × Out S
  unfolding emit_or_stop
  emit_delta v out = emit_or_stop emit token_delta (single "delta" v) out

  unfoldable pub emit_step : String → Json → Out S → Control E × Out S
  unfolding emit_or_stop
  emit_step step v out = emit_or_stop emit step_progress (pair "step" (Json.text step) "data" v) out

  -- openai.go
  unfoldable pub openai_data : String → Out S → Control E × Out S
  unfolding emit_error message_of emit_delta
  openai_data text out = if str_eq text "[DONE]" then (finish, out) else elim (G.get text "error") [
    | some e ↦ emit_error emit agent_id (message_of G e) out
    | none ↦ elim (G.get text "choices.0.delta.content") [
      | none ↦ (next, out)
      | some delta ↦
          if is_empty delta.text then (next, out) else emit_delta (Json.text delta.text) out
    ]
  ]

  -- crewai.go, on data that is valid JSON
  unfoldable pub crewai_value : String → Out S → Control E × Out S
  unfolding emit_step emit_delta first_value
  crewai_value text out =
      if has_path G text "thought" || has_path G text "action" || has_path G text "step"
      then emit_step
          (if has_path G text "thought"
            then "thought"
            else if has_path G text "action"
            then "action"
            else "step")
          (G.parse text) out
      else emit_delta (first_value G text ("delta" ∷ "output" ∷ []) (G.parse text)) out

  unfoldable pub crewai_data : String → Out S → Control E × Out S
  unfolding emit_error message_of emit_delta crewai_value
  crewai_data text out =
      if str_eq text "[DONE]"
      then (finish, out)
      else if not (G.is_valid text)
      then emit_delta (Json.text text) out
      else elim (G.get text "error") [
        | some e ↦ emit_error emit agent_id (message_of G e) out
        | none ↦ crewai_value text out
      ]

  -- autogen.go
  unfoldable pub autogen_value : String → Out S → Control E × Out S
  unfolding emit_step emit_delta first_value
  autogen_value text out =
      if has_path G text "step"
      then emit_step "step" (G.parse text) out
      else emit_delta (first_value G text ("delta" ∷ "content" ∷ "message" ∷ []) (G.parse text)) out

  unfoldable pub autogen_data : String → Out S → Control E × Out S
  unfolding emit_error message_of emit_delta autogen_value
  autogen_data text out =
      if str_eq text "[DONE]"
      then (finish, out)
      else if not (G.is_valid text)
      then emit_delta (Json.text text) out
      else elim (G.get text "error") [
        | some e ↦ emit_error emit agent_id (message_of G e) out
        | none ↦ autogen_value text out
      ]

  -- The three adapters without a variable of their own: a line that is empty or has no data is passed over.
  unfoldable pub data_line :
      (String → Out S → Control E × Out S) → String → String → Out S → Handled
  unfolding data_of
  data_line handle event line out = elim (data_of line) [
    | none ↦ (next, (event, out))
    | some text ↦ keeping event (handle text out)
  ]

  -- langgraph.go: the message of an event "error"
  unfoldable pub langgraph_message : String → String
  langgraph_message text = if not (G.is_valid text) then text else elim (G.get text "message") [
    | some m ↦ m.text
    | none ↦ elim (G.get text "error") [ some e ↦ e.text | none ↦ text ]
  ]

  abbrev pub parsed : String → Json
  parsed text = if G.is_valid text then G.parse text else Json.text text

  -- An event of messages, of steps, and any other.
  unfoldable pub langgraph_event : String → String → Out S → Control E × Out S
  unfolding emit_delta emit_step first_value
  langgraph_event event text out =
      if is_message event
      then emit_delta
          (if G.is_valid text
            then first_value G text ("0.content" ∷ "content" ∷ []) (G.parse text)
            else Json.text text)
          out
      else if is_step event
      then emit_step event (parsed text) out
      else if G.is_valid text && has_path G text "delta"
      then emit_delta (first_value G text ("delta" ∷ []) Json.null) out
      else emit_step "progress" (parsed text) out

  unfoldable pub langgraph_data : String → String → Out S → Control E × Out S
  unfolding emit_error langgraph_message langgraph_event
  langgraph_data event text out =
      if str_eq text "[DONE]" || str_eq event "end"
      then (finish, out)
      else if str_eq event "error"
      then emit_error emit agent_id (langgraph_message text) out
      else langgraph_event event text out

  unfoldable pub langgraph_line : String → String → Out S → Handled
  unfolding data_of langgraph_data is_prefix trim_space trim_prefix
  langgraph_line event line out =
      if is_empty line
      then (next, ("", out))
      else if is_prefix "event:" line
      then (next, (trim_space (trim_prefix "event:" line), out))
      else elim (data_of line) [
        | none ↦ (next, (event, out))
        | some text ↦ keeping event (langgraph_data event text out)
      ]

  -- custom.go, with the data path and the sentinel of the mapping
  unfoldable pub custom_data : StreamMapping → String → Out S → Control E × Out S
  unfolding emit_delta first_value normalize_json_path
  custom_data m text out =
      if not (is_empty m.done_sentinel) && str_eq text m.done_sentinel
      then (finish, out)
      else emit_delta
          (if is_empty m.data_path
            then Json.text text
            else first_value G text (normalize_json_path m.data_path ∷ []) (Json.text text))
          out

  -- The loop's body of each adapter. Without a mapping, the custom adapter's settings are empty.
  unfoldable pub handle_line : Kind → String → String → Out S → Handled
  unfolding data_line openai_data crewai_data autogen_data langgraph_line custom_data
  handle_line openai event line out = data_line openai_data event line out
  handle_line crewai event line out = data_line crewai_data event line out
  handle_line autogen event line out = data_line autogen_data event line out
  handle_line langgraph event line out = langgraph_line event line out
  handle_line (custom m) event line out = data_line (custom_data m) event line out

  -- `TranslateStream` of each adapter.
  unfoldable pub openai_stream : Response E → Out S → Option (StreamError E) × Out S
  unfolding translate_stream data_line openai_data
  openai_stream resp out = translate_stream emit (data_line openai_data) agent_id resp out

  unfoldable pub crewai_stream : Response E → Out S → Option (StreamError E) × Out S
  unfolding translate_stream data_line crewai_data
  crewai_stream resp out = translate_stream emit (data_line crewai_data) agent_id resp out

  unfoldable pub autogen_stream : Response E → Out S → Option (StreamError E) × Out S
  unfolding translate_stream data_line autogen_data
  autogen_stream resp out = translate_stream emit (data_line autogen_data) agent_id resp out

  unfoldable pub langgraph_stream : Response E → Out S → Option (StreamError E) × Out S
  unfolding translate_stream langgraph_line
  langgraph_stream resp out = translate_stream emit langgraph_line agent_id resp out

  unfoldable pub custom_stream : StreamMapping → Response E → Out S → Option (StreamError E) × Out S
  unfolding translate_stream data_line custom_data
  custom_stream m resp out = translate_stream emit (data_line (custom_data m)) agent_id resp out

  unfoldable pub translate : Kind → Response E → Out S → Option (StreamError E) × Out S
  unfolding openai_stream crewai_stream autogen_stream langgraph_stream custom_stream
  translate openai resp out = openai_stream resp out
  translate crewai resp out = crewai_stream resp out
  translate autogen resp out = autogen_stream resp out
  translate langgraph resp out = langgraph_stream resp out
  translate (custom m) resp out = custom_stream m resp out
