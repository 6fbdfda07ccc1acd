-- ===== src/Adapter/Requests/Bodies.antt =====
-- The bodies that the methods TranslateRequest of pkg/adapter make of a task and the options of an agent.
use progo_a2a.Prelude.{
  String, Bool, true, ◌&&◌, not, Option, none, some, List, [], ◌∷◌, str_eq, is_empty, any,
  if◌then◌else◌,
}
use progo_a2a.Prelude.Dict.{Dict, get, put}
use progo_a2a.A2a.{Json, Items, Fields, TaskRequest}
use progo_a2a.Config.{AgentConfig}
use progo_a2a.Adapter.{pair}

-- A map that is a JSON value, as the code reads it.
unfoldable pub field_of : String → Fields → Option Json
field_of k Fields.end = none
field_of k (Fields.field j v fields) =
    let rest = field_of k fields in if str_eq j k then some v else rest

abbrev pub in_context : String → Option Fields → Option Json
in_context k none = none
in_context k (some fields) = field_of k fields

-- `if s, ok := m[key].(string); ok && s != "" { ... }`
unfoldable pub text_or : Option Json → String → String
text_or (some (Json.text s)) other = if is_empty s then other else s
text_or _ other = other

-- The loop over the agent's options that puts all but some keys into the payload.
unfoldable pub add_options : (String → Bool) → Dict Json → Dict Json → Dict Json
unfolding put
add_options reserved [] payload = payload
add_options reserved ((k, v) ∷ options) payload =
    add_options reserved options (if reserved k then payload else put k v payload)

abbrev pub is_among : List String → String → Bool
is_among names k = any (λ n. str_eq k n) names

abbrev pub or_else : Option Json → Json → Json
or_else none other = other
or_else (some v) other = v

-- `if v, ok := options[key]; ok { payload[key] = v }`
unfoldable pub put_some : String → Option Json → Dict Json → Dict Json
unfolding put
put_some k none payload = payload
put_some k (some v) payload = put k v payload

abbrev pub to_fields : Dict Json → Fields
to_fields [] = Fields.end
to_fields ((k, v) ∷ d) = Fields.field k v (to_fields d)

-- openai.go
unfoldable pub user_message : Json → Items
user_message content = Items.cons (pair "role" (Json.text "user") "content" content) Items.nil

unfoldable pub messages_of : Json → Items
unfolding user_message field_of
messages_of (Json.array items) = items
messages_of (Json.object fields) = elim (field_of "messages" fields) [
  | some (Json.array items) ↦ items
  | some _ ↦ user_message (Json.object fields)
  | none ↦ user_message (Json.object fields)
]
messages_of content = user_message content

unfoldable pub system_prompt : AgentConfig → TaskRequest → String
unfolding text_or get field_of
system_prompt agent task =
    text_or (in_context "system" task.context) (text_or (get "system_prompt" agent.options) "")

unfoldable pub openai_messages : AgentConfig → TaskRequest → Items
unfolding system_prompt messages_of
openai_messages agent task =
    let prompt = system_prompt agent task in
    if is_empty prompt
    then messages_of task.input
    else Items.cons (pair "role" (Json.text "system") "content" (Json.text prompt))
        (messages_of task.input)

abbrev pub openai_reserved : String → Bool
openai_reserved k = is_among ("model" ∷ "system_prompt" ∷ "messages" ∷ "stream" ∷ []) k

unfoldable pub openai_base : AgentConfig → TaskRequest → Dict Json
unfolding openai_messages text_or get put
openai_base agent task =
    let p =
      put "messages" (Json.array (openai_messages agent task))
        (put "model" (Json.text (text_or (get "model" agent.options) "gpt-4o")) []) in
    if task.stream then put "stream" (Json.boolean true) p else p

-- crewai.go
abbrev pub crewai_reserved : String → Bool
crewai_reserved k = str_eq k "inputs"

unfoldable pub crewai_inputs : Json → Json
crewai_inputs (Json.object fields) = Json.object fields
crewai_inputs input = Json.object (Fields.field "input" input Fields.end)

unfoldable pub crewai_base : AgentConfig → TaskRequest → Dict Json
unfolding crewai_inputs put
crewai_base agent task = put "inputs" (crewai_inputs task.input) []

-- autogen.go
abbrev pub autogen_reserved : String → Bool
autogen_reserved k = is_among ("sender" ∷ "recipient" ∷ "message" ∷ []) k

unfoldable pub autogen_base : AgentConfig → TaskRequest → Dict Json
unfolding text_or get field_of put
autogen_base agent task =
    let sender =
      text_or (in_context "sender" task.context) (text_or (get "sender" agent.options) "user") in
    let named = if is_empty agent.id then agent.name else agent.id in
    let recipient =
      text_or (in_context "recipient" task.context)
        (text_or (get "recipient" agent.options) named) in
    put "message" task.input
      (put "recipient" (Json.text recipient) (put "sender" (Json.text sender) []))

-- langgraph.go
unfoldable pub thread_id : TaskRequest → String
unfolding text_or field_of
thread_id task = text_or (in_context "thread_id" task.context) task.id

-- The loop over the options for "configurable".
unfoldable pub add_configurable : String → Fields → Dict Json → Dict Json
unfolding put
add_configurable thread Fields.end configurable = configurable
add_configurable thread (Fields.field k v fields) configurable =
    add_configurable thread fields
      (if str_eq k "thread_id" && not (is_empty thread) then configurable else put k v configurable)

-- `configMap` less its entry "configurable", the map `configurable` of that entry, and the value that takes the
-- place of this map when the option "configurable" is not a map.
pub record GraphConfig : Type 0 where
  pub config_map : Dict Json
  pub configurable : Dict Json
  pub replaced : Option Json

-- The loop over the option "config".
unfoldable pub add_config : String → Fields → GraphConfig → GraphConfig
unfolding add_configurable put
add_config thread Fields.end c = c
add_config thread (Fields.field k (Json.object fields) rest) c = add_config thread rest (
    if str_eq k "configurable"
    then record c { configurable = add_configurable thread fields c.configurable }
    else record c { config_map = put k (Json.object fields) c.config_map })
add_config thread (Fields.field k v rest) c = add_config thread rest (
    if str_eq k "configurable"
    then record c { replaced = some v }
    else record c { config_map = put k v c.config_map })

unfoldable pub start_config : String → GraphConfig
unfolding put
start_config thread = record {
  config_map = [];
  configurable = if is_empty thread then [] else put "thread_id" (Json.text thread) [];
  replaced = none;
}

unfoldable pub graph_config : AgentConfig → TaskRequest → GraphConfig
unfolding thread_id start_config add_config get
graph_config agent task =
    let start = start_config (thread_id task) in
    elim (get "config" agent.options) [
      | some (Json.object fields) ↦ add_config (thread_id task) fields start
      | some _ ↦ start
      | none ↦ start
    ]
