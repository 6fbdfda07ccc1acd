-- ===== src/Adapter/Payloads.antt =====
-- What the options of an agent can change of the requests that pkg/adapter makes.
use progo_a2a.Prelude.{
  String, ◌≡◌, refl, ◌∙◌, arith, Bool, true, false, Option, none, some, List, [], ◌∷◌, is_empty,
  str_eq, str_eq_iff, if◌then◌else◌, Bool-cases, inl, inr, subst, ap,
}
use progo_a2a.Prelude.Dict.{Dict, get, put, has, IsDict, get-put}
use progo_a2a.A2a.{Json, Items, TaskRequest}
use progo_a2a.Config.{AgentConfig}
use progo_a2a.Adapter.Requests.{
  add_options, openai_reserved, openai_base, openai_payload, crewai_reserved, crewai_base,
  crewai_payload, autogen_reserved, autogen_base, autogen_payload, text_or, in_context, messages_of,
  openai_messages, system_prompt, crewai_inputs,
}
use progo_a2a.Adapter.{pair}

-- The entry of a payload: an option takes the place of the adapter's own entry, except under the reserved keys.
abbrev pub overlaid : (String → Bool) → Dict Json → Dict Json → String → Option Json
overlaid reserved options base k =
    if reserved k then get k base else elim (get k options) [ none ↦ get k base | some v ↦ some v ]

unlisted : (k : String) (d : Dict Json) → has k d ≡ false → get k d ≡ none
unlisted k d h = ground (arith, h)

same_reserved :
    (reserved : String → Bool) (j k : String) → str_eq j k ≡ true → reserved j ≡ reserved k
same_reserved reserved j k e = ap reserved ((str_eq_iff j k).0 e)

pub add_options-overlaid :
    (reserved : String → Bool) (options base : Dict Json) (k : String)
    → IsDict options
    → get k (add_options reserved options base) ≡ overlaid reserved options base k
unfolding add_options get
add_options-overlaid reserved [] base k d = ground arith
add_options-overlaid reserved ((j, v) ∷ options) base k d =
    let base' = if reserved j then base else put j v base in
    let next = add_options-overlaid reserved options base' k d.1 in
    elim (Bool-cases (str_eq j k)) [
      | inr e ↦ ground (arith, next, get-put j k v base, e)
      | inl e ↦
          let absent : get k options ≡ none =
            subst (λ i. get i options ≡ none) ((str_eq_iff j k).0 e) (unlisted j options d.0) in
          ground (arith, next, get-put j k v base, e, absent, same_reserved reserved j k e)
    ]

-- The first of some values that is a text and not empty.
abbrev pub first_filled : List (Option Json) → String → String
first_filled [] other = other
first_filled (some (Json.text s) ∷ more) other = if is_empty s then first_filled more other else s
first_filled (_ ∷ more) other = first_filled more other

text_or-first_filled :
    (v : Option Json) (more : List (Option Json)) (other : String)
    → text_or v (first_filled more other) ≡ first_filled (v ∷ more) other
unfolding text_or
text_or-first_filled none more other = refl
text_or-first_filled (some Json.null) more other = refl
text_or-first_filled (some (Json.boolean b)) more other = refl
text_or-first_filled (some (Json.number n)) more other = refl
text_or-first_filled (some (Json.text s)) more other = refl
text_or-first_filled (some (Json.array items)) more other = refl
text_or-first_filled (some (Json.object fields)) more other = refl

module _ (agent : AgentConfig) (task : TaskRequest) where
  -- The entries of the bodies, written out: the own entries of each adapter, which an option cannot replace, and the options.
  abbrev pub openai_entry : String → Option Json
  openai_entry k =
      let prompt =
        first_filled (in_context "system" task.context ∷ get "system_prompt" agent.options ∷ [])
          "" in
      if str_eq k "model"
      then some (Json.text (first_filled (get "model" agent.options ∷ []) "gpt-4o"))
      else if str_eq k "messages"
      then some (
          Json.array (
            if is_empty prompt
            then messages_of task.input
            else Items.cons (pair "role" (Json.text "system") "content" (Json.text prompt))
                (messages_of task.input)))
      else if str_eq k "stream"
      then (if task.stream then some (Json.boolean true) else none)
      else if str_eq k "system_prompt"
      then none
      else get k agent.options

  abbrev pub crewai_entry : String → Option Json
  crewai_entry k =
      if str_eq k "inputs" then some (crewai_inputs task.input) else get k agent.options

  abbrev pub autogen_entry : String → Option Json
  autogen_entry k =
      let named = if is_empty agent.id then agent.name else agent.id in
      if str_eq k "sender"
      then some (
          Json.text (
            first_filled (in_context "sender" task.context ∷ get "sender" agent.options ∷ [])
              "user"))
      else if str_eq k "recipient"
      then some (
          Json.text (
            first_filled (in_context "recipient" task.context ∷ get "recipient" agent.options ∷ [])
              named))
      else if str_eq k "message"
      then some task.input
      else get k agent.options

  openai-entry :
      (k : String)
      → overlaid openai_reserved agent.options (openai_base agent task) k ≡ openai_entry k
  unfolding openai_base openai_messages system_prompt get
  openai-entry k = ground (
    arith,
    str_eq_iff k k,
    str_eq_iff "messages" k,
    str_eq_iff k "messages",
    str_eq_iff "model" k,
    str_eq_iff k "model",
    str_eq_iff "stream" k,
    str_eq_iff k "stream",
    str_eq_iff "system_prompt" k,
    str_eq_iff k "system_prompt",
    text_or-first_filled (in_context "system" task.context) (get "system_prompt" agent.options ∷ [])
        "",
    text_or-first_filled (get "system_prompt" agent.options) [] "",
    text_or-first_filled (get "model" agent.options) [] "gpt-4o",
  )

  crewai-entry :
      (k : String)
      → overlaid crewai_reserved agent.options (crewai_base agent task) k ≡ crewai_entry k
  unfolding crewai_base get
  crewai-entry k = ground (arith, str_eq_iff "inputs" k, str_eq_iff k "inputs")

  autogen-entry :
      (k : String)
      → overlaid autogen_reserved agent.options (autogen_base agent task) k ≡ autogen_entry k
  unfolding autogen_base get
  autogen-entry k = ground (
    arith,
    str_eq_iff k k,
    str_eq_iff "message" k,
    str_eq_iff k "message",
    str_eq_iff "sender" k,
    str_eq_iff k "sender",
    str_eq_iff "recipient" k,
    str_eq_iff k "recipient",
    text_or-first_filled (in_context "sender" task.context) (get "sender" agent.options ∷ [])
        "user",
    text_or-first_filled (get "sender" agent.options) [] "user",
    text_or-first_filled (in_context "recipient" task.context) (get "recipient" agent.options ∷ [])
        (if is_empty agent.id then agent.name else agent.id),
    text_or-first_filled (get "recipient" agent.options) []
        (if is_empty agent.id then agent.name else agent.id),
  )

-- In the bodies that the adapters of OpenAI, CrewAI and AutoGen send, the messages, the model and the stream flag, the
-- inputs, and the message, the sender and the recipient are made of the task and, for the model, the system prompt, the sender
-- and the recipient, of the option of that name; no option replaces one of these entries, the option system_prompt is not
-- sent, and every other option is sent as it is. An agent has one option of each name.
pub payload-overlaid :
    (agent : AgentConfig) (task : TaskRequest) (k : String)
    → IsDict agent.options
    → (get k (openai_payload agent task) ≡ openai_entry agent task k)
      × (get k (crewai_payload agent task) ≡ crewai_entry agent task k)
      × (get k (autogen_payload agent task) ≡ autogen_entry agent task k)
unfolding openai_payload crewai_payload autogen_payload
payload-overlaid agent task k d = (
  add_options-overlaid openai_reserved agent.options (openai_base agent task) k d
      ∙ openai-entry agent task k,
  add_options-overlaid crewai_reserved agent.options (crewai_base agent task) k d
      ∙ crewai-entry agent task k,
  add_options-overlaid autogen_reserved agent.options (autogen_base agent task) k d
      ∙ autogen-entry agent task k,
)
