-- ===== src/Adapter/Examples.antt =====
-- The theorems of the adapters at an upstream that answers in a fixed way.
pub mod Streams
use progo_a2a.Prelude.{
  ℕ, suc, String, ◌≡◌, refl, true, false, Option, none, some, List, [], ◌∷◌, str_eq, if◌then◌else◌,
  ok, Result,
}
use progo_a2a.A2a.{Json, TaskRequest}
use progo_a2a.Config.{AgentConfig}
use progo_a2a.Config.Sample.{sample_agent}
use progo_a2a.Adapter.{Gjson, Found}
use progo_a2a.Prelude.Dict.{get}
use progo_a2a.Adapter.Requests.{
  openai_payload, openai_reserved, openai_base, crewai_payload, crewai_reserved, crewai_base,
  autogen_payload, autogen_reserved, autogen_base,
}
use progo_a2a.Adapter.Payloads.{openai_entry, crewai_entry, autogen_entry, payload-overlaid}
use progo_a2a.Adapter.Replies.{crewai, translate_response}
use progo_a2a.Adapter.Failures.{Translated, translate_response-Translated}

-- Any path leads to the text "hello", except that to an error.
abbrev pub fixed : Gjson
fixed = record {
  Result = String;
  get = λ text path.
      if str_eq path "error"
      then none
      else some (record { result = text; value = Json.text "hello"; text = "hello" });
  sub = λ r path. none;
  items = λ r. [];
  is_valid = λ text. true;
  parse = λ text. Json.text text;
  unmarshal = λ text. none;
  marshal = λ v. "";
}

translate_response-Translated_example :
    Translated {E = String} crewai "a" 503 (translate_response fixed "a" 0 crewai 503 (ok "busy"))
translate_response-Translated_example =
    translate_response-Translated fixed "a" 0 crewai 503 (ok "busy")

abbrev optioned : AgentConfig
optioned = record (sample_agent "a" "openai" []) {
  options = ("messages", Json.null) ∷ ("temperature", Json.number "1") ∷ [];
}

abbrev plain_task : TaskRequest
plain_task = record {
  id = "task-1";
  agent_id = "a";
  required_capability = "";
  input = Json.text "hi";
  context = none;
  metadata = none;
  stream = false;
}

payload-overlaid_example :
    (get "messages" (openai_payload optioned plain_task)
      ≡ openai_entry optioned plain_task "messages")
    × (get "messages" (crewai_payload optioned plain_task)
        ≡ crewai_entry optioned plain_task "messages")
    × (get "messages" (autogen_payload optioned plain_task)
        ≡ autogen_entry optioned plain_task "messages")
payload-overlaid_example =
    payload-overlaid optioned plain_task "messages" (unfold get in (refl, (refl, tt)))
