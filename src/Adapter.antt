-- ===== src/Adapter.antt =====
-- pkg/adapter: the translations between tasks and the protocols of the downstream frameworks. `Gjson` stands for
-- the third-party package gjson, and for encoding/json, on texts.
pub mod Streaming
pub mod Lines
pub mod Paths
pub mod Handling
pub mod Protocol
pub mod Requests
pub mod Payloads
pub mod Replies
pub mod Failures
pub mod Registry
pub mod Examples
use progo_a2a.Prelude.{ℕ, String, Bool, true, false, Option, List, [], ◌∷◌}
use progo_a2a.A2a.{Json, Fields}

-- A `gjson.Result` that exists: `Value()`, `String()`, and what `Array()` lists.
pub record Found (R : Type 0) : Type 0 where
  pub result : R
  pub value : Json
  pub text : String

pub record Gjson : Type 1 where
  -- `gjson.Result`
  pub Result : Type 0
  -- `gjson.Get(data, path)`, none when it does not exist
  pub get : String → String → Option (Found Result)
  -- `result.Get(path)`
  pub sub : Result → String → Option (Found Result)
  -- `result.Array()`, for an array
  pub items : Result → List (Found Result)
  -- `gjson.Valid(data)`, `gjson.Parse(data).Value()`
  pub is_valid : String → Bool
  pub parse : String → Json
  -- `json.Unmarshal` into an `any`, `json.Marshal` of one
  pub unmarshal : String → Option Json
  pub marshal : Json → String

-- `map[string]any{...}`
abbrev pub pair : String → Json → String → Json → Json
pair k v l w = Json.object (Fields.field k v (Fields.field l w Fields.end))

abbrev pub single : String → Json → Json
single k v = Json.object (Fields.field k v Fields.end)
