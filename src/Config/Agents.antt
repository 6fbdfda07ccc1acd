-- ===== src/Config/Agents.antt =====
-- pkg/config/validator.go: the checks of each agent in `Validate`. `Url` is what `url.Parse` tells of a text.
pub mod Accepted
use progo_a2a.Prelude.{
  ℕ, ◌-◌, String, Bool, true, false, not, ◌&&◌, ◌||◌, ◌==◌, leb, Option, none, some, List, [], ◌∷◌,
  ◌++◌, str_eq, str_any, str_all, any, is_empty, is_blank, trim_space, if◌then◌else◌, Result, ok,
  err, ◌>>=◌, fail_if, map_err, of_option,
}
use Prim.Native.Char.{code, char}
use progo_a2a.Prelude.Int.{pos, ltb_ℤ}
use progo_a2a.Config.{AgentConfig, AuthConfig, CustomMapping}

-- A parsed URL: `Scheme`, `Hostname()`, `User != nil` and `Fragment`. `IsAbs()` is that the scheme is not empty.
pub record Url : Type 0 where
  pub scheme : String
  pub hostname : String
  pub has_user : Bool
  pub fragment : String

-- The setting of an agent that is refused.
pub data AgentSetting : Type 0 where
  agent_id duplicate_id endpoint endpoint_scheme endpoint_host endpoint_user : AgentSetting
  endpoint_fragment agent_type retries timeout auth_type auth_credentials : AgentSetting
  mapping_missing mapping_method mapping_body mapping_output : AgentSetting

abbrev pub is_one_of : List String → String → Bool
is_one_of names s = any (λ n. str_eq s n) names

-- `strings.ContainsAny(s, " \t\r\n")`
unfoldable pub has_whitespace : String → Bool
unfolding str_any
has_whitespace s = str_any (λ c. c == 32 || c == 9 || c == 13 || c == 10) s

-- `isValidHeaderFieldByte`
unfoldable pub is_valid_header_field_byte : ℕ → Bool
is_valid_header_field_byte b =
    (leb b'a' b && leb b b'z')
    || (leb b'A' b && leb b b'Z')
    || (leb b'0' b && leb b b'9')
    || b == b'!'
    || b == b'#'
    || b == b'$'
    || b == b'%'
    || b == b'&'
    || b == 39
    || b == b'*'
    || b == b'+'
    || b == b'-'
    || b == b'.'
    || b == b'^'
    || b == b'_'
    || b == 96
    || b == b'|'
    || b == b'~'

-- `isValidHeaderFieldName`; a character that is not ASCII has bytes of 128 and more only.
unfoldable pub is_valid_header_field_name : String → Bool
unfolding is_valid_header_field_byte str_all
is_valid_header_field_name name = not (is_empty name) && str_all is_valid_header_field_byte name

-- `unicode.ToUpper`, as far as its result is an ASCII letter: two other letters, U+0131 and U+017F, give one.
unfoldable pub to_upper_char : ℕ → ℕ
to_upper_char c =
    if leb b'a' c && leb c b'z'
    then c - 32
    else if c == 0x131
    then b'I'
    else if c == 0x17f
    then b'S'
    else c

-- `strings.ToUpper(s) == t`, for a text `t` of ASCII letters.
unfoldable pub is_upper_of : String → String → Bool
unfolding to_upper_char
is_upper_of String.[] String.[] = true
is_upper_of (String.◌∷◌ c s) (String.◌∷◌ d t) = to_upper_char (code c) == code d && is_upper_of s t
is_upper_of _ _ = false

unfoldable pub validate_endpoint : (String → Option Url) → String → Result AgentSetting Unit
unfolding has_whitespace str_any
validate_endpoint parse e = do
  _ ← fail_if (is_blank e) endpoint
  _ ← fail_if (has_whitespace e) endpoint
  u ← of_option endpoint (parse e)
  _ ←
      fail_if (is_empty u.scheme || (not (str_eq u.scheme "http") && not (str_eq u.scheme "https")))
        endpoint_scheme
  _ ← fail_if (is_empty u.hostname) endpoint_host
  _ ← fail_if u.has_user endpoint_user
  fail_if (not (is_empty u.fragment) || str_any (λ c. c == b'#') e) endpoint_fragment

-- The switch on the type of the authentication; the empty type is "none".
unfoldable pub validate_auth : AuthConfig → Result AgentSetting Unit
unfolding is_valid_header_field_name
validate_auth auth =
    let kind = if is_empty auth.auth_type then "none" else auth.auth_type in
    if str_eq kind "none"
    then fail_if
        (not (is_empty auth.token)
          || not (is_empty auth.header_name)
          || not (is_empty auth.header_value))
        auth_credentials
    else if str_eq kind "bearer"
    then fail_if
        (is_blank auth.token || not (is_empty auth.header_name) || not (is_empty auth.header_value))
        auth_credentials
    else if str_eq kind "header"
    then fail_if
        (not (is_empty auth.token)
          || not (is_valid_header_field_name auth.header_name)
          || is_blank auth.header_value)
        auth_credentials
    else err auth_type

-- The checks of a custom agent's mapping.
unfoldable pub validate_mapping : Option CustomMapping → Result AgentSetting Unit
unfolding is_upper_of
validate_mapping none = err mapping_missing
validate_mapping (some m) = do
  _ ←
      fail_if
        (not (
          any (is_upper_of (trim_space m.request.method))
            ("GET" ∷ "POST" ∷ "PUT" ∷ "PATCH" ∷ "DELETE" ∷ [])))
        mapping_method
  _ ← fail_if (is_blank m.request.body_template) mapping_body
  fail_if (is_blank m.response.output_path) mapping_output

abbrev pub agent_types : List String
agent_types = "langgraph" ∷ "crewai" ∷ "autogen" ∷ "openai" ∷ "custom" ∷ []

-- The checks of one agent after those of its id.
unfoldable pub validate_agent : (String → Option Url) → AgentConfig → Result AgentSetting Unit
unfolding validate_endpoint validate_auth validate_mapping
validate_agent parse a = do
  _ ← validate_endpoint parse a.endpoint
  _ ← fail_if (not (is_one_of agent_types a.agent_type)) agent_type
  _ ← fail_if (ltb_ℤ a.retries (pos 0) || ltb_ℤ (pos 10) a.retries) retries
  _ ← fail_if (ltb_ℤ a.timeout_seconds (pos 0)) timeout
  _ ← validate_auth a.auth
  if str_eq a.agent_type "custom" then validate_mapping a.mapping else ok tt

-- The loop over the agents; `seen` are the ids of `agentIDs`, and the error names the agent.
unfoldable pub validate_agents :
    (String → Option Url)
    → List AgentConfig
    → List String
    → Result (String × AgentSetting) (List String)
unfolding validate_agent
validate_agents parse [] seen = ok seen
validate_agents parse (a ∷ agents) seen = do
  _ ← fail_if (is_empty a.id) (a.id, agent_id)
  _ ← fail_if (any (λ id. str_eq id a.id) seen) (a.id, duplicate_id)
  _ ← map_err (λ e. (a.id, e)) (validate_agent parse a)
  validate_agents parse agents (seen ++ (a.id ∷ []))
