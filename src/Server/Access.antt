-- ===== src/Server/Access.antt =====
-- pkg/server/middleware.go: the keys of clients and the agents that they may use.
use Prim.Native.String as Str
use Prim.Native.Char.{code}
use progo_a2a.Prelude.{
  ℕ, zero, suc, String, Bool, ◌&&◌, ◌||◌, not, Option, none, some, List, ◌∷◌, any, find, str_eq,
  is_empty, trim_space, equal_fold, if◌then◌else◌,
}
use progo_a2a.A2a.{Code, A2aError, unauthorized, forbidden}
use progo_a2a.Config.{SecurityConfig, ApiKeyConfig}

pub record ClientCredentials : Type 0 where
  pub client_id : String
  pub allowed_agents : List String

-- `IsAgentAllowed`.
unfoldable pub is_agent_allowed : List String → String → Bool
is_agent_allowed allowed agent_id = any (λ a. str_eq a "*" || str_eq a agent_id) allowed

-- `ClientCredentials.Allows`.
unfoldable pub allows : ClientCredentials → String → Bool
unfolding is_agent_allowed
allows c agent_id = is_agent_allowed c.allowed_agents agent_id

-- What the middleware reads of a request: its path, the two headers, the query and path values `agent_id`, and the
-- segments of its cleaned path.
pub record Request : Type 0 where
  pub path : String
  pub authorization : String
  pub x_api_key : String
  pub query_agent_id : String
  pub path_agent_id : String
  pub segments : List String

unfoldable pub is_public_endpoint : String → Bool
is_public_endpoint p = str_eq p "/healthz" || str_eq p "/readyz" || str_eq p "/metrics"

-- What follows the first `n` characters, and these.
unfoldable pub split_at : ℕ → String → String × String
split_at zero s = (Str.[], s)
split_at (suc n) Str.[] = (Str.[], Str.[])
split_at (suc n) (Str.◌∷◌ c s) = let (a, b) = split_at n s in (Str.◌∷◌ c a, b)

-- `extractAPIKey`.
unfoldable pub extract_api_key : Request → String
unfolding split_at
extract_api_key r =
    let (scheme, rest) = split_at 7 r.authorization in
    let key = trim_space rest in
    if equal_fold scheme "bearer " && not (is_empty key) then key else trim_space r.x_api_key

abbrev pub named_by_path : List String → String
named_by_path (a ∷ b ∷ c ∷ d ∷ rest) =
    if str_eq a "api" && str_eq b "v1" && (str_eq c "invoke" || str_eq c "stream")
    then d
    else if str_eq a "a2a" && str_eq b "v1" && str_eq c "agents"
    then d
    else ""
named_by_path _ = ""

-- `extractAgentID`.
unfoldable pub extract_agent_id : Request → String
extract_agent_id r =
    if not (is_empty r.query_agent_id)
    then r.query_agent_id
    else if not (is_empty r.path_agent_id)
    then r.path_agent_id
    else named_by_path r.segments

-- What the middleware does: it refuses, or passes the request on with credentials, or with none.
pub data Passage : Type 0 where
  refused : A2aError → Passage
  passed : Option ClientCredentials → Passage

abbrev pub refusal : Code → String → ℕ → A2aError
refusal code agent_id status = record { code = code; agent_id = agent_id; status = status }

abbrev pub admit : Request → ApiKeyConfig → Passage
admit r key =
    let creds : ClientCredentials = record {
      client_id = key.client_id;
      allowed_agents = key.allowed_agents;
    } in
    let agent_id = extract_agent_id r in
    if not (is_empty agent_id) && not (allows creds agent_id)
    then refused (refusal forbidden agent_id 403)
    else passed (some creds)

abbrev admit_key : Request → Option ApiKeyConfig → Passage
admit_key r none = refused (refusal unauthorized "" 401)
admit_key r (some key) = admit r key

-- `AuthMiddleware`; `none` is a nil configuration.
unfoldable pub auth_middleware : Option SecurityConfig → Request → Passage
unfolding is_public_endpoint extract_api_key extract_agent_id allows
auth_middleware none r = passed none
auth_middleware (some cfg) r =
    if not cfg.enabled || is_public_endpoint r.path
    then passed none
    else if is_empty (extract_api_key r)
    then refused (refusal unauthorized "" 401)
    else admit_key r (find (λ k. str_eq k.key (extract_api_key r)) cfg.api_keys)
