-- ===== src/Server/Authentication.antt =====
-- What `AuthMiddleware` of pkg/server/middleware.go lets pass: the keys that requests carry, and the agents that they name.
use Prim.Native.String as Str
use progo_a2a.Prelude.{
  ℕ, zero, suc, String, ◌≡◌, refl, ap, sym, ◌∙◌, inl, inr, true, false, ◌&&◌, not, Option, some,
  List, [], ◌∷◌, ◌⊎◌, here, there, prepend, find, find-In, In, str_eq, str_eq_iff, is_empty,
  trim_space, equal_fold, Bool-cases, Option-cases, arith,
}
use progo_a2a.Config.{SecurityConfig, ApiKeyConfig}
use progo_a2a.Server.Access.{
  ClientCredentials, is_agent_allowed, allows, Request, is_public_endpoint, split_at,
  extract_api_key, named_by_path, extract_agent_id, passed, admit, auth_middleware,
}

-- The agent that a request names: that of its query if it has one, whatever its path names; else that of the path value
-- that the router found; else the fourth segment of a path /api/v1/invoke/, /api/v1/stream/ or /a2a/v1/agents/.
pub data Route : String → String → String → Type 0 where
  invoke : Route "api" "v1" "invoke"
  stream : Route "api" "v1" "stream"
  agents : Route "a2a" "v1" "agents"

pub data Names (r : Request) (id : String) : Type 0 where
  by_query : r.query_agent_id ≡ id → is_empty id ≡ false → Names r id
  by_path_value :
      is_empty r.query_agent_id ≡ true → r.path_agent_id ≡ id → is_empty id ≡ false → Names r id
  by_segment :
      {a b c : String}
      → is_empty r.query_agent_id ≡ true
      → is_empty r.path_agent_id ≡ true
      → Route a b c
      → (rest : List String) → r.segments ≡ a ∷ b ∷ c ∷ id ∷ rest
      → is_empty id ≡ false
      → Names r id

-- The key that a request carries: what follows "Bearer " in Authorization, in any case, or X-API-Key, less spaces.
pub data Carries (r : Request) (key : String) : Type 0 where
  bearer :
      (scheme rest : String)
      → r.authorization ≡ prepend scheme rest
      → equal_fold scheme "bearer " ≡ true
      → key ≡ trim_space rest
      → is_empty key ≡ false
      → Carries r key
  header : key ≡ trim_space r.x_api_key → Carries r key

split_at-append : (n : ℕ) (s : String) → let (a, b) = split_at n s in s ≡ prepend a b
unfolding split_at
split_at-append zero s = refl
split_at-append (suc n) Str.[] = refl
split_at-append (suc n) (Str.◌∷◌ c s) = ap (λ t. Str.◌∷◌ c t) (split_at-append n s)

extract_api_key-Carries : (r : Request) → Carries r (extract_api_key r)
unfolding extract_api_key
extract_api_key-Carries r =
    let (scheme, rest) = split_at 7 r.authorization in
    let key = trim_space rest in
    elim (Bool-cases (equal_fold scheme "bearer " && not (is_empty key))) [
      | inl e ↦ rw e (
          bearer scheme rest (split_at-append 7 r.authorization) (ground (arith, e)) refl
            (ground (arith, e)))
      | inr e ↦ rw e (header refl)
    ]

named_by_path-Route :
    (a b c id : String) (rest : List String)
    → Route a b c
    → named_by_path (a ∷ b ∷ c ∷ id ∷ rest) ≡ id
named_by_path-Route a b c id rest invoke = refl
named_by_path-Route a b c id rest stream = refl
named_by_path-Route a b c id rest agents = refl

Names-extract_agent_id :
    (r : Request) (id : String) → Names r id → (extract_agent_id r ≡ id) × (is_empty id ≡ false)
unfolding extract_agent_id
Names-extract_agent_id r id (by_query e full) = (ground (arith, e, full), full)
Names-extract_agent_id r id (by_path_value q e full) = (ground (arith, q, e, full), full)
Names-extract_agent_id r id (by_segment {a} {b} {c} q p route rest e full) =
    (rw (q, p, e) (named_by_path-Route a b c id rest route), full)

-- The credentials are those of a configured key that the request carries, and they allow every agent that it names.
pub record Authenticated (cfg : SecurityConfig) (r : Request) (creds : Option ClientCredentials)
    : Type 0 where
  pub key : ApiKeyConfig
  pub configured : In key cfg.api_keys
  pub carried : Carries r key.key
  pub granted :
      creds ≡ some (record { client_id = key.client_id; allowed_agents = key.allowed_agents })
  pub named_agent :
      (id : String) → Names r id → In "*" key.allowed_agents ⊎ In id key.allowed_agents

In-is_agent_allowed :
    (allowed : List String) (id : String)
    → is_agent_allowed allowed id ≡ true
    → In "*" allowed ⊎ In id allowed
unfolding is_agent_allowed
In-is_agent_allowed [] id h = absurd (cc h)
In-is_agent_allowed (a ∷ allowed) id h = elim (Bool-cases (str_eq a "*")) [
  | inl e ↦ inl (here (sym ((str_eq_iff a "*").0 e)))
  | inr e ↦ elim (Bool-cases (str_eq a id)) [
    | inl f ↦ inr (here (sym ((str_eq_iff a id).0 f)))
    | inr f ↦ elim (In-is_agent_allowed allowed id (ground (arith, h, e, f))) [
      | inl i ↦ inl (there i)
      | inr i ↦ inr (there i)
    ]
  ]
]

admitted :
    (cfg : SecurityConfig) (r : Request) (key : ApiKeyConfig) (creds : Option ClientCredentials)
    → In key cfg.api_keys
    → key.key ≡ extract_api_key r
    → admit r key ≡ passed creds
    → Authenticated cfg r creds
unfolding allows
admitted cfg r key creds i e h = record {
  key = key;
  configured = i;
  carried = rw e (extract_api_key-Carries r);
  granted = ground (arith, h);
  named_agent = λ id n.
      let (same, full) = Names-extract_agent_id r id n in
      In-is_agent_allowed key.allowed_agents id (ground (arith, h, same, full));
}

-- When security is enabled, a request to an endpoint that is not public is passed on only with the credentials of a configured key,
-- which the request carries, and only if these allow the agent that the request names, if any: that of its query if there
-- is one, and then no other, else that of its path.
pub auth_middleware-Authenticated :
    (cfg : SecurityConfig) (r : Request) (creds : Option ClientCredentials)
    → cfg.enabled ≡ true
    → is_public_endpoint r.path ≡ false
    → auth_middleware (some cfg) r ≡ passed creds
    → Authenticated cfg r creds
unfolding auth_middleware
auth_middleware-Authenticated cfg r creds on secret h =
    let key = extract_api_key r in
    elim (Bool-cases (is_empty key)) [
      | inl q ↦ absurd (ground (arith, h, on, secret, q))
      | inr q ↦ elim (Option-cases (find (λ k. str_eq k.key key) cfg.api_keys)) [
        | inl f ↦ absurd (ground (arith, h, on, secret, q, f))
        | inr (k, f) ↦
            let (i, p) = find-In (λ k. str_eq k.key key) cfg.api_keys k f in
            admitted cfg r k creds i (ground (arith, p, str_eq_iff k.key key))
              (sym (rw (auth_middleware, on, secret, q, f) refl) ∙ h)
      ]
    ]
