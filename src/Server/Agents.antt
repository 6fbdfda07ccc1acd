-- ===== src/Server/Agents.antt =====
-- pkg/server/a2a_handler.go: the cards of the agents, `ListAgents` and `GetAgent`, behind `AuthMiddleware`.
use progo_a2a.Prelude.{
  String, ◌≡◌, ◌↔◌, refl, sym, ap, subst, ◌∙◌, arith, inl, inr, Bool, true, false, Option, none,
  some, List, [], ◌∷◌, map, keep, find, In, here, there, In-keep, In-All, str_eq, is_empty,
  if◌then◌else◌, Bool-cases, Option-cases, Result, ok, err,
}
use progo_a2a.A2a.{A2aError, agent_not_found}
use progo_a2a.Config.{AgentConfig, SecurityConfig}
use progo_a2a.Dispatcher.{World, Dispatcher, Failed, a2a, get_agent}
use progo_a2a.Dispatcher.Routing.{Known, get_agent-found}
use progo_a2a.Dispatcher.Dispatching.{Distinct}
use progo_a2a.Server.Access.{
  ClientCredentials, Request, allows, extract_agent_id, auth_middleware, passed, refusal,
  extract_api_key,
}

-- `AgentCard`
pub record AgentCard : Type 0 where
  pub id : String
  pub name : String
  pub description : String
  pub capabilities : List String
  pub tags : List String

abbrev pub card_of : AgentConfig → AgentCard
card_of a = record {
  id = a.id;
  name = a.name;
  description = a.description;
  capabilities = a.capabilities;
  tags = a.tags;
}

-- Whether the credentials of a request, if any, pass an agent.
abbrev pub is_listed : Option ClientCredentials → AgentConfig → Bool
is_listed none a = true
is_listed (some creds) a = allows creds a.id

-- `ListAgents`; the first argument is the agents of the configuration, if there is one.
unfoldable pub list_agents : Option (List AgentConfig) → Option ClientCredentials → List AgentCard
unfolding allows
list_agents none creds = []
list_agents (some agents) creds = map card_of (keep (is_listed creds) agents)

module _ {X : World} where
  abbrev pub card_reply : String → Result (Failed X) AgentConfig → Result A2aError AgentCard
  card_reply id (ok agent) = ok (card_of agent)
  card_reply id (err (a2a e)) = err e
  card_reply id (err _) = err (refusal agent_not_found id 404)

  -- `GetAgent`, with the id that the pattern of its route takes from the path.
  unfoldable pub get_agent_card : Dispatcher X → String → Request → Result A2aError AgentCard
  unfolding get_agent extract_agent_id
  get_agent_card d path_id r =
      let id = if is_empty path_id then extract_agent_id r else path_id in
      card_reply id (get_agent d id)

-- What a request to the route of an agent carries, when its query names no agent.
pub record IsAgentRequest (id : String) (r : Request) : Type 0 where
  pub unqueried : r.query_agent_id ≡ ""
  pub unmatched : r.path_agent_id ≡ ""
  pub segments : r.segments ≡ "a2a" ∷ "v1" ∷ "agents" ∷ id ∷ []

extract_agent_id-IsAgentRequest :
    (id : String) (r : Request) → IsAgentRequest id r → extract_agent_id r ≡ id
unfolding extract_agent_id
extract_agent_id-IsAgentRequest id r q = rw (q.unqueried, q.unmatched, q.segments) refl

-- The middleware passes credentials on only if they allow the agent that the request names.
passed-allows :
    (cfg : Option SecurityConfig) (r : Request) (creds : ClientCredentials)
    → auth_middleware cfg r ≡ passed (some creds)
    → is_empty (extract_agent_id r) ≡ false
    → allows creds (extract_agent_id r) ≡ true
unfolding auth_middleware
passed-allows none r creds h named = absurd (ground (arith, h))
passed-allows (some cfg) r creds h named =
    elim (Option-cases (find (λ k. str_eq k.key (extract_api_key r)) cfg.api_keys)) [
      | inl f ↦ absurd (ground (arith, h, f))
      | inr (k, f) ↦ ground (arith, h, f, named)
    ]

In-map : {A B : Type 0} (f : A → B) (xs : List A) (a : A) → In a xs → In (f a) (map f xs)
In-map f [] a i = elim i [ ]
In-map f (x ∷ xs) a (here p) = here (ap f p)
In-map f (x ∷ xs) a (there i) = there (In-map f xs a i)

map-In :
    {A B : Type 0} (f : A → B) (xs : List A) (b : B)
    → In b (map f xs)
    → (a : A) × In a xs × (b ≡ f a)
map-In f [] b i = elim i [ ]
map-In f (x ∷ xs) b (here p) = (x, here refl, p)
map-In f (x ∷ xs) b (there i) = let (a, j, p) = map-In f xs b i in (a, there j, p)

keep-In :
    {A : Type 0} (p : A → Bool) (xs : List A) (a : A) → In a xs → p a ≡ true → In a (keep p xs)
keep-In p [] a i h = elim i [ ]
keep-In p (x ∷ xs) a (here e) h = let q : p x ≡ true = subst (λ y. p y ≡ true) e h in rw q (here e)
keep-In p (x ∷ xs) a (there i) h = elim (Bool-cases (p x)) [
  | inl q ↦ rw q (there (keep-In p xs a i h))
  | inr q ↦ rw q (keep-In p xs a i h)
]

module _ {X : World} where
  card_reply-ok :
      (id : String) (o : Result (Failed X) AgentConfig) (card : AgentCard)
      → card_reply id o ≡ ok card
      → (a : AgentConfig) × (o ≡ ok a) × (card ≡ card_of a)
  card_reply-ok id (ok a) card h = (a, refl, ground (arith, h))
  card_reply-ok id (err e) card h = absurd (not_ok e h)
    where
      not_ok : (e : Failed X) → card_reply {X = X} id (err e) ≡ ok card → ⊥
      not_ok e h = ground (arith, h)

  get_agent_card-named :
      (d : Dispatcher X) (id : String) (r : Request)
      → is_empty id ≡ false
      → get_agent_card d id r ≡ card_reply id (get_agent d id)
  unfolding get_agent_card
  get_agent_card-named d id r named = rw named refl

  -- Behind the middleware, when no two agents share an id and the query of the request names no agent, `GetAgent` and
  -- `ListAgents` agree: a client gets the card of the agent that the path names exactly when that card is in the
  -- list of the agents that the client may use.
  pub get_agent_card-list_agents :
      (cfg : Option SecurityConfig) (d : Dispatcher X) (id : String) (r : Request)
      (creds : Option ClientCredentials) (card : AgentCard)
      → Distinct d
      → is_empty id ≡ false
      → IsAgentRequest id r
      → auth_middleware cfg r ≡ passed creds
      → (get_agent_card d id r ≡ ok card)
        ↔ (In card (list_agents (some d.agents) creds) × (card.id ≡ id))
  unfolding list_agents
  get_agent_card-list_agents cfg d id r creds card u named q h = (
    λ got.
        let (a, found, same) =
          card_reply-ok id (get_agent d id) card (sym (get_agent_card-named d id r named) ∙ got) in
        let (i, (e, known)) = get_agent-found d id a found in
        (
          subst (λ c. In c (map card_of (keep (is_listed creds) d.agents))) (sym same)
              (In-map card_of _ a (keep-In (is_listed creds) d.agents a i (listed creds a e h))),
          ap (λ c. c.id) same ∙ e,
        ),
    λ (i, e).
        let (a, j, same) = map-In card_of (keep (is_listed creds) d.agents) card i in
        let known = In-All (Known d) d.agents a u (In-keep (is_listed creds) d.agents a j).0 in
        let found : get_agent d id ≡ ok a =
          subst (λ k. get_agent d k ≡ ok a) (sym (ap (λ c. c.id) same) ∙ e) known in
        get_agent_card-named d id r named ∙ rw found (ap ok (sym same)),
  )
    where
      listed :
          (creds : Option ClientCredentials) (a : AgentConfig)
          → a.id ≡ id
          → auth_middleware cfg r ≡ passed creds
          → is_listed creds a ≡ true
      listed none a e h = refl
      listed (some c) a e h =
          let same = extract_agent_id-IsAgentRequest id r q in
          rw e (
            subst (λ j. allows c j ≡ true) same
              (passed-allows cfg r c h (subst (λ j. is_empty j ≡ false) (sym same) named)))
