-- ===== src/Server/Examples/Cards.antt =====
-- `ListAgents` and `GetAgent` of pkg/server/a2a_handler.go for a client that may use one agent of two.
use progo_a2a.Prelude.{String, ◌≡◌, ◌↔◌, refl, some, [], ◌∷◌, In, ok, trim_space, equal_fold}
use progo_a2a.Dispatcher.{get_agent}
use progo_a2a.Dispatcher.Dispatching.{Distinct}
use progo_a2a.A2a.{forbidden}
use progo_a2a.Server.Access.{
  Request, allows, is_agent_allowed, auth_middleware, extract_api_key, extract_agent_id,
  is_public_endpoint, passed, refused, refusal,
}
use progo_a2a.Server.Agents.{card_of, list_agents, get_agent_card, get_agent_card-list_agents}
use progo_a2a.Server.Examples.{secured, request, client, two, agent}

two-Distinct : Distinct two
unfolding get_agent
two-Distinct = (refl, (refl, tt))

get_agent_card-list_agents_example :
    (get_agent_card two "writer" request ≡ ok (card_of (agent "writer"))) ↔ (
      In (card_of (agent "writer")) (list_agents (some two.agents) (some client))
      × ((card_of (agent "writer")).id ≡ "writer"))
get_agent_card-list_agents_example =
    get_agent_card-list_agents (some secured) two "writer" request (some client)
      (card_of (agent "writer")) two-Distinct refl
      (record { unqueried = refl; unmatched = refl; segments = refl })
      (unfold auth_middleware is_public_endpoint extract_api_key extract_agent_id allows
          is_agent_allowed trim_space equal_fold in
        refl)

one_listed : list_agents (some two.agents) (some client) ≡ card_of (agent "writer") ∷ []
unfolding list_agents is_agent_allowed
one_listed = refl

-- The path names an agent that the client may not use.
abbrev to_admin : String → Request
to_admin query = record {
  path = "/a2a/v1/agents/admin";
  authorization = "Bearer k1";
  x_api_key = "";
  query_agent_id = query;
  path_agent_id = "";
  segments = "a2a" ∷ "v1" ∷ "agents" ∷ "admin" ∷ [];
}

is_forbidden :
    auth_middleware (some secured) (to_admin "") ≡ refused (refusal forbidden "admin" 403)
unfolding auth_middleware is_public_endpoint extract_api_key extract_agent_id allows
    is_agent_allowed trim_space equal_fold
is_forbidden = refl

-- When the query names another agent, the middleware checks that one, and the card is served.
query_names_another :
    (auth_middleware (some secured) (to_admin "writer") ≡ passed (some client))
    × (get_agent_card two "admin" (to_admin "writer") ≡ ok (card_of (agent "admin")))
unfolding auth_middleware is_public_endpoint extract_api_key extract_agent_id allows
    is_agent_allowed trim_space equal_fold get_agent_card
query_names_another = (refl, refl)
