-- ===== src/Config/Cycles.antt =====
-- pkg/config/validator.go, the fallback references of `Validate` and the search for cycles `checkCycle`.
pub mod Walks
pub mod Search
pub mod References
pub mod Verdict
use progo_a2a.Prelude.{
  ℕ, zero, suc, String, Bool, not, Option, none, some, List, [], ◌∷◌, ◌++◌, str_eq, any, length,
  if◌then◌else◌, Result, ok, err, ◌>>=◌, fail_if,
}
use progo_a2a.Prelude.Dict.{Dict, get, put}
use progo_a2a.Config.{AgentConfig}

-- The values 0, 1 and 2 of `visitState`; a missing key reads as 0.
pub data Visit : Type 0 where
  unvisited visiting visited : Visit

abbrev pub Visits : Type 0
Visits = Dict Visit

-- `visitState[node]`
unfoldable pub state_of : String → Visits → Visit
unfolding get
state_of node st = elim (get node st) [ none ↦ unvisited | some v ↦ v ]

pub data FallbackFault : Type 0 where
  -- `agent %s references non-existent fallback agent %s`, `agent %s cannot specify itself as fallback`
  unknown_fallback : String → String → FallbackFault
  own_fallback : String → FallbackFault
  -- `cyclic fallback detected: %v -> %s`
  cyclic_fallback : List String → String → FallbackFault
  -- not an error of the code: the fuel of the search is used up
  out_of_fuel : FallbackFault

-- The ids of `agentIDs`.
abbrev pub is_known : List String → String → Bool
is_known ids id = any (λ other. str_eq other id) ids

-- `adj`, the fallback lists by the agents' ids, and `adj[node]`.
abbrev pub Adjacency : Type 0
Adjacency = Dict (List String)

unfoldable pub neighbors : Adjacency → String → List String
unfolding get
neighbors adj node = elim (get node adj) [ none ↦ [] | some ids ↦ ids ]

-- The inner loop over one agent's fallback list.
unfoldable pub check_references : List String → String → List String → Result FallbackFault Unit
check_references ids id [] = ok tt
check_references ids id (fb ∷ fbs) = do
  _ ← fail_if (not (is_known ids fb)) (unknown_fallback id fb)
  _ ← fail_if (str_eq fb id) (own_fallback id)
  check_references ids id fbs

-- The loop over the agents, which fills `adj`.
unfoldable pub check_fallbacks :
    List String → List AgentConfig → Adjacency → Result FallbackFault Adjacency
unfolding check_references put
check_fallbacks ids [] adj = ok adj
check_fallbacks ids (a ∷ agents) adj = do
  _ ← check_references ids a.id a.fallback_agent_ids
  check_fallbacks ids agents (put a.id a.fallback_agent_ids adj)

-- The loop of `checkCycle` over the neighbors of the last node of `path`; `visit` is the recursive call.
unfoldable pub check_neighbors :
    (String → Visits → Result FallbackFault Visits)
    → List String
    → List String
    → Visits
    → Result FallbackFault Visits
check_neighbors visit path [] st = ok st
check_neighbors visit path (n ∷ ns) st = elim (state_of n st) [
  | visiting ↦ err (cyclic_fallback path n)
  | unvisited ↦ visit n st >>= check_neighbors visit path ns
  | visited ↦ check_neighbors visit path ns st
]

-- `checkCycle`, with fuel for its depth.
unfoldable pub check_cycle :
    ℕ → Adjacency → List String → String → Visits → Result FallbackFault Visits
unfolding check_neighbors neighbors put
check_cycle zero adj path node st = err out_of_fuel
check_cycle (suc fuel) adj path node st =
    let path' = path ++ (node ∷ []) in
    do
      st' ←
          check_neighbors (check_cycle fuel adj path') path' (neighbors adj node)
            (put node visiting st)
      ok (put node visited st')

-- The loop that starts the search at each agent.
unfoldable pub check_agents : ℕ → Adjacency → List String → Visits → Result FallbackFault Visits
unfolding check_cycle
check_agents fuel adj [] st = ok st
check_agents fuel adj (id ∷ ids) st = elim (state_of id st) [
  | unvisited ↦ check_cycle fuel adj [] id st >>= check_agents fuel adj ids
  | visiting ↦ check_agents fuel adj ids st
  | visited ↦ check_agents fuel adj ids st
]

-- The section as a whole, for agents whose ids are `ids`.
unfoldable pub validate_fallbacks : List String → List AgentConfig → Result FallbackFault Unit
unfolding check_fallbacks check_agents
validate_fallbacks ids agents = do
  adj ← check_fallbacks ids agents []
  _ ← check_agents (length ids) adj ids []
  ok tt
