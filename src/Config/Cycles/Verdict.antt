-- ===== src/Config/Cycles/Verdict.antt =====
-- What the checks of the fallback lists in pkg/config/validator.go decide, in terms of the agents alone.
use progo_a2a.Prelude.{
  ◌≤◌, String, ◌≡◌, arith, List, [], ◌∷◌, inl, inr, Result, ok, err, ◌>>=◌, In, length,
}
use progo_a2a.Prelude.Dict.{get}
use progo_a2a.Config.{AgentConfig}
use progo_a2a.Config.Cycles.{
  Adjacency, neighbors, Visits, visiting, state_of, FallbackFault, unknown_fallback, own_fallback,
  cyclic_fallback, out_of_fuel, check_fallbacks, check_agents, validate_fallbacks,
}
use progo_a2a.Config.Cycles.Walks.{Walk, stay, go, Ends-uncycled, fresh}
use progo_a2a.Config.Cycles.Search.{Sound, Found, AllVisited, check_agents-Found}
use progo_a2a.Config.Cycles.References.{
  ids_of, DistinctIds, FallsBack, Chain, one, more, Filled, Checked, check_fallbacks-Checked,
}

-- The search starts without a state.
start-Sound : (adj : Adjacency) (ids : List String) → Sound adj ids []
unfolding state_of get
start-Sound adj ids n e = cc e

start-idle : (n : String) → ¬ (state_of n [] ≡ visiting)
unfolding state_of get
start-idle n e = cc e

fresh-start : (ids : List String) → fresh ids [] ≤ length ids
unfolding state_of get
fresh-start [] = omega arith
fresh-start (n ∷ ns) = omega (arith, fresh-start ns)

module _ (agents : List AgentConfig) (adj : Adjacency) where
  Chain-known :
      {ids : List String}
      → ((a b : String) → FallsBack agents a b → In b ids)
      → {a c : String} → Chain agents a c
      → In c ids
  Chain-known known (one f) = known _ _ f
  Chain-known known (more c f) = known _ _ f

  Walk-Chain :
      ((u v : String) → In v (neighbors adj u) → FallsBack agents u v)
      → {a b c : String} → Walk adj a b
      → In c (neighbors adj b)
      → Chain agents a c
  Walk-Chain listed {a} stay i = one (listed a _ i)
  Walk-Chain listed (go {b} w j) i = more (Walk-Chain listed w j) (listed _ _ i)

  Chain-Walk :
      ((u v : String) → FallsBack agents u v → In v (neighbors adj u))
      → {a c : String} → Chain agents a c
      → (b : String) × Walk adj a b × In c (neighbors adj b)
  Chain-Walk full {a} (one f) = (a, stay, full a _ f)
  Chain-Walk full (more {b} c f) = let (d, w, i) = Chain-Walk full c in (b, go w i, full b _ f)

-- What the section says of the agents: of a refusal that its reason is there, of a pass that none is.
abbrev pub Verdict : List AgentConfig → Result FallbackFault Unit → Type 0
Verdict agents (ok u) =
    ((a b : String) → FallsBack agents a b → In b (ids_of agents))
    × ((a : String) → ¬ Chain agents a a)
Verdict agents (err (unknown_fallback a b)) = FallsBack agents a b × ¬ In b (ids_of agents)
Verdict agents (err (own_fallback a)) = FallsBack agents a a
Verdict agents (err (cyclic_fallback path n)) = (a : String) × Chain agents a a
Verdict agents (err out_of_fuel) = ⊥

-- The checks of the fallback lists, for agents of distinct ids, pass exactly when every fallback is the id of
-- an agent and no chain of fallbacks, of any length, leads from an agent back to itself; each refusal
-- has its reason in the lists, and the search has enough fuel.
pub validate_fallbacks-Verdict :
    (agents : List AgentConfig)
    → DistinctIds agents
    → Verdict agents (validate_fallbacks (ids_of agents) agents)
unfolding validate_fallbacks
validate_fallbacks-Verdict agents d =
    by_lists (check_fallbacks (ids_of agents) agents [])
      (check_fallbacks-Checked (ids_of agents) agents [])
  where
    ids : List String
    ids = ids_of agents

    unlisted : (u v : String) → ¬ In v (neighbors [] u)
    unlisted u v i = elim i [ ]

    by_search :
        (adj : Adjacency)
        → ((u v : String) → In v (neighbors adj u) → FallsBack agents u v)
        → Filled ids agents [] adj
        → (r : Result FallbackFault Visits) → Found adj ids [] (AllVisited adj ids ids) r
        → Verdict agents (r >>= λ _. ok tt)
    by_search adj l f (ok st) (later, all) = (
      f.known,
      λ a c.
          let (b, w, i) = Chain-Walk agents adj (f.full d) c in
          Ends-uncycled adj (later.sound a (all a (Chain-known agents adj f.known c))) w i,
    )
    by_search adj l f (err (cyclic_fallback p n)) (a, b, w, i) = (a, Walk-Chain agents adj l w i)
    by_search adj l f (err (unknown_fallback a b)) h = absurd h
    by_search adj l f (err (own_fallback a)) h = absurd h
    by_search adj l f (err out_of_fuel) h = h

    by_lists :
        (r : Result FallbackFault Adjacency)
        → Checked ids agents [] r
        → Verdict agents (r >>= λ adj. check_agents (length ids) adj ids [] >>= λ _. ok tt)
    by_lists (ok adj) f =
        let l : (u v : String) → In v (neighbors adj u) → FallsBack agents u v =
          λ u v i. elim (f.listed u v i) [ inl j ↦ absurd (unlisted u v j) | inr q ↦ q ] in
        by_search adj l f (check_agents (length ids) adj ids []) (
          check_agents-Found adj ids (λ u v i. f.known u v (l u v i)) (length ids) ids [] (λ m i. i)
            (start-Sound adj ids) start-idle (fresh-start ids))
    by_lists (err (unknown_fallback a b)) h = h
    by_lists (err (own_fallback a)) h = h
    by_lists (err (cyclic_fallback p n)) h = absurd h
    by_lists (err out_of_fuel) h = h
