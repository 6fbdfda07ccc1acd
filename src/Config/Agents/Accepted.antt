-- ===== src/Config/Agents/Accepted.antt =====
-- What the checks of the agents in `Validate` of pkg/config/validator.go accept.
use progo_a2a.Prelude.{
  String, ◌≡◌, refl, arith, Bool, true, false, not, ◌||◌, Option, none, List, [], ◌∷◌, ◌++◌, str_eq,
  str_eq_iff, any, is_empty, ok, map_err, passed, then-ok, map_err-ok, All, if◌then◌else◌, ◌∙◌,
}
use progo_a2a.Prelude.Int.{pos, ltb_ℤ, ◌≤ℤ◌}
use progo_a2a.Config.{AgentConfig}
use mathlib.Core.List.{append-nil, append_assoc}
use progo_a2a.Config.Agents.{
  agent_type, retries, timeout, agent_id, duplicate_id, validate_endpoint, validate_auth, is_one_of,
  agent_types, Url, validate_agent, validate_agents, validate_mapping,
}
use progo_a2a.Config.Cycles.References.{ids_of, has_id, DistinctIds}

-- An agent that is accepted.
pub record AcceptedAgent (a : AgentConfig) : Type 0 where
  pub named : is_empty a.id ≡ false
  pub retried : a.retries ≤ℤ pos 10
  pub attempted : pos 0 ≤ℤ a.retries
  pub mapped : str_eq a.agent_type "custom" ≡ true → ¬ (a.mapping ≡ none)

validate_agent-Accepted :
    (parse : String → Option Url) (a : AgentConfig) (u : Unit)
    → is_empty a.id ≡ false
    → validate_agent parse a ≡ ok u
    → AcceptedAgent a
unfolding validate_agent validate_mapping
validate_agent-Accepted parse a u n h =
    let (_, h1) = then-ok (validate_endpoint parse a.endpoint) _ h in
    let (_, h2) = passed (not (is_one_of agent_types a.agent_type)) agent_type _ h1 in
    let (range, h3) = passed (ltb_ℤ a.retries (pos 0) || ltb_ℤ (pos 10) a.retries) retries _ h2 in
    let (_, h4) = passed (ltb_ℤ a.timeout_seconds (pos 0)) timeout _ h3 in
    let (_, h5) =
      then-ok (validate_auth a.auth)
        (if str_eq a.agent_type "custom" then validate_mapping a.mapping else ok tt) h4 in
    record {
      named = n;
      retried = ground (arith, range);
      attempted = ground (arith, range);
      mapped = λ c m. absurd (ground (arith, h5, c, m));
    }

-- Accepted agents have ids that are not among the ones seen before, and not among the others.
pub record AcceptedAgents (agents : List AgentConfig) (seen ids : List String) : Type 0 where
  pub collected : ids ≡ seen ++ ids_of agents
  pub unseen : All (λ a. any (λ id. str_eq id a.id) seen ≡ false) agents
  pub distinct : DistinctIds agents
  pub each : All AcceptedAgent agents

any-append :
    {A : Type 0} (p : A → Bool) (xs ys : List A) → any p (xs ++ ys) ≡ (any p xs || any p ys)
any-append p [] ys = refl
any-append p (x ∷ xs) ys = ground (arith, any-append p xs ys)

AcceptedAgents-cons :
    (a : AgentConfig) (agents : List AgentConfig) (seen ids : List String)
    → any (λ id. str_eq id a.id) seen ≡ false
    → AcceptedAgent a
    → AcceptedAgents agents (seen ++ (a.id ∷ [])) ids
    → AcceptedAgents (a ∷ agents) seen ids
AcceptedAgents-cons a agents seen ids u h k = record {
  collected = k.collected ∙ append_assoc seen (a.id ∷ []) (ids_of agents);
  unseen = (u, (apart agents k.unseen).0);
  distinct = ((apart agents k.unseen).1, k.distinct);
  each = (h, k.each);
}
  where
    apart :
        (bs : List AgentConfig)
        → All (λ b. any (λ id. str_eq id b.id) (seen ++ (a.id ∷ [])) ≡ false) bs
        → All (λ b. any (λ id. str_eq id b.id) seen ≡ false) bs × (has_id a.id bs ≡ false)
    apart [] h = (tt, refl)
    apart (b ∷ bs) h =
        let (s, t) = apart bs h.1 in
        let e = any-append (λ id. str_eq id b.id) seen (a.id ∷ []) in
        (
          (ground (arith, e, h.0), s),
          ground (arith, e, h.0, t, str_eq_iff a.id b.id, str_eq_iff b.id a.id),
        )

pub validate_agents-Accepted :
    (parse : String → Option Url) (agents : List AgentConfig) (seen : List String)
    {ids : List String}
    → validate_agents parse agents seen ≡ ok ids
    → AcceptedAgents agents seen ids
unfolding validate_agents
validate_agents-Accepted parse [] seen h = record {
  collected = cc (append-nil seen, h);
  unseen = tt;
  distinct = tt;
  each = tt;
}
validate_agents-Accepted parse (a ∷ agents) seen h =
    let (n, h1) = passed (is_empty a.id) (a.id, agent_id) _ h in
    let (u, h2) = passed (any (λ id. str_eq id a.id) seen) (a.id, duplicate_id) _ h1 in
    let (v, h3) = then-ok (map_err (λ e. (a.id, e)) (validate_agent parse a)) _ h2 in
    AcceptedAgents-cons a agents seen _ u
      (validate_agent-Accepted parse a tt n (map_err-ok _ (validate_agent parse a) v))
      (validate_agents-Accepted parse agents (seen ++ (a.id ∷ [])) h3)
