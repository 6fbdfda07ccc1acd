-- ===== src/Dispatcher/Validated.antt =====
-- `Dispatch` of pkg/dispatcher/dispatcher.go under a configuration that `Validate` of pkg/config/validator.go accepts.
use progo_a2a.Prelude.{
  ℕ, suc, ◌≤◌, String, ◌≡◌, refl, sym, ap, subst, true, false, List, [], ◌∷◌, arith, find, str_eq,
  str_eq_iff, Bool-cases, Option, some, inl, inr, Result, ok, err, In, here, there, In-any, All,
  In-All, All-of-In,
}
use progo_a2a.Prelude.Int.{pos_part}
use progo_a2a.A2a.{TaskRequest}
use progo_a2a.Config.{AgentConfig, Config}
use progo_a2a.Config.Agents.{Url}
use progo_a2a.Config.Agents.Accepted.{AcceptedAgent}
use progo_a2a.Config.Cycles.References.{has_id, DistinctIds}
use progo_a2a.Config.Validation.{validate}
use progo_a2a.Config.Accepted.{validate-Accepted}
use progo_a2a.Dispatcher.{World, Dispatcher, Failed, get_agent}
use progo_a2a.Dispatcher.Fallback.{dispatch}
use progo_a2a.Dispatcher.Requests.{sent_count}
use progo_a2a.Dispatcher.Routing.{Known, get_agent-found, budget}
use progo_a2a.Dispatcher.Outcomes.{Ended, Ended-cases}
use progo_a2a.Dispatcher.Dispatching.{Distinct, dispatch-requests}

find_by_id :
    (agents : List AgentConfig) (a : AgentConfig)
    → DistinctIds agents
    → In a agents
    → find (λ b. str_eq b.id a.id) agents ≡ some a
find_by_id [] a d i = elim i [ ]
find_by_id (x ∷ agents) a d (here e) =
    let q : str_eq x.id a.id ≡ true = (str_eq_iff x.id a.id).1 (ap (λ b. b.id) (sym e)) in
    ground (arith, q, e)
find_by_id (x ∷ agents) a d (there i) = elim (Bool-cases (str_eq x.id a.id)) [
  | inl q ↦
      let same = (str_eq_iff x.id a.id).0 q in
      let later : has_id a.id agents ≡ true =
        In-any (λ b. str_eq b.id a.id) agents a i ((str_eq_iff a.id a.id).1 refl) in
      absurd (cc (subst (λ k. has_id k agents ≡ false) same d.0, later))
  | inr q ↦ ground (arith, q, find_by_id agents a d.1 i)
]

module _ {X : World} where
  DistinctIds-Distinct : (d : Dispatcher X) → DistinctIds d.agents → Distinct d
  unfolding get_agent
  DistinctIds-Distinct d h =
      All-of-In (Known d) d.agents (λ a i. ground (arith, find_by_id d.agents a h i))

  budget_bounded : (d : Dispatcher X) (id : String) → All AcceptedAgent d.agents → budget d id ≤ 11
  budget_bounded d id h = by_agent (get_agent d id) refl
    where
      by_agent :
          (r : Result (Failed X) AgentConfig)
          → get_agent d id ≡ r
          → elim r as (λ _. ℕ) [ err e ↦ 0 | ok a ↦ suc (pos_part a.retries) ] ≤ 11
      by_agent (err e) q = omega arith
      by_agent (ok a) q =
          let (i, _) = get_agent-found d id a q in
          let accepted = In-All AcceptedAgent d.agents a h i in ground (arith, accepted.retried)

  -- Under a configuration that `Validate` accepts, a dispatch of any task in any world ends, whatever the fallback
  -- lists, and no agent gets more than 11 requests of it.
  pub validated-dispatch :
      (parse : String → Option Url) (cfg : Config) (d : Dispatcher X) (task : TaskRequest)
      (w : X.State)
      → validate parse cfg ≡ ok tt
      → d.agents ≡ cfg.agents
      → Ended (λ r t. (id : String) → sent_count id t.trace ≤ 11) (dispatch d (some task) w)
  validated-dispatch parse cfg d task w h e =
      let accepted = validate-Accepted parse cfg h in
      let distinct = DistinctIds-Distinct d (subst DistinctIds (sym e) accepted.distinct) in
      let each = subst (All AcceptedAgent) (sym e) accepted.each in
      let (r, t, o, g) =
        Ended-cases (λ r t. (id : String) → sent_count id t.trace ≤ budget d id) _
          (dispatch-requests d task w distinct) in
      subst (Ended (λ r t. (id : String) → sent_count id t.trace ≤ 11)) (sym o)
        (λ id. omega (arith, g id, budget_bounded d id each))
