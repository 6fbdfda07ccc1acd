-- ===== src/Dispatcher/Dispatching.antt =====
-- The promises of `Dispatch` and `DispatchSingleAttempt` of pkg/dispatcher/dispatcher.go.
use progo_a2a.Prelude.{
  suc, ◌≤◌, String, ◌≡◌, refl, sym, subst, some, [], arith, length, find, str_eq, is_empty,
  if◌then◌else◌, Bool-cases, Option-cases, inl, inr, Result, ok, err, In, All, In-All, find-In,
  trim_space,
}
use progo_a2a.Prelude.Int.{pos}
use progo_a2a.A2a.{TaskRequest, TaskResponse, Code}
use progo_a2a.Config.{AgentConfig}
use progo_a2a.Dispatcher.{
  CtxError, World, Dispatcher, Run, Failed, stopped, refuse, is_visited, has_capability,
  find_agent_by_capability, resolve_agent,
}
use progo_a2a.Dispatcher.Retry.{invoke_agent_with_retries}
use progo_a2a.Dispatcher.Fallback.{new_run, dispatch, dispatch_single_attempt, after_single}
use progo_a2a.Dispatcher.Requests.{sent_count, invoke-Sends}
use progo_a2a.Dispatcher.Routing.{Known, get_agent-found, budget, unvisited-length}
use progo_a2a.Dispatcher.Outcomes.{Ended, Ended-cases, Reported, Good, dispatch_with_fallback-Good}

module _ {X : World} where
  -- No two agents share an id.
  abbrev pub Distinct : Dispatcher X → Type 0
  Distinct d = All (Known d) d.agents

  pub resolve_agent-found :
      (d : Dispatcher X) (task : TaskRequest) (agent : AgentConfig)
      → Distinct d
      → resolve_agent d (some task) ≡ ok agent
      → Known d agent × In agent d.agents
  unfolding resolve_agent find_agent_by_capability
  resolve_agent-found d task agent u h = elim (Bool-cases (is_empty task.agent_id)) [
    | inr e ↦
        let (i, (named, known)) = get_agent-found d task.agent_id agent (rw e at h) in (known, i)
    | inl e ↦ elim (Bool-cases (is_empty task.required_capability)) [
      | inl q ↦ absurd (ground (arith, h, e, q))
      | inr q ↦
          elim (Option-cases
            (find (has_capability (trim_space task.required_capability)) d.agents)) [
              | inl f ↦ absurd (ground (arith, h, e, q, f))
              | inr (a, f) ↦
                  let same : a ≡ agent = ground (arith, h, e, q, f) in
                  let (i, p) =
                    find-In (has_capability (trim_space task.required_capability)) d.agents a f in
                  let j = subst (λ b. In b d.agents) same i in
                  (In-All (Known d) d.agents agent u j, j)
            ]
    ]
  ]

  module _ (d : Dispatcher X) (task : TaskRequest) (w : X.State) (agent : AgentConfig)
      (u : Distinct d) (h : resolve_agent d (some task) ≡ ok agent) where
    dispatch-Good : Ended (Good d agent (new_run w)) (dispatch d (some task) w)
    unfolding dispatch is_visited
    dispatch-Good =
        let (known, i) = resolve_agent-found d task agent u h in
        rw (Ended, h)
          (dispatch_with_fallback-Good (suc (length d.agents)) d task agent (new_run w) known i refl
            (omega (arith, unvisited-length d.agents (new_run w))))

  -- What a dispatch comes to: a response, or an error with the code, the agent id and the status of one of the
  -- refusals, or the error of the context.
  pub data DispatchError (d : Dispatcher X) (task : TaskRequest) : Failed X → Type 0 where
    unresolved : {e : Failed X} → resolve_agent d (some task) ≡ err e → DispatchError d task e
    by_context : (c : CtxError) → DispatchError d task (stopped c)
    timeout_of :
        (agent : AgentConfig)
        → resolve_agent d (some task) ≡ ok agent
        → DispatchError d task (refuse Code.downstream_timeout agent.id 504)
    unavailable_of :
        (agent : AgentConfig)
        → resolve_agent d (some task) ≡ ok agent
        → DispatchError d task (refuse Code.downstream_unavailable agent.id 502)

  abbrev pub Reports : Dispatcher X → TaskRequest → Result (Failed X) TaskResponse → Type 0
  Reports d task (ok resp) = Unit
  Reports d task (err e) = DispatchError d task e

  reports :
      (d : Dispatcher X) (task : TaskRequest) (agent : AgentConfig)
      → resolve_agent d (some task) ≡ ok agent
      → (r : Result (Failed X) TaskResponse) → Reported agent r
      → Reports d task r
  reports d task agent h (ok resp) q = tt
  reports d task agent h (err e) (inl (c, q)) = subst (DispatchError d task) (sym q) (by_context c)
  reports d task agent h (err e) (inr (inl q)) =
      subst (DispatchError d task) (sym q) (timeout_of agent h)
  reports d task agent h (err e) (inr (inr q)) =
      subst (DispatchError d task) (sym q) (unavailable_of agent h)

  -- A dispatch, whatever its task, its world and the fallback lists, ends within its fuel, and an agent gets at most one request
  -- more than it has retries, an id without an agent none. No two agents of the configuration share an id.
  pub dispatch-requests :
      (d : Dispatcher X) (task : TaskRequest) (w : X.State)
      → Distinct d
      → Ended
          (λ r t. (id : String) → sent_count id t.trace ≤ budget d id)
          (dispatch d (some task) w)
  unfolding dispatch
  dispatch-requests d task w u = by_target (resolve_agent d (some task)) refl
    where
      by_target :
          (r : Result (Failed X) AgentConfig)
          → resolve_agent d (some task) ≡ r
          → Ended
              (λ r t. (id : String) → sent_count id t.trace ≤ budget d id)
              (dispatch d (some task) w)
      by_target (err e) h = rw (Ended, h) (λ id. omega arith)
      by_target (ok agent) h =
          let (r, t, o, g) =
            Ended-cases (Good d agent (new_run w)) _ (dispatch-Good d task w agent u h) in
          rw (Ended, o) (λ id. ground (arith, g.step.count id))

  -- A dispatch that fails reports the error of the resolution, that of the context, or a timeout (504) or an
  -- unavailability (502) of the agent that the task resolves to: never that of a fallback agent, of an adapter or of
  -- the transport, and never a fallback cycle. No two agents of the configuration share an id.
  pub dispatch-errors :
      (d : Dispatcher X) (task : TaskRequest) (w : X.State)
      → Distinct d
      → Ended (λ r t. Reports d task r) (dispatch d (some task) w)
  unfolding dispatch
  dispatch-errors d task w u = by_target (resolve_agent d (some task)) refl
    where
      by_target :
          (r : Result (Failed X) AgentConfig)
          → resolve_agent d (some task) ≡ r
          → Ended (λ r t. Reports d task r) (dispatch d (some task) w)
      by_target (err e) h = rw (Ended, h) (unresolved h)
      by_target (ok agent) h =
          let (r, t, o, g) =
            Ended-cases (Good d agent (new_run w)) _ (dispatch-Good d task w agent u h) in
          rw (Ended, o) (reports d task agent h r g.reported)

  after_single-trace :
      (agent : AgentConfig) (r : Result (Failed X) TaskResponse) (s : Run X)
      → (after_single agent r s).1.trace ≡ s.trace
  after_single-trace agent (ok resp) s = refl
  after_single-trace agent (err e) s = refl

  -- `DispatchSingleAttempt`, which the workers of the job ledger use, sends at most one request, to the agent that the
  -- task resolves to, whatever retries and fallbacks that agent has.
  pub single_attempt-requests :
      (d : Dispatcher X) (task : TaskRequest) (w : X.State) (agent : AgentConfig) (id : String)
      → resolve_agent d (some task) ≡ ok agent
      → sent_count id (dispatch_single_attempt d (some task) w).1.trace
        ≤ (if str_eq agent.id id then 1 else 0)
  unfolding dispatch_single_attempt
  single_attempt-requests d task w target id h =
      let agent = record target { retries = pos 0; fallback_agent_ids = [] } in
      let out = invoke_agent_with_retries d task agent (new_run w) in
      let runs : dispatch_single_attempt d (some task) w ≡ after_single agent out.0 out.1 =
        rw (dispatch_single_attempt, h) refl in
      rw (runs, after_single-trace agent out.0 out.1)
        (ground (arith, (invoke-Sends d task agent (new_run w)).count id))
