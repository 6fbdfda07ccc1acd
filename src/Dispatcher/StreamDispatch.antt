-- ===== src/Dispatcher/StreamDispatch.antt =====
-- `DispatchStream` of pkg/dispatcher/dispatcher.go as a whole: it ends, the requests that it sends, and what the
-- caller's stream gets.
use progo_a2a.Prelude.{
  ℕ, zero, suc, ◌≤◌, String, ◌≡◌, ◌⊎◌, refl, true, false, none, some, arith, length, Bool-cases,
  Option-cases, inl, inr, Result, ok, err, In,
}
use progo_a2a.A2a.{TaskRequest}
use progo_a2a.Config.{AgentConfig}
use progo_a2a.Dispatcher.{World, Dispatcher, Run, Failed, stopped, is_visited, resolve_agent}
use progo_a2a.Dispatcher.Retry.{ctx_err, invoke_agent_stream_with_retries}
use progo_a2a.Dispatcher.Fallback.{
  Answer, mark, cascade_stream, dispatch_stream_with_fallback, new_run, dispatch_stream,
}
use progo_a2a.Dispatcher.Requests.{sent_count}
use progo_a2a.Dispatcher.Routing.{
  Step-ctx, mark-is_visited, marks, Known, budget, Step, Step-trans, Step-invoke, unvisited,
  unvisited-le, unvisited-mark, unvisited-length,
}
use progo_a2a.Dispatcher.Outcomes.{Ended, Ended-cases}
use progo_a2a.Dispatcher.Dispatching.{Distinct, resolve_agent-found}
use progo_a2a.Dispatcher.Streaming.{Silent, Streamed, Silent-world}
use progo_a2a.Dispatcher.StreamAttempts.{invoke_stream-Streamed, invoke_stream-Sends}
use progo_a2a.Dispatcher.Streams.{Clean, Clean-after, cascade_stream-Clean, unflagged-Silent}

module _ {X : World} where
  -- What a dispatch does with the result of the attempts.
  after_attempts :
      ℕ → Dispatcher X → TaskRequest → AgentConfig → Result (Failed X) Unit → Run X → Answer X Unit
  unfolding dispatch_stream_with_fallback
  after_attempts fuel d task agent r s = elim r [
    | ok done ↦ some (ok done, s)
    | err e ↦ elim s.has_emitted [
      | true ↦ some (err e, s)
      | false ↦
          let (c, s) = ctx_err s in
          elim c [
            | some c ↦ some (err (stopped c), s)
            | none ↦
                cascade_stream d (dispatch_stream_with_fallback fuel d task) agent e
                  agent.fallback_agent_ids s
          ]
    ]
  ]

  abbrev Fueled : ℕ → Dispatcher X → TaskRequest → Type 0
  Fueled fuel d task =
      (agent : AgentConfig) (s : Run X)
      → Known d agent
      → In agent d.agents
      → is_visited agent.id s ≡ false
      → unvisited d.agents s ≤ fuel
      → Silent s
      → Ended (Clean d s) (dispatch_stream_with_fallback fuel d task agent s)

  after_attempts-Clean :
      (fuel : ℕ) (d : Dispatcher X) (task : TaskRequest) (agent : AgentConfig)
      → Fueled fuel d task
      → (r : Result (Failed X) Unit) (s t : Run X) → Step d s t
      → unvisited d.agents t ≤ fuel
      → Silent t ⊎ Streamed t
      → Ended (Clean d s) (after_attempts fuel d task agent r t)
  unfolding after_attempts
  after_attempts-Clean fuel d task agent ih (ok done) s t st u q = record { step = st; passed = q }
  after_attempts-Clean fuel d task agent ih (err e) s t st u q = elim (Bool-cases t.has_emitted) [
    | inl f ↦ rw (Ended, f) (record { step = st; passed = q })
    | inr f ↦
        let silent = unflagged-Silent t q f in
        let t1 = (ctx_err t).1 in
        let st1 = Step-trans d s t t1 st (Step-ctx d t) in
        let silent1 = Silent-world t (X.ctx_err t.world).1 silent in
        elim (Option-cases (ctx_err t).0) [
          | inr (c, h) ↦ rw (Ended, f, h) (record { step = st1; passed = inl silent1 })
          | inl h ↦
              rw (Ended, f, h)
                (Clean-after d s t1 _ st1 (
                  cascade_stream-Clean d (dispatch_stream_with_fallback fuel d task) fuel ih agent e
                    agent.fallback_agent_ids t1
                    (omega (arith, u, unvisited-le d.agents t t1 (Step-ctx d t).grows)) silent1))
        ]
  ]

  dispatch_stream_with_fallback-Clean :
      (fuel : ℕ) (d : Dispatcher X) (task : TaskRequest) → Fueled fuel d task
  unfolding dispatch_stream_with_fallback after_attempts
  dispatch_stream_with_fallback-Clean zero d task agent s known i v u q =
      let g =
        unvisited-mark d.agents agent s (mark agent s) i v (marks agent s (mark agent s) refl)
          (λ id w. ground (arith, mark-is_visited agent s id, w)) in
      absurd (omega (arith, g, u))
  dispatch_stream_with_fallback-Clean (suc fuel) d task agent s known i v u q =
      let out = invoke_agent_stream_with_retries d task agent (mark agent s) in
      let sends = invoke_stream-Sends d task agent (mark agent s) in
      let st = Step-invoke d agent s out.1 known v sends in
      let less =
        unvisited-mark d.agents agent s out.1 i v (marks agent s out.1 sends.visited) st.grows in
      let passed =
        invoke_stream-Streamed d task agent (mark agent s)
          (record { trace = q.trace; flag = q.flag }) in
      rw (Ended, v)
        (after_attempts-Clean fuel d task agent (dispatch_stream_with_fallback-Clean fuel d task)
          out.0 s out.1 st (omega (arith, less, u)) passed)

  -- A streaming dispatch ends within its fuel, keeps to the requests that the retries of each agent allow, and
  -- passes on to the caller nothing, or the events of one agent: in that case nothing was passed on before, and no
  -- retry, fallback or request follows. No two agents of the configuration share an id.
  pub dispatch_stream-Streamed :
      (d : Dispatcher X) (task : TaskRequest) (w : X.State)
      → Distinct d
      → Ended
          (λ r t. ((id : String) → sent_count id t.trace ≤ budget d id) × (Silent t ⊎ Streamed t))
          (dispatch_stream d (some task) w)
  unfolding dispatch_stream is_visited
  dispatch_stream-Streamed d task w u = by_target (resolve_agent d (some task)) refl
    where
      start : Silent (new_run {X = X} w)
      start = record { trace = tt; flag = refl }

      by_target :
          (r : Result (Failed X) AgentConfig)
          → resolve_agent d (some task) ≡ r
          → Ended
              (λ r t.
                ((id : String) → sent_count id t.trace ≤ budget d id) × (Silent t ⊎ Streamed t))
              (dispatch_stream d (some task) w)
      by_target (err e) h = rw (Ended, h) (λ id. omega arith, inl start)
      by_target (ok agent) h =
          let (known, i) = resolve_agent-found d task agent u h in
          let (r, t, o, g) = Ended-cases (Clean d (new_run w)) _ (
            dispatch_stream_with_fallback-Clean (suc (length d.agents)) d task agent (new_run w)
              known i refl (omega (arith, unvisited-length d.agents (new_run w))) start) in
          rw (Ended, h, o) (λ id. ground (arith, g.step.count id), g.passed)
