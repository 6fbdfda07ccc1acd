-- ===== src/Dispatcher/Outcomes.antt =====
-- `Dispatch` of pkg/dispatcher/dispatcher.go as a whole: it ends, the requests that it sends, what it reports.
use progo_a2a.Prelude.{
  ℕ, zero, suc, ◌≤◌, String, ◌≡◌, ◌⊎◌, refl, sym, ◌∙◌, subst, false, none, some, List, [], ◌∷◌,
  arith, Bool-cases, Option-cases, inl, inr, Result, ok, err, In,
}
use progo_a2a.A2a.{TaskRequest, TaskResponse, downstream_timeout, downstream_unavailable}
use progo_a2a.Config.{AgentConfig}
use progo_a2a.Dispatcher.{
  CtxError, World, Dispatcher, Run, Failed, stopped, refuse, is_visited, get_agent,
}
use progo_a2a.Dispatcher.Retry.{ctx_err, invoke_agent_with_retries}
use progo_a2a.Dispatcher.Fallback.{
  Answer, timed_out, mark, note_fallback, exhausted, cascade, dispatch_with_fallback,
}
use progo_a2a.Dispatcher.Requests.{invoke-Sends}
use progo_a2a.Dispatcher.Routing.{
  Step-ctx, mark-is_visited, marks, note_fallback-is_visited, Known, get_agent-found, Step,
  Step-trans, Step-fallback, Step-invoke, unvisited, unvisited-le, unvisited-mark,
}

-- The run has fuel enough, and its result and last state are as they should be.
abbrev pub Ended :
    {X : World} {A : Type 0} → (Result (Failed X) A → Run X → Type 0) → Answer X A → Type 0
Ended P none = ⊥
Ended P (some (r, s)) = P r s

module _ {X : World} where
  pub Ended-cases :
      {A : Type 0} (P : Result (Failed X) A → Run X → Type 0) (o : Answer X A)
      → Ended P o
      → (r : Result (Failed X) A) × (s : Run X) × (o ≡ some (r, s)) × P r s
  Ended-cases P none h = absurd h
  Ended-cases P (some (r, s)) h = (r, s, refl, h)

  -- An error of a dispatch to an agent: that of the context, or one of two that name the agent.
  abbrev pub Reported : {A : Type 0} → AgentConfig → Result (Failed X) A → Type 0
  Reported agent (ok resp) = Unit
  Reported agent (err e) =
      ((c : CtxError) × (e ≡ stopped c))
      ⊎ (e ≡ refuse downstream_timeout agent.id 504)
      ⊎ (e ≡ refuse downstream_unavailable agent.id 502)

  pub record Good {A : Type 0} (d : Dispatcher X) (agent : AgentConfig) (s : Run X)
      (r : Result (Failed X) A) (t : Run X) : Type 0 where
    pub step : Step d s t
    pub reported : Reported agent r

  Good-after :
      {A : Type 0} (d : Dispatcher X) (agent : AgentConfig) (s t : Run X) (o : Answer X A)
      → Step d s t
      → Ended (Good d agent t) o
      → Ended (Good d agent s) o
  Good-after d agent s t none st h = h
  Good-after d agent s t (some (r, u)) st h = record {
    step = Step-trans d s t u st h.step;
    reported = h.reported;
  }

  exhausted-Good :
      (A : Type 0) (d : Dispatcher X) (agent : AgentConfig) (e : Failed X) (s : Run X)
      → Ended (Good {A = A} d agent s) (exhausted agent e s)
  exhausted-Good A d agent e s = elim (Option-cases (ctx_err s).0) [
    | inl h ↦
        rw (Ended, h)
          (record {
            step = Step-ctx d s;
            reported = elim (Bool-cases (timed_out e)) [
              | inl q ↦ rw q (inr (inl refl))
              | inr q ↦ rw q (inr (inr refl))
            ];
          })
    | inr (c, h) ↦ rw (Ended, h) (record { step = Step-ctx d s; reported = inl (c, refl) })
  ]

  -- The cascade, when the calls that it makes are good while no more than `fuel` agents are not marked.
  module _ (d : Dispatcher X) (recur : AgentConfig → Run X → Answer X TaskResponse) (fuel : ℕ)
      (good : (agent : AgentConfig) (s : Run X)
        → Known d agent
        → In agent d.agents
        → is_visited agent.id s ≡ false
        → unvisited d.agents s ≤ fuel
        → Ended (Good d agent s) (recur agent s))
      (agent : AgentConfig) (e : Failed X) where
    fewer : (s t : Run X) → Step d s t → unvisited d.agents s ≤ fuel → unvisited d.agents t ≤ fuel
    fewer s t st u = omega (arith, u, unvisited-le d.agents s t st.grows)

    -- What the loop does with the result of a call.
    go_on : List String → Answer X TaskResponse → Answer X TaskResponse
    unfolding cascade
    go_on ids o = elim o [
      | none ↦ none
      | some (ok resp, s) ↦ some (ok resp, s)
      | some (err f, s) ↦ cascade d recur agent e ids s
    ]

    go_on-Good :
        (ids : List String) (s : Run X) (fallback : AgentConfig)
        → unvisited d.agents s ≤ fuel
        → ((t : Run X)
            → unvisited d.agents t ≤ fuel
            → Ended (Good d agent t) (cascade d recur agent e ids t))
        → (o : Answer X TaskResponse) → Ended (Good d fallback s) o
        → Ended (Good d agent s) (go_on ids o)
    unfolding go_on
    go_on-Good ids s fallback u ih none h = h
    go_on-Good ids s fallback u ih (some (ok resp, t)) h = record { step = h.step; reported = tt }
    go_on-Good ids s fallback u ih (some (err f, t)) h =
        Good-after d agent s t _ h.step (ih t (fewer s t h.step u))

    -- What the loop does with an id that is not marked.
    try_fallback :
        List String → String → Run X → Result (Failed X) AgentConfig → Answer X TaskResponse
    unfolding cascade go_on
    try_fallback ids id s r = elim r [
      | err f ↦ cascade d recur agent e ids s
      | ok fallback ↦ go_on ids (recur fallback (note_fallback d agent id s))
    ]

    try_fallback-Good :
        (ids : List String) (id : String) (s : Run X)
        → unvisited d.agents s ≤ fuel
        → is_visited id s ≡ false
        → ((t : Run X)
            → unvisited d.agents t ≤ fuel
            → Ended (Good d agent t) (cascade d recur agent e ids t))
        → (r : Result (Failed X) AgentConfig) → get_agent d id ≡ r
        → Ended (Good d agent s) (try_fallback ids id s r)
    unfolding try_fallback
    try_fallback-Good ids id s u v ih (err f) g = ih s u
    try_fallback-Good ids id s u v ih (ok fallback) g =
        let (i, (named, known)) = get_agent-found d id fallback g in
        let t = note_fallback d agent id s in
        let ut = fewer s t (Step-fallback d agent id s) u in
        let vt : is_visited fallback.id t ≡ false =
          note_fallback-is_visited d agent fallback.id id s
          ∙ subst (λ j. is_visited j s ≡ false) (sym named) v in
        Good-after d agent s t _ (Step-fallback d agent id s)
          (go_on-Good ids t fallback ut ih (recur fallback t) (good fallback t known i vt ut))

    cascade-Good :
        (ids : List String) (s : Run X)
        → unvisited d.agents s ≤ fuel
        → Ended (Good d agent s) (cascade d recur agent e ids s)
    unfolding cascade go_on try_fallback
    cascade-Good [] s u = exhausted-Good TaskResponse d agent e s
    cascade-Good (id ∷ ids) s u =
        let s1 = (ctx_err s).1 in
        let u1 = fewer s s1 (Step-ctx d s) u in
        elim (Option-cases (ctx_err s).0) [
          | inr (c, h) ↦ rw (Ended, h) (record { step = Step-ctx d s; reported = inl (c, refl) })
          | inl h ↦ elim (Bool-cases (is_visited id s1)) [
            | inl v ↦
                rw (Ended, h, v) (Good-after d agent s s1 _ (Step-ctx d s) (cascade-Good ids s1 u1))
            | inr v ↦
                rw (Ended, h, v)
                  (Good-after d agent s s1 _ (Step-ctx d s)
                    (try_fallback-Good ids id s1 u1 v (cascade-Good ids) (get_agent d id) refl))
          ]
        ]

  -- What a dispatch does with the result of the attempts.
  after_attempts :
      ℕ
      → Dispatcher X
      → TaskRequest
      → AgentConfig
      → Result (Failed X) TaskResponse
      → Run X
      → Answer X TaskResponse
  unfolding dispatch_with_fallback
  after_attempts fuel d task agent r s = elim r [
    | ok resp ↦ some (ok resp, s)
    | err e ↦
        let (c, s) = ctx_err s in
        elim c [
          | some c ↦ some (err (stopped c), s)
          | none ↦ cascade d (dispatch_with_fallback fuel d task) agent e agent.fallback_agent_ids s
        ]
  ]

  abbrev Fueled : ℕ → Dispatcher X → TaskRequest → Type 0
  Fueled fuel d task =
      (agent : AgentConfig) (s : Run X)
      → Known d agent
      → In agent d.agents
      → is_visited agent.id s ≡ false
      → unvisited d.agents s ≤ fuel
      → Ended (Good d agent s) (dispatch_with_fallback fuel d task agent s)

  after_attempts-Good :
      (fuel : ℕ) (d : Dispatcher X) (task : TaskRequest) (agent : AgentConfig)
      → Fueled fuel d task
      → (r : Result (Failed X) TaskResponse) (s t : Run X) → Step d s t
      → unvisited d.agents t ≤ fuel
      → Ended (Good d agent s) (after_attempts fuel d task agent r t)
  unfolding after_attempts
  after_attempts-Good fuel d task agent ih (ok resp) s t st u = record { step = st; reported = tt }
  after_attempts-Good fuel d task agent ih (err e) s t st u =
      let t1 = (ctx_err t).1 in
      let st1 = Step-trans d s t t1 st (Step-ctx d t) in
      elim (Option-cases (ctx_err t).0) [
        | inr (c, h) ↦ rw (Ended, h) (record { step = st1; reported = inl (c, refl) })
        | inl h ↦
            rw (Ended, h)
              (Good-after d agent s t1 _ st1 (
                cascade-Good d (dispatch_with_fallback fuel d task) fuel ih agent e
                  agent.fallback_agent_ids t1
                  (omega (arith, u, unvisited-le d.agents t t1 (Step-ctx d t).grows))))
      ]

  -- The fuel is enough when it is as much as there are agents not marked.
  pub dispatch_with_fallback-Good :
      (fuel : ℕ) (d : Dispatcher X) (task : TaskRequest) → Fueled fuel d task
  unfolding dispatch_with_fallback after_attempts
  dispatch_with_fallback-Good zero d task agent s known i v u =
      let g =
        unvisited-mark d.agents agent s (mark agent s) i v (marks agent s (mark agent s) refl)
          (λ id w. ground (arith, mark-is_visited agent s id, w)) in
      absurd (omega (arith, g, u))
  dispatch_with_fallback-Good (suc fuel) d task agent s known i v u =
      let out = invoke_agent_with_retries d task agent (mark agent s) in
      let sends = invoke-Sends d task agent (mark agent s) in
      let st = Step-invoke d agent s out.1 known v sends in
      let fewer =
        unvisited-mark d.agents agent s out.1 i v (marks agent s out.1 sends.visited) st.grows in
      rw (Ended, v)
        (after_attempts-Good fuel d task agent (dispatch_with_fallback-Good fuel d task) out.0 s
          out.1 st (omega (arith, fewer, u)))
