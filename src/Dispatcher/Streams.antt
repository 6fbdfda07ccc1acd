-- ===== src/Dispatcher/Streams.antt =====
-- The cascade of `dispatchStreamWithFallback` of pkg/dispatcher/dispatcher.go: its requests, and what it passes on.
use progo_a2a.Prelude.{
  ℕ, ◌≤◌, String, ◌≡◌, ◌⊎◌, refl, sym, ◌∙◌, subst, true, false, none, some, List, [], ◌∷◌, arith,
  Bool-cases, Option-cases, inl, inr, Result, ok, err, In,
}
use progo_a2a.Config.{AgentConfig}
use progo_a2a.Dispatcher.{World, Dispatcher, Run, Failed, is_visited, get_agent, fell_back}
use progo_a2a.Dispatcher.Retry.{ctx_err}
use progo_a2a.Dispatcher.Fallback.{Answer, note_fallback, exhausted, cascade_stream}
use progo_a2a.Dispatcher.Routing.{
  Step-ctx, note_fallback-is_visited, Known, get_agent-found, Step, Step-trans, Step-fallback,
  unvisited, unvisited-le,
}
use progo_a2a.Dispatcher.Outcomes.{Ended}
use progo_a2a.Dispatcher.Streaming.{Silent, Streamed, Silent-world, Silent-note}

module _ {X : World} where
  pub record Clean (d : Dispatcher X) (s : Run X) (r : Result (Failed X) Unit) (t : Run X)
      : Type 0 where
    pub step : Step d s t
    pub passed : Silent t ⊎ Streamed t

  pub Clean-after :
      (d : Dispatcher X) (s t : Run X) (o : Answer X Unit)
      → Step d s t
      → Ended (Clean d t) o
      → Ended (Clean d s) o
  Clean-after d s t none st h = h
  Clean-after d s t (some (r, u)) st h = record {
    step = Step-trans d s t u st h.step;
    passed = h.passed;
  }

  exhausted-Clean :
      (d : Dispatcher X) (agent : AgentConfig) (e : Failed X) (s : Run X)
      → Silent s
      → Ended (Clean d s) (exhausted agent e s)
  exhausted-Clean d agent e s q = elim (Option-cases (ctx_err s).0) [
    | inl h ↦ rw (Ended, h) (record { step = Step-ctx d s; passed = inl (Silent-world s _ q) })
    | inr (c, h) ↦ rw (Ended, h) (record { step = Step-ctx d s; passed = inl (Silent-world s _ q) })
  ]

  note_fallback-Silent :
      (d : Dispatcher X) (agent : AgentConfig) (id : String) (s : Run X)
      → Silent s
      → Silent (note_fallback d agent id s)
  note_fallback-Silent d agent id s q = elim (Bool-cases d.metrics) [
    | inl h ↦ rw h (Silent-note (fell_back agent.id id) s tt q)
    | inr h ↦ rw h q
  ]

  pub unflagged-Silent : (s : Run X) → Silent s ⊎ Streamed s → s.has_emitted ≡ false → Silent s
  unflagged-Silent s (inl q) h = q
  unflagged-Silent s (inr q) h = absurd (ground (arith, q.flag, h))

  -- The cascade, when the calls that it makes are clean while no more than `fuel` agents are not marked.
  module _ (d : Dispatcher X) (recur : AgentConfig → Run X → Answer X Unit) (fuel : ℕ)
      (clean : (agent : AgentConfig) (s : Run X)
        → Known d agent
        → In agent d.agents
        → is_visited agent.id s ≡ false
        → unvisited d.agents s ≤ fuel
        → Silent s
        → Ended (Clean d s) (recur agent s))
      (agent : AgentConfig) (e : Failed X) where
    fewer : (s t : Run X) → Step d s t → unvisited d.agents s ≤ fuel → unvisited d.agents t ≤ fuel
    fewer s t st u = omega (arith, u, unvisited-le d.agents s t st.grows)

    abbrev Rest : List String → Type 0
    Rest ids =
        (s : Run X)
        → unvisited d.agents s ≤ fuel
        → Silent s
        → Ended (Clean d s) (cascade_stream d recur agent e ids s)

    -- What the loop does with the result of a call.
    go_on : List String → Answer X Unit → Answer X Unit
    unfolding cascade_stream
    go_on ids o = elim o [
      | none ↦ none
      | some (ok done, s) ↦ some (ok done, s)
      | some (err f, s) ↦ elim s.has_emitted [
        | true ↦ some (err f, s)
        | false ↦ cascade_stream d recur agent e ids s
      ]
    ]

    go_on-Clean :
        (ids : List String) (s : Run X)
        → unvisited d.agents s ≤ fuel
        → Rest ids
        → (o : Answer X Unit) → Ended (Clean d s) o
        → Ended (Clean d s) (go_on ids o)
    unfolding go_on
    go_on-Clean ids s u ih none h = h
    go_on-Clean ids s u ih (some (ok done, t)) h = h
    go_on-Clean ids s u ih (some (err f, t)) h = elim (Bool-cases t.has_emitted) [
      | inl q ↦ simp (Ended, q) h
      | inr q ↦
          simp q
            (Clean-after d s t _ h.step (ih t (fewer s t h.step u) (unflagged-Silent t h.passed q)))
    ]

    -- What the loop does with an id that is not marked.
    try_fallback : List String → String → Run X → Result (Failed X) AgentConfig → Answer X Unit
    unfolding cascade_stream go_on
    try_fallback ids id s r = elim r [
      | err f ↦ cascade_stream d recur agent e ids s
      | ok fallback ↦ go_on ids (recur fallback (note_fallback d agent id s))
    ]

    try_fallback-Clean :
        (ids : List String) (id : String) (s : Run X)
        → unvisited d.agents s ≤ fuel
        → Silent s
        → is_visited id s ≡ false
        → Rest ids
        → (r : Result (Failed X) AgentConfig) → get_agent d id ≡ r
        → Ended (Clean d s) (try_fallback ids id s r)
    unfolding try_fallback
    try_fallback-Clean ids id s u q v ih (err f) g = ih s u q
    try_fallback-Clean ids id s u q v ih (ok fallback) g =
        let (i, (named, known)) = get_agent-found d id fallback g in
        let t = note_fallback d agent id s in
        let ut = fewer s t (Step-fallback d agent id s) u in
        let vt : is_visited fallback.id t ≡ false =
          note_fallback-is_visited d agent fallback.id id s
          ∙ subst (λ j. is_visited j s ≡ false) (sym named) v in
        Clean-after d s t _ (Step-fallback d agent id s) (
          go_on-Clean ids t ut ih (recur fallback t)
            (clean fallback t known i vt ut (note_fallback-Silent d agent id s q)))

    pub cascade_stream-Clean : (ids : List String) → Rest ids
    unfolding cascade_stream go_on try_fallback
    cascade_stream-Clean [] s u q = exhausted-Clean d agent e s q
    cascade_stream-Clean (id ∷ ids) s u q =
        let s1 = (ctx_err s).1 in
        let st = Step-ctx d s in
        let u1 = fewer s s1 st u in
        let q1 = Silent-world s (X.ctx_err s.world).1 q in
        elim (Option-cases (ctx_err s).0) [
          | inr (c, h) ↦ rw (Ended, h) (record { step = st; passed = inl q1 })
          | inl h ↦ elim (Bool-cases (is_visited id s1)) [
            | inl v ↦
                rw (Ended, h, q.flag, v)
                  (Clean-after d s s1 _ st (cascade_stream-Clean ids s1 u1 q1))
            | inr v ↦
                rw (Ended, h, q.flag, v)
                  (Clean-after d s s1 _ st (
                    try_fallback-Clean ids id s1 u1 q1 v (cascade_stream-Clean ids) (get_agent d id)
                      refl))
          ]
        ]
