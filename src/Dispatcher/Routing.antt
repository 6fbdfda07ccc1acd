-- ===== src/Dispatcher/Routing.antt =====
-- Agents and marks: `GetAgent` and `FindAgentByCapability`, the map `visited`, and what a dispatch may change.
use progo_a2a.Prelude.{
  ℕ, suc, ◌+◌, ◌≤◌, ◌<◌, String, ◌≡◌, refl, sym, ap, ◌∙◌, subst, true, false, ◌&&◌, ◌||◌, not, List,
  [], ◌∷◌, arith, length, any, find, str_eq, str_eq_iff, if◌then◌else◌, Bool-cases, Option-cases,
  inl, inr, Result, ok, err, In, here, there, find-In,
}
use progo_a2a.Prelude.Int.{pos_part}
use progo_a2a.Config.{AgentConfig}
use progo_a2a.Dispatcher.{World, Dispatcher, fell_back, Run, Failed, is_visited, get_agent}
use progo_a2a.Dispatcher.Fallback.{mark, note_fallback}
use progo_a2a.Dispatcher.Retry.{ctx_err}
use progo_a2a.Dispatcher.Requests.{sent_count, sent_count-append, Sends}

module _ {X : World} where
  -- The agent is the one that its id leads to.
  abbrev pub Known : Dispatcher X → AgentConfig → Type 0
  Known d a = get_agent d a.id ≡ ok a

  pub get_agent-found :
      (d : Dispatcher X) (id : String) (a : AgentConfig)
      → get_agent d id ≡ ok a
      → In a d.agents × ((a.id ≡ id) × Known d a)
  unfolding get_agent
  get_agent-found d id a h = elim (Option-cases (find (λ b. str_eq b.id id) d.agents)) [
    | inl e ↦ absurd (ground (arith, h, e))
    | inr (b, e) ↦
        let same : b ≡ a = ground (arith, h, e) in
        let (i, q) = find-In (λ c. str_eq c.id id) d.agents b e in
        let named : b.id ≡ id = ground (arith, q, str_eq_iff b.id id) in
        (
          subst (λ c. In c d.agents) same i,
          (
            subst (λ c. c.id ≡ id) same named,
            subst (λ j. get_agent d j ≡ ok a) (sym (subst (λ c. c.id ≡ id) same named)) h,
          ),
        )
  ]

  -- The most requests that an id may get.
  abbrev pub budget : Dispatcher X → String → ℕ
  budget d id = elim (get_agent d id) [ err e ↦ 0 | ok a ↦ suc (pos_part a.retries) ]

  -- From `s` to `t` marks stay, and an id gets requests only as it is marked, within its budget.
  pub record Step (d : Dispatcher X) (s t : Run X) : Type 0 where
    pub grows : (id : String) → is_visited id s ≡ true → is_visited id t ≡ true
    pub count :
        (id : String)
        → sent_count id t.trace
          ≤ sent_count id s.trace
            + (if is_visited id t && not (is_visited id s) then budget d id else 0)

  pub Step-trans : (d : Dispatcher X) (s t u : Run X) → Step d s t → Step d t u → Step d s u
  Step-trans d s t u h k = record {
    grows = λ id v. k.grows id (h.grows id v);
    count = λ id. ground (arith, h.count id, k.count id, h.grows id, k.grows id);
  }

  pub Step-same :
      (d : Dispatcher X) (s t : Run X)
      → t.visited ≡ s.visited
      → ((id : String) → sent_count id t.trace ≡ sent_count id s.trace)
      → Step d s t
  unfolding is_visited
  Step-same d s t v e = record { grows = λ id h. rw v h; count = λ id. rw v (ground (arith, e id)) }

  pub Step-fallback :
      (d : Dispatcher X) (agent : AgentConfig) (id : String) (s : Run X)
      → Step d s (note_fallback d agent id s)
  unfolding is_visited
  Step-fallback d agent id s = record {
    grows = λ j v. elim (Bool-cases d.metrics) [ inl h ↦ rw h v | inr h ↦ rw h v ];
    count = λ j.
        let more = sent_count-append j s.trace (fell_back agent.id id ∷ []) in
        elim (Bool-cases d.metrics) [
          | inl h ↦ simp h (omega (arith, more))
          | inr h ↦ simp h (omega arith)
        ];
  }

  -- An agent is marked, then it gets its requests.
  pub Step-invoke :
      (d : Dispatcher X) (agent : AgentConfig) (s t : Run X)
      → Known d agent
      → is_visited agent.id s ≡ false
      → Sends (suc (pos_part agent.retries)) agent.id (mark agent s) t
      → Step d s t
  unfolding is_visited
  Step-invoke d agent s t known h sends = record {
    grows = λ id v. rw (sends.visited) (ground (arith, v));
    count = λ id. rw (sends.visited) (elim (Bool-cases (str_eq agent.id id)) [
      | inl e ↦
          let same : agent.id ≡ id = ground (arith, e, str_eq_iff agent.id id) in
          let b : budget d id ≡ suc (pos_part agent.retries) =
            ap (budget d) (sym same)
            ∙ ap
                (λ (r : Result (Failed X) AgentConfig). elim r as (λ _. ℕ) [
                  | err e ↦ 0
                  | ok a ↦ suc (pos_part a.retries)
                ])
                known in
          let fresh : any (λ j. str_eq j id) s.visited ≡ false =
            subst (λ k. any (λ j. str_eq j k) s.visited ≡ false) same h in
          ground (arith, sends.count id, e, b, fresh)
      | inr e ↦ ground (arith, sends.count id, e)
    ]);
  }

  -- The agents that are not marked.
  abbrev pub unvisited : List AgentConfig → Run X → ℕ
  unvisited [] s = 0
  unvisited (a ∷ rest) s = (if is_visited a.id s then 0 else 1) + unvisited rest s

  pub unvisited-le :
      (agents : List AgentConfig) (s t : Run X)
      → ((id : String) → is_visited id s ≡ true → is_visited id t ≡ true)
      → unvisited agents t ≤ unvisited agents s
  unvisited-le [] s t h = omega arith
  unvisited-le (a ∷ rest) s t h = ground (arith, h a.id, unvisited-le rest s t h)

  pub unvisited-mark :
      (agents : List AgentConfig) (a : AgentConfig) (s t : Run X)
      → In a agents
      → is_visited a.id s ≡ false
      → is_visited a.id t ≡ true
      → ((id : String) → is_visited id s ≡ true → is_visited id t ≡ true)
      → unvisited agents t < unvisited agents s
  unvisited-mark [] a s t i h k g = elim i [ ]
  unvisited-mark (b ∷ rest) a s t (here e) h k g =
      let h' = subst (λ c. is_visited c.id s ≡ false) e h in
      let k' = subst (λ c. is_visited c.id t ≡ true) e k in
      ground (arith, h', k', unvisited-le rest s t g)
  unvisited-mark (b ∷ rest) a s t (there i) h k g =
      ground (arith, g b.id, unvisited-mark rest a s t i h k g)

  pub unvisited-length :
      (agents : List AgentConfig) (s : Run X) → unvisited agents s ≤ length agents
  unvisited-length [] s = omega arith
  unvisited-length (a ∷ rest) s = ground (arith, unvisited-length rest s)

  pub Step-ctx : (d : Dispatcher X) (s : Run X) → Step d s (ctx_err s).1
  Step-ctx d s = Step-same d s (ctx_err s).1 refl (λ id. refl)

  pub note_fallback-is_visited :
      (d : Dispatcher X) (agent : AgentConfig) (j id : String) (s : Run X)
      → is_visited j (note_fallback d agent id s) ≡ is_visited j s
  unfolding is_visited
  note_fallback-is_visited d agent j id s = elim (Bool-cases d.metrics) [
    | inl h ↦ rw h refl
    | inr h ↦ rw h refl
  ]

  pub mark-is_visited :
      (agent : AgentConfig) (s : Run X) (id : String)
      → is_visited id (mark agent s) ≡ str_eq agent.id id || is_visited id s
  unfolding is_visited
  mark-is_visited agent s id = refl

  pub marks :
      (agent : AgentConfig) (s t : Run X)
      → t.visited ≡ agent.id ∷ s.visited
      → is_visited agent.id t ≡ true
  unfolding is_visited
  marks agent s t h = rw h (ground (arith, str_eq_iff agent.id agent.id))
