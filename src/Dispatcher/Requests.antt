-- ===== src/Dispatcher/Requests.antt =====
-- How many requests the attempts at one agent send: the retry loops of pkg/dispatcher/dispatcher.go.
use progo_a2a.Prelude.{
  ℕ, zero, suc, ◌+◌, ◌≤◌, String, ◌≡◌, refl, ◌∙◌, Option, none, some, List, [], ◌∷◌, ◌++◌, arith,
  is_empty, leb, str_eq, if◌then◌else◌, Bool-cases, inl, inr, Result, ok, err,
}
use progo_a2a.Prelude.Int.{pos, leb_ℤ, pos_part}
use progo_a2a.A2a.{TaskRequest, TaskResponse}
use progo_a2a.Config.{AgentConfig}
use progo_a2a.Dispatcher.{
  CtxError, World, Adapter, Dispatcher, Event, sent, streamed, retried, fell_back, Run, Failed,
}
use progo_a2a.Dispatcher.Retry.{
  Attempt, answered, give_up, again, note, sleep, duration, attempt_timeout, fill_ids, after_send,
  after_translate, attempt, read_response, answer_of, attempts, invoke_agent_with_retries,
}

-- The requests to an agent in a trace.
abbrev pub sent_count : String → List Event → ℕ
sent_count id [] = 0
sent_count id (sent j ∷ t) = (if str_eq j id then 1 else 0) + sent_count id t
sent_count id (streamed j ∷ t) = sent_count id t
sent_count id (retried j ∷ t) = sent_count id t
sent_count id (fell_back i j ∷ t) = sent_count id t

pub sent_count-append :
    (id : String) (t u : List Event) → sent_count id (t ++ u) ≡ sent_count id t + sent_count id u
sent_count-append id [] u = omega arith
sent_count-append id (sent j ∷ t) u = omega (arith, sent_count-append id t u)
sent_count-append id (streamed j ∷ t) u = sent_count-append id t u
sent_count-append id (retried j ∷ t) u = sent_count-append id t u
sent_count-append id (fell_back i j ∷ t) u = sent_count-append id t u

-- From `s` to `t` at most `n` requests were sent, all to the agent, and no agent was marked.
pub record Sends {X : World} (n : ℕ) (agent_id : String) (s t : Run X) : Type 0 where
  pub visited : t.visited ≡ s.visited
  pub count :
      (id : String)
      → sent_count id t.trace ≤ sent_count id s.trace + (if str_eq agent_id id then n else 0)

module _ {X : World} where
  Sends-trans :
      (m n k : ℕ) (a : String) (s t u : Run X)
      → m + n ≤ k
      → Sends m a s t
      → Sends n a t u
      → Sends k a s u
  Sends-trans m n k a s t u le h i = record {
    visited = i.visited ∙ h.visited;
    count = λ id. ground (arith, h.count id, i.count id);
  }

  Sends-same :
      (n : ℕ) (a : String) (s t : Run X) → t.visited ≡ s.visited → t.trace ≡ s.trace → Sends n a s t
  Sends-same n a s t v e = record { visited = v; count = λ id. rw e (omega arith) }

  Sends-one :
      (a : String) (s : Run X) (w : X.State) → Sends 1 a s (note (sent a) (record s { world = w }))
  Sends-one a s w = record {
    visited = refl;
    count = λ id. ground (arith, sent_count-append id s.trace (sent a ∷ []));
  }

  module _ {A : Type 0} (agent : AgentConfig) (k : ℕ × X.Body → Run X → Attempt X A × Run X)
      (quiet : (r : ℕ × X.Body) (s : Run X) → Sends 0 agent.id s (k r s).1) where
    after_send-Sends :
        (s : Run X) (r : Result X.Failure (ℕ × X.Body)) → Sends 0 agent.id s (after_send k s r).1
    after_send-Sends s (err e) = Sends-same 0 agent.id s _ refl refl
    after_send-Sends s (ok (status, body)) = elim (Bool-cases (leb 500 status)) [
      | inl h ↦ rw h (Sends-same 0 agent.id s s refl refl)
      | inr h ↦ rw h (quiet (status, body) s)
    ]

    after_translate-Sends :
        (s : Run X) (r : Result X.Failure X.Request)
        → Sends 1 agent.id s (after_translate agent k s r).1
    after_translate-Sends s (err e) = Sends-same 1 agent.id s s refl refl
    after_translate-Sends s (ok req) =
        let (r, w) = X.send (attempt_timeout agent) req s.world in
        Sends-trans 1 0 1 agent.id s _ _ (omega arith) (Sends-one agent.id s w)
          (after_send-Sends (note (sent agent.id) (record s { world = w })) r)

    pub attempt-Sends :
        (ad : Adapter X) (task : TaskRequest) (s : Run X)
        → Sends 1 agent.id s (attempt ad task agent k s).1
    unfolding attempt
    attempt-Sends ad task s =
        let (r, w) = ad.translate_request (attempt_timeout agent) agent task s.world in
        Sends-trans 0 1 1 agent.id s (record s { world = w }) _ (omega arith)
          (Sends-same 0 agent.id s (record s { world = w }) refl refl)
          (after_translate-Sends (record s { world = w }) r)

  fill_ids-Sends :
      (task : TaskRequest) (agent : AgentConfig) (resp : TaskResponse) (s : Run X)
      → Sends 0 agent.id s (fill_ids task agent resp s).1
  unfolding fill_ids
  fill_ids-Sends task agent resp s = elim (Bool-cases (is_empty resp.task_id)) [
    | inl h ↦ elim (Bool-cases (is_empty task.id)) [
      | inl i ↦ rw (h, i) (Sends-same 0 agent.id s _ refl refl)
      | inr i ↦ rw (h, i) (Sends-same 0 agent.id s s refl refl)
    ]
    | inr h ↦ rw h (Sends-same 0 agent.id s s refl refl)
  ]

  read_response-Sends :
      (ad : Adapter X) (task : TaskRequest) (agent : AgentConfig) (r : ℕ × X.Body) (s : Run X)
      → Sends 0 agent.id s (read_response ad task agent r s).1
  unfolding read_response
  read_response-Sends ad task agent r s =
      let (a, w) = ad.translate_response (attempt_timeout agent) agent r s.world in
      Sends-trans 0 0 0 agent.id s (record s { world = w }) _ (omega arith)
        (Sends-same 0 agent.id s (record s { world = w }) refl refl)
        (answered_by (record s { world = w }) a)
    where
      answered_by :
          (s : Run X) (a : Result X.Failure TaskResponse)
          → Sends 0 agent.id s (answer_of task agent s a).1
      answered_by s (err e) = Sends-same 0 agent.id s s refl refl
      answered_by s (ok resp) = fill_ids-Sends task agent resp s

  sleep-Sends : (d : Dispatcher X) (a : String) (n : ℕ) (s : Run X) → Sends 0 a s (sleep d n s).1
  unfolding sleep
  sleep-Sends d a n s = elim (Bool-cases (leb_ℤ (duration d n s.world).0 (pos 0))) [
    | inl h ↦ rw h (Sends-same 0 a s _ refl refl)
    | inr h ↦ rw h (Sends-same 0 a s _ refl refl)
  ]

  retry-Sends :
      (d : Dispatcher X) (agent : AgentConfig) (s : Run X)
      → Sends 0 agent.id s (if d.metrics then note (retried agent.id) s else s)
  retry-Sends d agent s = elim (Bool-cases d.metrics) [
    | inl h ↦ rw h (record {
      visited = refl;
      count = λ id. ground (arith, sent_count-append id s.trace (retried agent.id ∷ []));
    })
    | inr h ↦ rw h (Sends-same 0 agent.id s s refl refl)
  ]

  pub attempts-Sends :
      {A : Type 0} (d : Dispatcher X) (agent : AgentConfig) (try : Run X → Attempt X A × Run X)
      → ((s : Run X) → Sends 1 agent.id s (try s).1)
      → (left n : ℕ) (s : Run X) → Sends (suc left) agent.id s (attempts d agent try left n s).1
  unfolding attempts
  attempts-Sends d agent try one zero n s = one s
  attempts-Sends {A} d agent try one (suc left) n s =
      Sends-trans 1 (suc left) (suc (suc left)) agent.id s (try s).1 _ (omega arith) (one s)
        (rest (attempts-Sends d agent try one left) (try s).0 (try s).1)
    where
      next : Run X → Run X
      next s = if d.metrics then note (retried agent.id) s else s

      Rest : Type 0
      Rest = (n : ℕ) (s : Run X) → Sends (suc left) agent.id s (attempts d agent try left n s).1

      after_sleep :
          Rest
          → (c : Option CtxError) (s : Run X)
          → Sends
              (suc left)
              agent.id
              s
              (elim c as (λ _. Result (Failed X) A × Run X) [
                | none ↦ attempts d agent try left (suc n) s
                | some c ↦ (err (Failed.stopped c), s)
              ]).1
      after_sleep ih none s = ih (suc n) s
      after_sleep ih (some c) s = Sends-same (suc left) agent.id s s refl refl

      rest :
          Rest
          → (r : Attempt X A) (s : Run X)
          → Sends
              (suc left)
              agent.id
              s
              (elim r as (λ _. Result (Failed X) A × Run X) [
                | answered a ↦ (ok a, s)
                | give_up e ↦ (err e, s)
                | again e ↦
                    let (c, s) = sleep d n (next s) in
                    elim c [
                      | none ↦ attempts d agent try left (suc n) s
                      | some c ↦ (err (Failed.stopped c), s)
                    ]
              ]).1
      rest ih (answered a) s = Sends-same (suc left) agent.id s s refl refl
      rest ih (give_up e) s = Sends-same (suc left) agent.id s s refl refl
      rest ih (again e) s =
          let t = next s in
          let u = (sleep d n t).1 in
          Sends-trans 0 (suc left) (suc left) agent.id s u _ (omega arith)
            (Sends-trans 0 0 0 agent.id s t u (omega arith) (retry-Sends d agent s)
              (sleep-Sends d agent.id n t))
            (after_sleep ih (sleep d n t).0 u)

  -- An agent gets at most one request more than it has retries, and no other agent gets one.
  pub invoke-Sends :
      (d : Dispatcher X) (task : TaskRequest) (agent : AgentConfig) (s : Run X)
      → Sends (suc (pos_part agent.retries)) agent.id s (invoke_agent_with_retries d task agent s).1
  unfolding invoke_agent_with_retries
  invoke-Sends d task agent s = by_adapter (d.reg agent.agent_type)
    where
      by_adapter :
          (r : Option (Adapter X))
          → Sends
              (suc (pos_part agent.retries))
              agent.id
              s
              (elim r as (λ _. Result (Failed X) TaskResponse × Run X) [
                | none ↦ (err (Failed.adapter_error agent.id agent.agent_type), s)
                | some ad ↦
                    attempts d agent
                      (attempt ad task agent (read_response ad task agent))
                      (pos_part agent.retries)
                      0
                      s
              ]).1
      by_adapter none = Sends-same (suc (pos_part agent.retries)) agent.id s s refl refl
      by_adapter (some ad) =
          attempts-Sends d agent (attempt ad task agent (read_response ad task agent))
            (attempt-Sends agent (read_response ad task agent) (read_response-Sends ad task agent)
              ad task)
            (pos_part agent.retries) 0 s
