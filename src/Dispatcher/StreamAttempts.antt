-- ===== src/Dispatcher/StreamAttempts.antt =====
-- The retries of a stream at one agent: `invokeAgentStreamWithRetries` of pkg/dispatcher/dispatcher.go.
use progo_a2a.Prelude.{
  ℕ, zero, suc, ◌⊎◌, refl, true, Option, none, some, [], ◌∷◌, arith, if◌then◌else◌, Bool-cases,
  Option-cases, inl, inr, Result, ok, err,
}
use progo_a2a.Prelude.Int.{pos, leb_ℤ, pos_part}
use progo_a2a.A2a.{TaskRequest}
use progo_a2a.Config.{AgentConfig}
use progo_a2a.Dispatcher.{CtxError, World, Adapter, Dispatcher, streamed, retried, Run, Failed}
use progo_a2a.Dispatcher.Retry.{
  Attempt, answered, give_up, again, note, sleep, duration, attempt_timeout, read_stream, attempts,
  invoke_agent_stream_with_retries,
}
use progo_a2a.Dispatcher.Requests.{Sends, attempt-Sends, attempts-Sends, sent_count-append}
use progo_a2a.Dispatcher.Streaming.{
  Silent, Streamed, Follows, Silent-note, Silent-world, attempt-Follows, read_stream-Follows,
}

module _ {X : World} where
  sleep-Silent : (d : Dispatcher X) (n : ℕ) (s : Run X) → Silent s → Silent (sleep d n s).1
  unfolding sleep
  sleep-Silent d n s h = elim (Bool-cases (leb_ℤ (duration d n s.world).0 (pos 0))) [
    | inl q ↦ rw q (Silent-world s _ h)
    | inr q ↦ rw q (Silent-world s _ h)
  ]

  retry-Silent :
      (d : Dispatcher X) (agent : AgentConfig) (s : Run X)
      → Silent s
      → Silent (if d.metrics then note (retried agent.id) s else s)
  retry-Silent d agent s h = elim (Bool-cases d.metrics) [
    | inl q ↦ rw q (Silent-note (retried agent.id) s tt h)
    | inr q ↦ rw q h
  ]

  last-Silent : {A : Type 0} (r : Attempt X A) (s : Run X) → Follows r s → Silent s ⊎ Streamed s
  last-Silent (answered a) s h = h
  last-Silent (give_up e) s h = h
  last-Silent (again e) s h = inl h

  attempts-Follows :
      {A : Type 0} (d : Dispatcher X) (agent : AgentConfig) (try : Run X → Attempt X A × Run X)
      → ((s : Run X) → Silent s → Follows (try s).0 (try s).1)
      → (left n : ℕ) (s : Run X) → Silent s
      → Silent (attempts d agent try left n s).1 ⊎ Streamed (attempts d agent try left n s).1
  unfolding attempts
  attempts-Follows d agent try one zero n s h = last-Silent (try s).0 (try s).1 (one s h)
  attempts-Follows {A} d agent try one (suc left) n s h =
      rest (attempts-Follows d agent try one left) (try s).0 (try s).1 (one s h)
    where
      next : Run X → Run X
      next s = if d.metrics then note (retried agent.id) s else s

      Rest : Type 0
      Rest =
          (n : ℕ) (s : Run X)
          → Silent s
          → Silent (attempts d agent try left n s).1 ⊎ Streamed (attempts d agent try left n s).1

      sleeping : Option CtxError → Run X → Result (Failed X) A × Run X
      sleeping c s = elim c [
        | none ↦ attempts d agent try left (suc n) s
        | some c ↦ (err (Failed.stopped c), s)
      ]

      after_sleep :
          Rest
          → (c : Option CtxError) (s : Run X) → Silent s
          → Silent (sleeping c s).1 ⊎ Streamed (sleeping c s).1
      after_sleep ih none s h = ih (suc n) s h
      after_sleep ih (some c) s h = inl h

      trying : Attempt X A → Run X → Result (Failed X) A × Run X
      trying r s = elim r [
        | answered a ↦ (ok a, s)
        | give_up e ↦ (err e, s)
        | again e ↦ sleeping (sleep d n (next s)).0 (sleep d n (next s)).1
      ]

      rest :
          Rest
          → (r : Attempt X A) (s : Run X) → Follows r s
          → Silent (trying r s).1 ⊎ Streamed (trying r s).1
      rest ih (answered a) s h = h
      rest ih (give_up e) s h = h
      rest ih (again e) s h =
          after_sleep ih (sleep d n (next s)).0 (sleep d n (next s)).1
            (sleep-Silent d n (next s) (retry-Silent d agent s h))

  -- The attempts at one agent pass on the events of one attempt at most, and it is the last of them.
  pub invoke_stream-Streamed :
      (d : Dispatcher X) (task : TaskRequest) (agent : AgentConfig) (s : Run X)
      → Silent s
      → Silent (invoke_agent_stream_with_retries d task agent s).1
        ⊎ Streamed (invoke_agent_stream_with_retries d task agent s).1
  unfolding invoke_agent_stream_with_retries
  invoke_stream-Streamed d task agent s h = elim (Option-cases (d.reg agent.agent_type)) [
    | inl q ↦ rw (invoke_agent_stream_with_retries, q) (inl h)
    | inr (ad, q) ↦
        rw (invoke_agent_stream_with_retries, q)
          (attempts-Follows d agent _
            (attempt-Follows agent (read_stream ad agent) (read_stream-Follows ad agent) ad
              (record task { stream = true }))
            (pos_part agent.retries) 0 s h)
  ]

  read_stream-Sends :
      (ad : Adapter X) (agent : AgentConfig) (r : ℕ × X.Body) (s : Run X)
      → Sends 0 agent.id s (read_stream ad agent r s).1
  unfolding read_stream
  read_stream-Sends ad agent r s =
      elim (Bool-cases (ad.translate_stream (attempt_timeout agent) agent r s.world).1.0) [
        | inl q ↦ rw q (record {
          visited = refl;
          count = λ id. ground (arith, sent_count-append id s.trace (streamed agent.id ∷ []));
        })
        | inr q ↦ rw q (record { visited = refl; count = λ id. omega arith })
      ]

  -- An agent gets at most one request more than it has retries, and no other agent gets one.
  pub invoke_stream-Sends :
      (d : Dispatcher X) (task : TaskRequest) (agent : AgentConfig) (s : Run X)
      → Sends
          (suc (pos_part agent.retries))
          agent.id
          s
          (invoke_agent_stream_with_retries d task agent s).1
  unfolding invoke_agent_stream_with_retries
  invoke_stream-Sends d task agent s = elim (Option-cases (d.reg agent.agent_type)) [
    | inl q ↦
        rw (invoke_agent_stream_with_retries, q)
          (record { visited = refl; count = λ id. omega arith })
    | inr (ad, q) ↦
        rw (invoke_agent_stream_with_retries, q)
          (attempts-Sends d agent _
            (attempt-Sends agent (read_stream ad agent) (read_stream-Sends ad agent) ad
              (record task { stream = true }))
            (pos_part agent.retries) 0 s)
  ]
