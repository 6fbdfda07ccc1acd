-- ===== src/Dispatcher/Retry.antt =====
-- The attempts at one agent: `invokeAgentWithRetries`, `invokeAgentStreamWithRetries` and, from
-- pkg/dispatcher/retry.go, `Duration` and `Sleep`.
use progo_a2a.Prelude.{
  ℕ, zero, suc, true, Option, none, some, [], ◌∷◌, ◌++◌, is_empty, leb, if◌then◌else◌, Result, ok,
  err,
}
use progo_a2a.Prelude.Int.{ℤ, pos, leb_ℤ, pos_part}
use progo_a2a.A2a.{TaskRequest, TaskResponse}
use progo_a2a.Config.{AgentConfig}
use progo_a2a.Dispatcher.{
  CtxError, World, Adapter, Dispatcher, Event, sent, retried, streamed, Run, Failed, stopped,
  adapter_error, translate_request_failed, translate_response_failed, transport_failed,
  stream_failed, downstream_status,
}

-- What one attempt comes to: an answer, an error that ends the attempts, or one after which another follows.
pub data Attempt (X : World) (A : Type 0) : Type 0 where
  answered : A → Attempt X A
  give_up : Failed X → Attempt X A
  again : Failed X → Attempt X A

-- The deadline that an attempt has of its own.
abbrev pub attempt_timeout : AgentConfig → Option ℕ
attempt_timeout agent =
    if leb_ℤ agent.timeout_seconds (pos 0) then none else some (pos_part agent.timeout_seconds)

module _ {X : World} where
  abbrev pub ctx_err : Run X → Option CtxError × Run X
  ctx_err s = let (c, w) = X.ctx_err s.world in (c, record s { world = w })

  abbrev pub note : Event → Run X → Run X
  note e s = record s { trace = s.trace ++ e ∷ [] }

  -- `Duration`, for an attempt that is not negative.
  unfoldable pub duration : Dispatcher X → ℕ → X.State → ℤ × X.State
  duration d attempt w = if d.backoff then X.interval attempt w else (pos 0, w)

  -- `Sleep`.
  unfoldable pub sleep : Dispatcher X → ℕ → Run X → Option CtxError × Run X
  unfolding duration
  sleep d attempt s =
      let (n, w) = duration d attempt s.world in
      if leb_ℤ n (pos 0)
      then ctx_err (record s { world = w })
      else let (c, w) = X.wait n w in (c, record s { world = w })

  -- The ids that a response lacks.
  unfoldable pub fill_ids : TaskRequest → AgentConfig → TaskResponse → Run X → TaskResponse × Run X
  fill_ids task agent resp s =
      let (fresh, w) = X.generate_task_id s.world in
      let named = if is_empty resp.agent_id then record resp { agent_id = agent.id } else resp in
      if is_empty resp.task_id
      then if is_empty task.id
        then (record named { task_id = fresh }, record s { world = w })
        else (record named { task_id = task.id }, s)
      else (named, s)

  -- A request is sent, and its response is judged by its status.
  abbrev pub after_send :
      {A : Type 0}
      → (ℕ × X.Body → Run X → Attempt X A × Run X)
      → Run X
      → Result X.Failure (ℕ × X.Body)
      → Attempt X A × Run X
  after_send k s (err e) =
      let (c, s) = ctx_err s in
      (elim c [ none ↦ again (transport_failed e) | some c ↦ give_up (stopped c) ], s)
  after_send k s (ok (status, body)) =
      if leb 500 status then (again (downstream_status status), s) else k (status, body) s

  abbrev pub after_translate :
      {A : Type 0}
      → AgentConfig
      → (ℕ × X.Body → Run X → Attempt X A × Run X)
      → Run X
      → Result X.Failure X.Request
      → Attempt X A × Run X
  after_translate agent k s (err e) = (give_up (translate_request_failed e), s)
  after_translate agent k s (ok req) =
      let (r, w) = X.send (attempt_timeout agent) req s.world in
      after_send k (note (sent agent.id) (record s { world = w })) r

  -- One turn of the loop: translate, send, judge, and read the response with `k`.
  unfoldable pub attempt :
      {A : Type 0}
      → Adapter X
      → TaskRequest
      → AgentConfig
      → (ℕ × X.Body → Run X → Attempt X A × Run X)
      → Run X
      → Attempt X A × Run X
  attempt ad task agent k s =
      let (r, w) = ad.translate_request (attempt_timeout agent) agent task s.world in
      after_translate agent k (record s { world = w }) r

  abbrev pub answer_of :
      TaskRequest
      → AgentConfig
      → Run X
      → Result X.Failure TaskResponse
      → Attempt X TaskResponse × Run X
  answer_of task agent s (err e) = (give_up (translate_response_failed e), s)
  answer_of task agent s (ok resp) =
      let (resp, s) = fill_ids task agent resp s in (answered resp, s)

  -- The response of an attempt, read by `TranslateResponse`.
  unfoldable pub read_response :
      Adapter X → TaskRequest → AgentConfig → ℕ × X.Body → Run X → Attempt X TaskResponse × Run X
  unfolding fill_ids
  read_response ad task agent resp s =
      let (r, w) = ad.translate_response (attempt_timeout agent) agent resp s.world in
      answer_of task agent (record s { world = w }) r

  -- The stream of an attempt, passed on by `TranslateStream` to the tracking emitter.
  unfoldable pub read_stream : Adapter X → AgentConfig → ℕ × X.Body → Run X → Attempt X Unit × Run X
  read_stream ad agent resp s =
      let (r, (emitted, w)) = ad.translate_stream (attempt_timeout agent) agent resp s.world in
      let s = record s { world = w } in
      (
        elim r [ none ↦ answered tt | some e ↦ give_up (stream_failed e) ],
        if emitted then note (streamed agent.id) (record s { has_emitted = true }) else s,
      )

  -- The attempts after the first: `left` may follow the attempt of number `n`.
  unfoldable pub attempts :
      {A : Type 0}
      → Dispatcher X
      → AgentConfig
      → (Run X → Attempt X A × Run X)
      → ℕ
      → ℕ
      → Run X
      → Result (Failed X) A × Run X
  unfolding sleep
  attempts d agent try zero n s =
      let (r, s) = try s in (elim r [ answered a ↦ ok a | give_up e ↦ err e | again e ↦ err e ], s)
  attempts d agent try (suc left) n s =
      let (r, s) = try s in
      elim r [
        | answered a ↦ (ok a, s)
        | give_up e ↦ (err e, s)
        | again e ↦
            let (c, s) = sleep d n (if d.metrics then note (retried agent.id) s else s) in
            elim c [ none ↦ attempts d agent try left (suc n) s | some c ↦ (err (stopped c), s) ]
      ]

  -- `invokeAgentWithRetries`.
  unfoldable pub invoke_agent_with_retries :
      Dispatcher X → TaskRequest → AgentConfig → Run X → Result (Failed X) TaskResponse × Run X
  unfolding attempts attempt read_response
  invoke_agent_with_retries d task agent s = elim (d.reg agent.agent_type) [
    | none ↦ (err (adapter_error agent.id agent.agent_type), s)
    | some ad ↦
        attempts d agent (attempt ad task agent (read_response ad task agent))
          (pos_part agent.retries) 0 s
  ]

  -- `invokeAgentStreamWithRetries`.
  unfoldable pub invoke_agent_stream_with_retries :
      Dispatcher X → TaskRequest → AgentConfig → Run X → Result (Failed X) Unit × Run X
  unfolding attempts attempt read_stream
  invoke_agent_stream_with_retries d task agent s = elim (d.reg agent.agent_type) [
    | none ↦ (err (adapter_error agent.id agent.agent_type), s)
    | some ad ↦
        attempts d agent (attempt ad (record task { stream = true }) agent (read_stream ad agent))
          (pos_part agent.retries) 0 s
  ]
