-- ===== src/Dispatcher/Fallback.antt =====
-- The cascade of fallbacks: `dispatchWithFallback`, `dispatchStreamWithFallback` and the entry points. The
-- recursion from agent to agent is on fuel, and `none` is a run out of fuel.
use progo_a2a.Prelude.{
  ℕ, zero, suc, String, Bool, true, false, ◌||◌, Option, none, some, List, [], ◌∷◌, length,
  if◌then◌else◌, str_contains, Result, ok, err,
}
use progo_a2a.A2a.{
  TaskRequest, TaskResponse, Code, cycle_detected, downstream_timeout, downstream_unavailable,
}
use progo_a2a.Prelude.Int.{pos}
use progo_a2a.Config.{AgentConfig}
use progo_a2a.Dispatcher.{
  deadline_exceeded, World, Dispatcher, fell_back, Run, Failed, stopped, a2a, adapter_error,
  translate_request_failed, translate_response_failed, transport_failed, stream_failed,
  downstream_status, refuse, is_visited, get_agent, resolve_agent,
}
use progo_a2a.Dispatcher.Retry.{
  ctx_err, note, invoke_agent_with_retries, invoke_agent_stream_with_retries,
}

-- `errors.Is(err, context.DeadlineExceeded) || strings.Contains(err.Error(), "context deadline exceeded")`, for
-- an error of the attempts.
abbrev pub timed_out : {X : World} → Failed X → Bool
timed_out (a2a e) = false
timed_out (stopped c) = elim c [ deadline_exceeded ↦ true | _ ↦ false ]
timed_out (adapter_error id t) =
    str_contains id "context deadline exceeded" || str_contains t "context deadline exceeded"
timed_out {X} (translate_request_failed e) = X.is_deadline e
timed_out {X} (translate_response_failed e) = X.is_deadline e
timed_out {X} (transport_failed e) = X.is_deadline e
timed_out {X} (stream_failed e) = X.is_deadline e
timed_out (downstream_status n) = false

abbrev pub Answer : World → Type 0 → Type 0
Answer X A = Option (Result (Failed X) A × Run X)

module _ {X : World} where
  abbrev pub mark : AgentConfig → Run X → Run X
  mark agent s = record s { visited = agent.id ∷ s.visited }

  abbrev pub note_fallback : Dispatcher X → AgentConfig → String → Run X → Run X
  note_fallback d agent fallback_id s =
      if d.metrics then note (fell_back agent.id fallback_id) s else s

  -- The error when no agent has answered.
  abbrev pub exhausted : {A : Type 0} → AgentConfig → Failed X → Run X → Answer X A
  exhausted agent e s =
      let (c, s) = ctx_err s in
      elim c [
        | some c ↦ some (err (stopped c), s)
        | none ↦ some (
          err (
              if timed_out e
              then refuse downstream_timeout agent.id 504
              else refuse downstream_unavailable agent.id 502),
          s,
        )
      ]

  -- The loop over the fallback agents of `dispatchWithFallback`, which calls it by `recur`. It passes over an
  -- agent that was visited or is not there.
  unfoldable pub cascade :
      Dispatcher X
      → (AgentConfig → Run X → Answer X TaskResponse)
      → AgentConfig
      → Failed X
      → List String
      → Run X
      → Answer X TaskResponse
  unfolding is_visited get_agent
  cascade d recur agent e [] s = exhausted agent e s
  cascade d recur agent e (fallback_id ∷ ids) s =
      let (c, s) = ctx_err s in
      elim c [
        | some c ↦ some (err (stopped c), s)
        | none ↦ elim (is_visited fallback_id s) [
          | true ↦ cascade d recur agent e ids s
          | false ↦ elim (get_agent d fallback_id) [
            | err f ↦ cascade d recur agent e ids s
            | ok fallback ↦ elim (recur fallback (note_fallback d agent fallback_id s)) [
              | none ↦ none
              | some (ok resp, s) ↦ some (ok resp, s)
              | some (err f, s) ↦ cascade d recur agent e ids s
            ]
          ]
        ]
      ]

  -- `dispatchWithFallback`.
  unfoldable pub dispatch_with_fallback :
      ℕ → Dispatcher X → TaskRequest → AgentConfig → Run X → Answer X TaskResponse
  unfolding cascade invoke_agent_with_retries
  dispatch_with_fallback zero d task agent s = none
  dispatch_with_fallback (suc fuel) d task agent s = elim (is_visited agent.id s) [
    | true ↦ some (err (refuse cycle_detected agent.id 502), s)
    | false ↦
        let (r, s) = invoke_agent_with_retries d task agent (mark agent s) in
        elim r [
          | ok resp ↦ some (ok resp, s)
          | err e ↦
              let (c, s) = ctx_err s in
              elim c [
                | some c ↦ some (err (stopped c), s)
                | none ↦
                    cascade d (dispatch_with_fallback fuel d task) agent e agent.fallback_agent_ids
                      s
              ]
        ]
  ]

  -- A new run: nothing is visited and nothing emitted.
  abbrev pub new_run : X.State → Run X
  new_run w = record { world = w; visited = []; has_emitted = false; trace = [] }

  -- `Dispatch`, with fuel for as many agents as there are.
  unfoldable pub dispatch : Dispatcher X → Option TaskRequest → X.State → Answer X TaskResponse
  unfolding dispatch_with_fallback resolve_agent
  dispatch d none w = some (err (refuse Code.invalid_request "" 400), new_run w)
  dispatch d (some task) w = elim (resolve_agent d (some task)) [
    | err e ↦ some (err e, new_run w)
    | ok agent ↦ dispatch_with_fallback (suc (length d.agents)) d task agent (new_run w)
  ]

  -- What `DispatchSingleAttempt` returns for the result of its attempt.
  abbrev pub after_single :
      AgentConfig → Result (Failed X) TaskResponse → Run X → Result (Failed X) TaskResponse × Run X
  after_single agent (ok resp) s = (ok resp, s)
  after_single agent (err e) s =
      let (c, s) = ctx_err s in
      (
        elim c [
          | some c ↦ err (stopped c)
          | none ↦ err (
              if timed_out e
              then refuse downstream_timeout agent.id 504
              else refuse downstream_unavailable agent.id 502)
        ],
        s,
      )

  -- `DispatchSingleAttempt`.
  unfoldable pub dispatch_single_attempt :
      Dispatcher X → Option TaskRequest → X.State → Result (Failed X) TaskResponse × Run X
  unfolding resolve_agent invoke_agent_with_retries
  dispatch_single_attempt d none w = (err (refuse Code.invalid_request "" 400), new_run w)
  dispatch_single_attempt d (some task) w = elim (resolve_agent d (some task)) [
    | err e ↦ (err e, new_run w)
    | ok target ↦
        let agent = record target { retries = pos 0; fallback_agent_ids = [] } in
        let (r, s) = invoke_agent_with_retries d task agent (new_run w) in after_single agent r s
  ]

  -- The loop over the fallback agents of `dispatchStreamWithFallback`: it ends when an event was emitted.
  unfoldable pub cascade_stream :
      Dispatcher X
      → (AgentConfig → Run X → Answer X Unit)
      → AgentConfig
      → Failed X
      → List String
      → Run X
      → Answer X Unit
  unfolding is_visited get_agent
  cascade_stream d recur agent e [] s = exhausted agent e s
  cascade_stream d recur agent e (fallback_id ∷ ids) s =
      let (c, s) = ctx_err s in
      elim c [
        | some c ↦ some (err (stopped c), s)
        | none ↦ elim s.has_emitted [
          | true ↦ some (err e, s)
          | false ↦ elim (is_visited fallback_id s) [
            | true ↦ cascade_stream d recur agent e ids s
            | false ↦ elim (get_agent d fallback_id) [
              | err f ↦ cascade_stream d recur agent e ids s
              | ok fallback ↦ elim (recur fallback (note_fallback d agent fallback_id s)) [
                | none ↦ none
                | some (ok done, s) ↦ some (ok done, s)
                | some (err f, s) ↦ elim s.has_emitted [
                  | true ↦ some (err f, s)
                  | false ↦ cascade_stream d recur agent e ids s
                ]
              ]
            ]
          ]
        ]
      ]

  -- `dispatchStreamWithFallback`.
  unfoldable pub dispatch_stream_with_fallback :
      ℕ → Dispatcher X → TaskRequest → AgentConfig → Run X → Answer X Unit
  unfolding cascade_stream invoke_agent_stream_with_retries
  dispatch_stream_with_fallback zero d task agent s = none
  dispatch_stream_with_fallback (suc fuel) d task agent s = elim (is_visited agent.id s) [
    | true ↦ some (err (refuse cycle_detected agent.id 502), s)
    | false ↦
        let (r, s) = invoke_agent_stream_with_retries d task agent (mark agent s) in
        elim r [
          | ok done ↦ some (ok done, s)
          | err e ↦ elim s.has_emitted [
            | true ↦ some (err e, s)
            | false ↦
                let (c, s) = ctx_err s in
                elim c [
                  | some c ↦ some (err (stopped c), s)
                  | none ↦
                      cascade_stream d (dispatch_stream_with_fallback fuel d task) agent e
                        agent.fallback_agent_ids s
                ]
          ]
        ]
  ]

  -- `DispatchStream`.
  unfoldable pub dispatch_stream : Dispatcher X → Option TaskRequest → X.State → Answer X Unit
  unfolding dispatch_stream_with_fallback resolve_agent
  dispatch_stream d none w = some (err (refuse Code.invalid_request "" 400), new_run w)
  dispatch_stream d (some task) w = elim (resolve_agent d (some task)) [
    | err e ↦ some (err e, new_run w)
    | ok agent ↦ dispatch_stream_with_fallback (suc (length d.agents)) d task agent (new_run w)
  ]
