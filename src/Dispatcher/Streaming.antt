-- ===== src/Dispatcher/Streaming.antt =====
-- The stream of one agent: `invokeAgentStreamWithRetries` of pkg/dispatcher/dispatcher.go and the events that it
-- passes on to the caller.
use progo_a2a.Prelude.{
  ℕ, String, ◌≡◌, ◌⊎◌, refl, Bool, true, false, Option, none, some, List, [], ◌∷◌, ◌++◌, leb,
  if◌then◌else◌, Bool-cases, inl, inr, Result, ok, err,
}
use progo_a2a.A2a.{TaskRequest}
use progo_a2a.Config.{AgentConfig}
use progo_a2a.Dispatcher.{
  CtxError, World, Adapter, Event, sent, streamed, retried, fell_back, Run, Failed,
}
use progo_a2a.Dispatcher.Retry.{
  Attempt, answered, give_up, again, ctx_err, note, attempt_timeout, after_send, after_translate,
  attempt, read_stream,
}

-- No event was passed on.
abbrev pub IsSilent : List Event → Type 0
IsSilent [] = Unit
IsSilent (streamed id ∷ t) = ⊥
IsSilent (sent id ∷ t) = IsSilent t
IsSilent (retried id ∷ t) = IsSilent t
IsSilent (fell_back i j ∷ t) = IsSilent t

pub append-IsSilent : (t u : List Event) → IsSilent t → IsSilent u → IsSilent (t ++ u)
append-IsSilent [] u h k = k
append-IsSilent (streamed id ∷ t) u h k = absurd h
append-IsSilent (sent id ∷ t) u h k = append-IsSilent t u h k
append-IsSilent (retried id ∷ t) u h k = append-IsSilent t u h k
append-IsSilent (fell_back i j ∷ t) u h k = append-IsSilent t u h k

-- The caller has got nothing.
pub record Silent {X : World} (s : Run X) : Type 0 where
  pub trace : IsSilent s.trace
  pub flag : s.has_emitted ≡ false

-- The caller has got the events of one agent, and nothing was sent or retried after them.
pub record Streamed {X : World} (s : Run X) : Type 0 where
  pub before : List Event
  pub agent_id : String
  pub trace : s.trace ≡ before ++ streamed agent_id ∷ []
  pub silent : IsSilent before
  pub flag : s.has_emitted ≡ true

-- After an attempt: only one that may be followed by another has surely passed nothing on.
abbrev pub Follows : {X : World} {A : Type 0} → Attempt X A → Run X → Type 0
Follows (answered a) s = Silent s ⊎ Streamed s
Follows (give_up e) s = Silent s ⊎ Streamed s
Follows (again e) s = Silent s

module _ {X : World} where
  pub Silent-note : (e : Event) (s : Run X) → IsSilent (e ∷ []) → Silent s → Silent (note e s)
  Silent-note e s q h = record { trace = append-IsSilent s.trace (e ∷ []) h.trace q; flag = h.flag }

  pub Silent-world : (s : Run X) (w : X.State) → Silent s → Silent (record s { world = w })
  Silent-world s w h = record { trace = h.trace; flag = h.flag }

  module _ {A : Type 0} (agent : AgentConfig) (k : ℕ × X.Body → Run X → Attempt X A × Run X)
      (follows : (r : ℕ × X.Body) (s : Run X) → Silent s → Follows (k r s).0 (k r s).1) where
    after_send-Follows :
        (s : Run X) (r : Result X.Failure (ℕ × X.Body))
        → Silent s
        → Follows (after_send k s r).0 (after_send k s r).1
    after_send-Follows s (err e) h = by_context (ctx_err s).0
      where
        by_context :
            (c : Option CtxError)
            → Follows {A = A}
                (elim c as (λ _. Attempt X A) [
                  | none ↦ again (Failed.transport_failed e)
                  | some c ↦ give_up (Failed.stopped c)
                ])
                (ctx_err s).1
        by_context none = Silent-world s _ h
        by_context (some c) = inl (Silent-world s _ h)
    after_send-Follows s (ok (status, body)) h = elim (Bool-cases (leb 500 status)) [
      | inl q ↦ rw q h
      | inr q ↦ rw q (follows (status, body) s h)
    ]

    after_translate-Follows :
        (s : Run X) (r : Result X.Failure X.Request)
        → Silent s
        → Follows (after_translate agent k s r).0 (after_translate agent k s r).1
    after_translate-Follows s (err e) h = inl h
    after_translate-Follows s (ok req) h =
        let (r, w) = X.send (attempt_timeout agent) req s.world in
        after_send-Follows (note (sent agent.id) (record s { world = w })) r
          (Silent-note (sent agent.id) (record s { world = w }) tt (Silent-world s w h))

    pub attempt-Follows :
        (ad : Adapter X) (task : TaskRequest) (s : Run X)
        → Silent s
        → Follows (attempt ad task agent k s).0 (attempt ad task agent k s).1
    unfolding attempt
    attempt-Follows ad task s h =
        let (r, w) = ad.translate_request (attempt_timeout agent) agent task s.world in
        after_translate-Follows (record s { world = w }) r (Silent-world s w h)

  pub read_stream-Follows :
      (ad : Adapter X) (agent : AgentConfig) (r : ℕ × X.Body) (s : Run X)
      → Silent s
      → Follows (read_stream ad agent r s).0 (read_stream ad agent r s).1
  unfolding read_stream
  read_stream-Follows ad agent r s h =
      by_result (ad.translate_stream (attempt_timeout agent) agent r s.world).0 emitted
    where
      t : Run X
      t = record s { world = (ad.translate_stream (attempt_timeout agent) agent r s.world).1.1 }

      emitted : Bool
      emitted = (ad.translate_stream (attempt_timeout agent) agent r s.world).1.0

      after : Bool → Run X
      after b = if b then note (streamed agent.id) (record t { has_emitted = true }) else t

      by_flag : (b : Bool) → Silent (after b) ⊎ Streamed (after b)
      by_flag false = inl (Silent-world s _ h)
      by_flag true = inr (record {
        before = s.trace;
        agent_id = agent.id;
        trace = refl;
        silent = h.trace;
        flag = refl;
      })

      by_result :
          (o : Option X.Failure) (b : Bool)
          → Follows {A = Unit}
              (elim o as (λ _. Attempt X Unit) [
                | none ↦ answered tt
                | some e ↦ give_up (Failed.stream_failed e)
              ])
              (after b)
      by_result none b = by_flag b
      by_result (some e) b = by_flag b
