-- ===== src/Stream/Examples.antt =====
-- A stream of pkg/stream/sse.go of two events, and one without JSON.
use progo_a2a.Prelude.{
  String, ◌≡◌, refl, subst, Bool, true, false, Option, none, some, [], ◌∷◌, ◌++◌, prepend,
  take_chars, str_all, is_empty,
}
use progo_a2a.A2a.{task_started, token_delta, task_completed}
use progo_a2a.Stream.{SseResponseWriter, cut, frame, emit}
use progo_a2a.Stream.Reader.{
  IsMarshal, IsLine, start, read_events, emit_all, marshaled, read_events-emit_all,
}

-- The data of some events; that of `false` has no JSON.
abbrev marshal : Bool → Option String
marshal true = some "{\"delta\":\"a\\nb\"}"
marshal false = none

marshal-IsMarshal : IsMarshal marshal
unfolding str_all
marshal-IsMarshal = record { one_line = one_line; filled = filled }
  where
    one_line : (d : Bool) (json : String) → marshal d ≡ some json → IsLine json
    one_line true json h = let e : "{\"delta\":\"a\\nb\"}" ≡ json = cc h in subst IsLine e refl
    one_line false json h = absurd (cc h)

    filled : (d : Bool) (json : String) → marshal d ≡ some json → is_empty json ≡ false
    filled true json h =
        let e : "{\"delta\":\"a\\nb\"}" ≡ json = cc h in subst (λ t. is_empty t ≡ false) e refl
    filled false json h = absurd (cc h)

abbrev opened : SseResponseWriter
opened = record { header = []; status = 200; sent = ""; flushes = 1 }

read_events-emit_all_example :
    read_events start (
      prepend
        (emit_all marshal
          ((task_started, true) ∷ (token_delta, false) ∷ (token_delta, true) ∷ [])
          opened).sent
        "event: tas")
    ≡ marshaled marshal ((task_started, true) ∷ (token_delta, false) ∷ (token_delta, true) ∷ [])
      ++ read_events start "event: tas"
read_events-emit_all_example =
    read_events-emit_all marshal marshal-IsMarshal
      ((task_started, true) ∷ (token_delta, false) ∷ (token_delta, true) ∷ []) opened "event: tas"
      refl

-- A frame that is cut is no event.
nothing : read_events start (emit marshal (cut 20) task_completed true opened).1.sent ≡ []
unfolding emit read_events take_chars frame
nothing = refl
