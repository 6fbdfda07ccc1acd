-- ===== src/Server/Closing.antt =====
-- How the streams of pkg/server/a2a_handler.go end: the last event, and the gauge of the active streams.
use mathlib.Core.List.{append_assoc, append-nil}
use progo_a2a.Prelude.{
  String, ◌≡◌, refl, sym, ap, ◌∙◌, arith, Bool, true, false, ◌||◌, Option, none, some, List, [],
  ◌∷◌, ◌++◌, any, is_some, if◌then◌else◌,
}
use progo_a2a.A2a.{
  Json, StreamEventType, task_started, step_progress, token_delta, task_completed, task_error,
}
use progo_a2a.Adapter.{Gjson}
use progo_a2a.Adapter.Streaming.{
  Response, StreamError, upstream_status, stream_error, context_done, scan_failed, emit_failed, Out,
}
use progo_a2a.Adapter.Lines.{Kind, translate}
use progo_a2a.Adapter.Handling.{kinds, Progress}
use progo_a2a.Adapter.Protocol.{IsStream, translate-IsStream}
use progo_a2a.Server.Streams.{
  ErrorTrackingEmitter, new_emitter, is_task_error, track, track_all, finish_stream,
}

-- The events that end a stream.
abbrev is_last : StreamEventType → Bool
is_last task_completed = true
is_last task_error = true
is_last _ = false

-- One event ends the stream: an error when there was one, and the completion otherwise.
pub record IsClosed {E : Type 0} (failed : Option E) (events : List StreamEventType) : Type 0 where
  pub before : List StreamEventType
  pub unended : any is_last before ≡ false
  pub ends : events ≡ before ++ (if is_some failed then task_error else task_completed) ∷ []

Progress-any : (mid : List StreamEventType) → Progress mid → any is_last mid ≡ false
Progress-any [] p = refl
Progress-any (token_delta ∷ mid) p = Progress-any mid p.1
Progress-any (step_progress ∷ mid) p = Progress-any mid p.1
Progress-any (task_started ∷ mid) p = elim p.0 [ ]
Progress-any (task_completed ∷ mid) p = elim p.0 [ ]
Progress-any (task_error ∷ mid) p = elim p.0 [ ]

track_all-events :
    (es : List StreamEventType) (e : ErrorTrackingEmitter)
    → (track_all es e).events ≡ e.events ++ es
unfolding track_all
track_all-events [] e = sym (append-nil e.events)
track_all-events (t ∷ es) e = track_all-events es (track t e) ∙ append_assoc e.events (t ∷ []) es

-- The flag is that of an error among the events.
track_all-error_emitted :
    (es : List StreamEventType) (e : ErrorTrackingEmitter)
    → (track_all es e).error_emitted ≡ any is_task_error es || e.error_emitted
unfolding track_all
track_all-error_emitted [] e = refl
track_all-error_emitted (t ∷ es) e = ground (arith, track_all-error_emitted es (track t e))

Progress-any-error : (mid : List StreamEventType) → Progress mid → any is_task_error mid ≡ false
Progress-any-error [] p = refl
Progress-any-error (token_delta ∷ mid) p = Progress-any-error mid p.1
Progress-any-error (step_progress ∷ mid) p = Progress-any-error mid p.1
Progress-any-error (task_started ∷ mid) p = elim p.0 [ ]
Progress-any-error (task_completed ∷ mid) p = elim p.0 [ ]
Progress-any-error (task_error ∷ mid) p = elim p.0 [ ]

any-append :
    (p : StreamEventType → Bool) (xs ys : List StreamEventType)
    → any p (xs ++ ys) ≡ any p xs || any p ys
any-append p [] ys = refl
any-append p (x ∷ xs) ys = ground (arith, any-append p xs ys)

-- The emitter refused an event.
abbrev pub is_refused : {E : Type 0} → Option (StreamError E) → Bool
is_refused (some (emit_failed e)) = true
is_refused _ = false

module _ {E : Type 0} where
  abbrev finished : Option (StreamError E) → List StreamEventType → List StreamEventType
  finished failed es = (finish_stream failed (track_all es new_emitter)).events

  -- The events when there is an error among them, and when there is none.
  finished-error :
      (failed : Option (StreamError E)) (es : List StreamEventType)
      → any is_task_error es ≡ true
      → finished failed es ≡ es
  finished-error failed es h =
      ground (arith, h, track_all-error_emitted es new_emitter, track_all-events es new_emitter)

  finished-open :
      (e : StreamError E) (es : List StreamEventType)
      → any is_task_error es ≡ false
      → finished (some e) es ≡ es ++ task_error ∷ []
  finished-open e es h =
      let flag : (track_all es new_emitter).error_emitted ≡ false =
        ground (arith, h, track_all-error_emitted es new_emitter) in
      rw (finished, flag) (ap (λ xs. xs ++ task_error ∷ []) (track_all-events es new_emitter))

  started-IsClosed :
      (e : StreamError E) (es mid : List StreamEventType)
      → Progress mid
      → es ≡ task_started ∷ mid
      → IsClosed (some e) (finished (some e) es)
  started-IsClosed e es mid p q = record {
    before = task_started ∷ mid;
    unended = Progress-any mid p;
    ends =
        finished-open e es (rw q (Progress-any-error mid p)) ∙ ap (λ xs. xs ++ task_error ∷ []) q;
  }

  finish_stream-IsClosed :
      (failed : Option (StreamError E)) (es : List StreamEventType)
      → is_refused failed ≡ false
      → IsStream failed es
      → IsClosed failed (finished failed es)
  finish_stream-IsClosed none es h (mid, p, q) = record {
    before = task_started ∷ mid;
    unended = Progress-any mid p;
    ends = track_all-events es new_emitter ∙ q;
  }
  finish_stream-IsClosed (some (upstream_status status body)) es h q = record {
    before = [];
    unended = refl;
    ends = finished-error (some (upstream_status status body)) es (rw q refl) ∙ q;
  }
  finish_stream-IsClosed (some (stream_error text)) es h (mid, p, q) = record {
    before = task_started ∷ mid;
    unended = Progress-any mid p;
    ends =
        finished-error (some (stream_error text)) es
          (rw (q, any-append is_task_error mid (task_error ∷ []), Progress-any-error mid p) refl)
        ∙ q;
  }
  finish_stream-IsClosed (some (context_done c)) es h (mid, p, q) =
      started-IsClosed (context_done c) es mid p q
  finish_stream-IsClosed (some (scan_failed e)) es h (mid, p, q) =
      started-IsClosed (scan_failed e) es mid p q
  finish_stream-IsClosed (some (emit_failed e)) es h q = absurd (ground (arith, h))

module _ (G : Gjson) {S E : Type 0} (emit : StreamEventType → Json → S → Option E × S)
    (agent_id : String) where
  -- Whatever a downstream server sends to any of the adapters, as long as the client takes the events, the handler
  -- ends the client's stream with one event, which is the last: the completion when the stream of the agent ended
  -- without an error, and otherwise an error, be it the adapter's own or the handler's. No such event stands before.
  pub translate-IsClosed :
      (kind : Kind) (resp : Response E) (out : Out S)
      → out.emitted ≡ []
      → is_refused (translate G emit agent_id kind resp out).0 ≡ false
      → let r = translate G emit agent_id kind resp out in
        IsClosed r.0 (finish_stream r.0 (track_all (kinds r.1) new_emitter)).events
  translate-IsClosed kind resp out h accepted =
      finish_stream-IsClosed _ _ accepted (translate-IsStream G emit agent_id kind resp out h)
