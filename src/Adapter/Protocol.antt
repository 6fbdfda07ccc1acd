-- ===== src/Adapter/Protocol.antt =====
-- The order of the events that the methods `TranslateStream` of pkg/adapter emit.
use progo_a2a.Prelude.{
  String, ◌≡◌, Bool, true, false, Option, none, some, List, [], ◌∷◌, ◌++◌, map, ◌⊎◌, inl, inr, ◌∙◌,
  ap, if◌then◌else◌, leb, trim_space,
}
use progo_a2a.A2a.{Json, StreamEventType, task_started, task_completed, task_error}
use progo_a2a.Dispatcher.{CtxError}
use progo_a2a.Adapter.{Gjson, single, pair}
use progo_a2a.Adapter.Streaming.{
  Line, Response, StreamError, upstream_status, stream_error, context_done, scan_failed,
  emit_failed, Out, Control, next, finish, stop_with, emit_event, scan_lines, complete_stream,
  scan_started, translate_stream, upstream_text,
}
use progo_a2a.Adapter.Lines.{
  Kind, openai, langgraph, crewai, autogen, custom, handle_line, translate,
}
use progo_a2a.Adapter.Handling.{
  kinds, Progress, Progress-append, Adds, HandlesLine, emit_event-kinds, handle_line-Handles,
}

-- The events of a stream that ends with a result.
abbrev pub IsStream : {E : Type 0} → Option (StreamError E) → List StreamEventType → Type 0
IsStream none es =
    (mid : List StreamEventType) × Progress mid
    × (es ≡ task_started ∷ (mid ++ (task_completed ∷ [])))
IsStream (some (upstream_status status body)) es = es ≡ task_error ∷ []
IsStream (some (stream_error text)) es =
    (mid : List StreamEventType) × Progress mid × (es ≡ task_started ∷ (mid ++ (task_error ∷ [])))
IsStream (some (context_done c)) es =
    (mid : List StreamEventType) × Progress mid × (es ≡ task_started ∷ mid)
IsStream (some (scan_failed e)) es =
    (mid : List StreamEventType) × Progress mid × (es ≡ task_started ∷ mid)
IsStream (some (emit_failed e)) es =
    (mid : List StreamEventType) × Progress mid
    × ((es ≡ task_started ∷ mid) ⊎ (es ≡ task_started ∷ (mid ++ (task_completed ∷ []))))

-- A stream of which the loop has not come to a result yet.
abbrev Started : List StreamEventType → Type 0
Started es = (mid : List StreamEventType) × Progress mid × (es ≡ task_started ∷ mid)

-- The events after the loop.
abbrev IsScan : {E : Type 0} → Option (StreamError E) → List StreamEventType → Type 0
IsScan (some (stream_error text)) es =
    (mid : List StreamEventType) × Progress mid × (es ≡ task_started ∷ (mid ++ (task_error ∷ [])))
IsScan (some (upstream_status status body)) es = ⊥
IsScan _ es = Started es

Started-more :
    (es fs gs : List StreamEventType) → Started es → Progress fs → gs ≡ es ++ fs → Started gs
Started-more es fs gs (mid, p, e) q h =
    (mid ++ fs, Progress-append mid fs p q, h ∙ ap (λ xs. xs ++ fs) e)

module _ (G : Gjson) {S E : Type 0} (emit : StreamEventType → Json → S → Option E × S)
    (agent_id : String) (kind : Kind) where
  -- The events when the loop is left at a line.
  stopped_at :
      (before es : List StreamEventType) (e : StreamError E) (after : List StreamEventType)
      → Started before
      → Adds (stop_with e) es
      → after ≡ before ++ es
      → IsScan (some e) after
  stopped_at before es (stream_error text) after (mid, p, q) a h =
      (mid, p, h ∙ ap (λ xs. xs ++ es) q ∙ ap (λ fs. task_started ∷ (mid ++ fs)) a)
  stopped_at before es (emit_failed e) after s a h = Started-more before es after s a h
  stopped_at before es (upstream_status status body) after s a h = a
  stopped_at before es (context_done c) after s a h = absurd a
  stopped_at before es (scan_failed e) after s a h = absurd a

  scanned :
      (failed : Option E) (es : List StreamEventType)
      → Started es
      → IsScan (elim failed [ none ↦ none | some e ↦ some (scan_failed e) ]) es
  scanned none es s = s
  scanned (some e) es s = s

  scan_lines-IsScan :
      (at_end : Option E) (lines : List (Line E)) (event : String) (out : Out S)
      → Started (kinds out)
      → let r = scan_lines emit (handle_line G emit agent_id kind) at_end lines event out in
        IsScan r.0 (kinds r.1)
  unfolding scan_lines
  scan_lines-IsScan at_end [] event out s = scanned at_end (kinds out) s
  scan_lines-IsScan at_end (l ∷ lines) event out s =
      by_context l.ctx (λ ev o t. scan_lines-IsScan at_end lines ev o t)
    where
      handled : HandlesLine (handle_line G emit agent_id kind event (trim_space l.line) out) out
      handled = handle_line-Handles G emit agent_id kind event (trim_space l.line) out

      by_control :
          (r : Control E × (String × Out S))
          → HandlesLine r out
          → ((ev : String) (o : Out S)
              → Started (kinds o)
              → let r = scan_lines emit (handle_line G emit agent_id kind) at_end lines ev o in
                IsScan r.0 (kinds r.1))
          → let q = (elim r.0 as (λ _. Option (StreamError E) × Out S) [
            | next ↦ scan_lines emit (handle_line G emit agent_id kind) at_end lines r.1.0 r.1.1
            | finish ↦ (elim l.scan_error [ none ↦ none | some e ↦ some (scan_failed e) ], r.1.1)
            | stop_with e ↦ (some e, r.1.1)
          ]) in
            IsScan q.0 (kinds q.1)
      by_control (next, (ev, o)) h again =
          again ev o (Started-more (kinds out) h.added (kinds o) s h.adds h.after)
      by_control (finish, (ev, o)) h again =
          scanned l.scan_error (kinds o)
            (Started-more (kinds out) h.added (kinds o) s h.adds h.after)
      by_control (stop_with e, (ev, o)) h again =
          stopped_at (kinds out) h.added e (kinds o) s h.adds h.after

      by_context :
          (c : Option CtxError)
          → ((ev : String) (o : Out S)
              → Started (kinds o)
              → let r = scan_lines emit (handle_line G emit agent_id kind) at_end lines ev o in
                IsScan r.0 (kinds r.1))
          → let q = (elim c as (λ _. Option (StreamError E) × Out S) [
            | some c ↦ (some (context_done c), out)
            | none ↦
                let r = handle_line G emit agent_id kind event (trim_space l.line) out in
                elim r.0 [
                  | next ↦
                      scan_lines emit (handle_line G emit agent_id kind) at_end lines r.1.0 r.1.1
                  | finish ↦
                      (elim l.scan_error [ none ↦ none | some e ↦ some (scan_failed e) ], r.1.1)
                  | stop_with e ↦ (some e, r.1.1)
                ]
          ]) in
            IsScan q.0 (kinds q.1)
      by_context (some c) again = s
      by_context none again =
          by_control (handle_line G emit agent_id kind event (trim_space l.line) out) handled again

  completed :
      (failed : Option (StreamError E)) (out : Out S)
      → IsScan failed (kinds out)
      → let r = complete_stream emit failed out in IsStream r.0 (kinds r.1)
  unfolding complete_stream
  completed none out (mid, p, e) = by_answer (emit_event emit task_completed _ out).0
    where
      last :
          kinds (emit_event emit task_completed (single "status" (Json.text "completed")) out).1
          ≡ task_started ∷ (mid ++ (task_completed ∷ []))
      last =
          emit_event-kinds G emit agent_id task_completed _ out
          ∙ ap (λ xs. xs ++ (task_completed ∷ [])) e

      by_answer :
          (failed : Option E)
          → IsStream
              (elim failed [ none ↦ none | some x ↦ some (emit_failed x) ])
              (kinds
                (emit_event emit task_completed (single "status" (Json.text "completed")) out).1)
      by_answer none = (mid, p, last)
      by_answer (some x) = (mid, p, inr last)
  completed (some (upstream_status status body)) out h = absurd h
  completed (some (stream_error text)) out h = h
  completed (some (context_done c)) out h = h
  completed (some (scan_failed e)) out h = h
  completed (some (emit_failed e)) out (mid, p, h) = (mid, p, inl h)

  started_stream :
      (resp : Response E) (failed : Option E) (out : Out S)
      → kinds out ≡ task_started ∷ []
      → let r = scan_started emit (handle_line G emit agent_id kind) resp failed out in
        IsStream r.0 (kinds r.1)
  unfolding scan_started
  started_stream resp (some e) out h = ([], tt, inl h)
  started_stream resp none out h =
      let r =
        scan_lines emit (handle_line G emit agent_id kind) resp.last_error resp.lines "" out in
      completed r.0 r.1 (scan_lines-IsScan resp.last_error resp.lines "" out ([], tt, h))

  frame-IsStream :
      (resp : Response E) (out : Out S)
      → out.emitted ≡ []
      → let r = translate_stream emit (handle_line G emit agent_id kind) agent_id resp out in
        IsStream r.0 (kinds r.1)
  unfolding translate_stream
  frame-IsStream resp out h = by_status (leb 400 resp.status_code)
    where
      first : (k : StreamEventType) (d : Json) → kinds (emit_event emit k d out).1 ≡ k ∷ []
      first k d =
          emit_event-kinds G emit agent_id k d out ∙ ap (λ es. map (λ e. e.0) es ++ (k ∷ [])) h

      by_status :
          (t : Bool)
          → let text = upstream_text resp.status_code resp.body in
            let refused =
              (emit_event emit task_error
                (pair "error" (Json.text text) "agent_id" (Json.text agent_id))
                out).1 in
            let begun = emit_event emit task_started (single "agent_id" (Json.text agent_id)) out in
            let r =
              if t
              then (some (upstream_status resp.status_code resp.body), refused)
              else scan_started emit (handle_line G emit agent_id kind) resp begun.0 begun.1 in
            IsStream r.0 (kinds r.1)
      by_status true = first task_error _
      by_status false = started_stream resp _ _ (first task_started _)

module _ (G : Gjson) {S E : Type 0} (emit : StreamEventType → Json → S → Option E × S)
    (agent_id : String) where
  -- Whatever a downstream server sends, whatever the emitter answers and whenever the context ends, each of the five
  -- adapters emits the events of a stream in order. When the stream ends without an error: the start, the
  -- output, and the completion. Otherwise no completion, except one that the emitter refuses: an error alone for a
  -- status of 400 and more; or the start and the output, with one error at the end exactly when the server reports one.
  pub translate-IsStream :
      (kind : Kind) (resp : Response E) (out : Out S)
      → out.emitted ≡ []
      → let r = translate G emit agent_id kind resp out in IsStream r.0 (kinds r.1)
  unfolding translate handle_line
  translate-IsStream openai = frame-IsStream G emit agent_id openai
  translate-IsStream crewai = frame-IsStream G emit agent_id crewai
  translate-IsStream autogen = frame-IsStream G emit agent_id autogen
  translate-IsStream langgraph = frame-IsStream G emit agent_id langgraph
  translate-IsStream (custom m) = frame-IsStream G emit agent_id (custom m)
