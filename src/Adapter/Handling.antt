-- ===== src/Adapter/Handling.antt =====
-- What one line of a stream adds to the events that pkg/adapter emits.
mod Events
pub use Events.*
use progo_a2a.Prelude.{
  String, ◌≡◌, refl, Bool, true, false, Option, none, some, List, [], ◌∷◌, ◌++◌, All, map, sym, ap,
  if◌then◌else◌, str_eq, ◌&&◌, is_empty, is_prefix, trim_prefix, trim_space,
}
use mathlib.Core.List.{append-nil}
use progo_a2a.A2a.{Json, StreamEventType, step_progress, token_delta, task_error}
use progo_a2a.Config.{StreamMapping}
use progo_a2a.Adapter.{Gjson}
use progo_a2a.Adapter.Streaming.{
  stream_error, emit_failed, Out, Control, next, finish, stop_with, emit_event, emit_or_stop,
  emit_error,
}
use progo_a2a.Adapter.Lines.{
  message_of, data_of, keeping, Kind, openai, langgraph, crewai, autogen, custom, emit_delta,
  emit_step, openai_data, crewai_data, crewai_value, autogen_data, autogen_value, data_line,
  langgraph_message, langgraph_event, is_message, is_step, parsed, has_path, langgraph_data,
  langgraph_line, custom_data, handle_line,
}

module _ {S E : Type 0} where
  pub record Handles (r : Control E × Out S) (out : Out S) : Type 0 where
    pub added : List StreamEventType
    pub adds : Adds r.0 added
    pub after : kinds r.1 ≡ kinds out ++ added

  pub record HandlesLine (r : Control E × (String × Out S)) (out : Out S) : Type 0 where
    pub added : List StreamEventType
    pub adds : Adds r.0 added
    pub after : kinds r.1.1 ≡ kinds out ++ added

  passes-Handles : (c : Control E) (out : Out S) → Adds c [] → Handles (c, out) out
  passes-Handles c out h = record { added = []; adds = h; after = sym (append-nil (kinds out)) }

  if-Handles :
      (t : Bool) (x y : Control E × Out S) (out : Out S)
      → Handles x out
      → Handles y out
      → Handles (if t then x else y) out
  if-Handles true x y out h k = h
  if-Handles false x y out h k = k

  Option-Handles :
      {A : Type 0} (o : Option A) (x : Control E × Out S) (f : A → Control E × Out S) (out : Out S)
      → Handles x out
      → ((a : A) → Handles (f a) out)
      → Handles (elim o [ none ↦ x | some a ↦ f a ]) out
  Option-Handles none x f out h k = h
  Option-Handles (some a) x f out h k = k a

  module _ (G : Gjson) (emit : StreamEventType → Json → S → Option E × S) (agent_id : String) where
    pub emit_event-kinds :
        (kind : StreamEventType) (d : Json) (out : Out S)
        → kinds (emit_event emit kind d out).1 ≡ kinds out ++ (kind ∷ [])
    unfolding emit_event
    emit_event-kinds kind d out = map-append (λ e. e.0) out.emitted ((kind, d) ∷ [])

    emit_or_stop-Handles :
        (kind : StreamEventType) (d : Json) (out : Out S)
        → IsProgress kind
        → Handles (emit_or_stop emit kind d out) out
    unfolding emit_or_stop
    emit_or_stop-Handles kind d out p = by_answer (emit_event emit kind d out).0
      where
        by_answer :
            (failed : Option E)
            → Handles
                (
                  elim failed [ none ↦ next | some e ↦ stop_with (emit_failed e) ],
                  (emit_event emit kind d out).1,
                )
                out
        by_answer none = record {
          added = kind ∷ [];
          adds = (p, tt);
          after = emit_event-kinds kind d out;
        }
        by_answer (some e) = record {
          added = kind ∷ [];
          adds = (p, tt);
          after = emit_event-kinds kind d out;
        }

    emit_error-Handles :
        (text : String) (out : Out S) → Handles (emit_error emit agent_id text out) out
    unfolding emit_error
    emit_error-Handles text out = record {
      added = task_error ∷ [];
      adds = refl;
      after = emit_event-kinds task_error _ out;
    }

    emit_delta-Handles : (v : Json) (out : Out S) → Handles (emit_delta G emit agent_id v out) out
    unfolding emit_delta
    emit_delta-Handles v out = emit_or_stop-Handles token_delta _ out by_delta

    emit_step-Handles :
        (step : String) (v : Json) (out : Out S)
        → Handles (emit_step G emit agent_id step v out) out
    unfolding emit_step
    emit_step-Handles step v out = emit_or_stop-Handles step_progress _ out by_step

    openai_data-Handles :
        (text : String) (out : Out S) → Handles (openai_data G emit agent_id text out) out
    unfolding openai_data
    openai_data-Handles text out = if-Handles _ _ _ out (passes-Handles finish out tt) (
        Option-Handles (G.get text "error") _ _ out
          (Option-Handles (G.get text "choices.0.delta.content") _ _ out
            (passes-Handles next out tt)
            (λ delta. if-Handles _ _ _ out (passes-Handles next out tt) (emit_delta-Handles _ out)))
          (λ e. emit_error-Handles (message_of G e) out))

    crewai_data-Handles :
        (text : String) (out : Out S) → Handles (crewai_data G emit agent_id text out) out
    unfolding crewai_data crewai_value
    crewai_data-Handles text out = if-Handles _ _ _ out (passes-Handles finish out tt) (
        if-Handles _ _ _ out (emit_delta-Handles _ out) (
          Option-Handles (G.get text "error") _ _ out
            (if-Handles _ _ _ out (emit_step-Handles _ _ out) (emit_delta-Handles _ out))
            (λ e. emit_error-Handles (message_of G e) out)))

    autogen_data-Handles :
        (text : String) (out : Out S) → Handles (autogen_data G emit agent_id text out) out
    unfolding autogen_data autogen_value
    autogen_data-Handles text out = if-Handles _ _ _ out (passes-Handles finish out tt) (
        if-Handles _ _ _ out (emit_delta-Handles _ out) (
          Option-Handles (G.get text "error") _ _ out
            (if-Handles _ _ _ out (emit_step-Handles _ _ out) (emit_delta-Handles _ out))
            (λ e. emit_error-Handles (message_of G e) out)))

    langgraph_event-Handles :
        (event text : String) (out : Out S)
        → Handles (langgraph_event G emit agent_id event text out) out
    unfolding langgraph_event
    langgraph_event-Handles event text out =
        if-Handles (is_message event) _ _ out (emit_delta-Handles _ out) (
          if-Handles (is_step event) _ _ out
            (emit_step-Handles event (parsed G emit agent_id text) out)
            (if-Handles (G.is_valid text && has_path G text "delta") _ _ out
              (emit_delta-Handles _ out)
              (emit_step-Handles "progress" (parsed G emit agent_id text) out)))

    langgraph_data-Handles :
        (event text : String) (out : Out S)
        → Handles (langgraph_data G emit agent_id event text out) out
    unfolding langgraph_data
    langgraph_data-Handles event text out = if-Handles _ _ _ out (passes-Handles finish out tt) (
        if-Handles (str_eq event "error") _ _ out
          (emit_error-Handles (langgraph_message G emit agent_id text) out)
          (langgraph_event-Handles event text out))

    custom_data-Handles :
        (m : StreamMapping) (text : String) (out : Out S)
        → Handles (custom_data G emit agent_id m text out) out
    unfolding custom_data
    custom_data-Handles m text out =
        if-Handles _ _ _ out (passes-Handles finish out tt) (emit_delta-Handles _ out)

    -- A handler of the data of lines.
    abbrev DataHandler : (String → Out S → Control E × Out S) → Type 0
    DataHandler handle = (text : String) (out : Out S) → Handles (handle text out) out

    Handles-line :
        (event : String) (r : Control E × Out S) (out : Out S)
        → Handles r out
        → HandlesLine (r.0, (event, r.1)) out
    Handles-line event r out h = record { added = h.added; adds = h.adds; after = h.after }

    passes-line : (event : String) (out : Out S) → HandlesLine (next, (event, out)) out
    passes-line event out = Handles-line event (next, out) out (passes-Handles next out tt)

    data_line-Handles :
        (handle : String → Out S → Control E × Out S)
        → DataHandler handle
        → (event line : String) (out : Out S)
        → HandlesLine (data_line G emit agent_id handle event line out) out
    unfolding data_line
    data_line-Handles handle h event line out = by_data (data_of line)
      where
        by_data :
            (o : Option String)
            → HandlesLine
                (elim o [
                  | none ↦ (next, (event, out))
                  | some text ↦ keeping G emit agent_id event (handle text out)
                ])
                out
        by_data none = passes-line event out
        by_data (some text) = Handles-line event (handle text out) out (h text out)

    langgraph_line-Handles :
        (event line : String) (out : Out S)
        → HandlesLine (langgraph_line G emit agent_id event line out) out
    unfolding langgraph_line
    langgraph_line-Handles event line out =
        by_line (is_empty line) (is_prefix "event:" line) (data_of line)
      where
        by_line :
            (blank named : Bool) (o : Option String)
            → HandlesLine
                (if blank
                  then (next, ("", out))
                  else if named
                  then (next, (trim_space (trim_prefix "event:" line), out))
                  else elim o [
                    | none ↦ (next, (event, out))
                    | some text ↦
                        keeping G emit agent_id event
                          (langgraph_data G emit agent_id event text out)
                  ])
                out
        by_line true named o = passes-line "" out
        by_line false true o = passes-line (trim_space (trim_prefix "event:" line)) out
        by_line false false none = passes-line event out
        by_line false false (some text) =
            Handles-line event _ out (langgraph_data-Handles event text out)

    -- What one line does to the events, for each adapter.
    pub handle_line-Handles :
        (kind : Kind) (event line : String) (out : Out S)
        → HandlesLine (handle_line G emit agent_id kind event line out) out
    unfolding handle_line
    handle_line-Handles openai = data_line-Handles (openai_data G emit agent_id) openai_data-Handles
    handle_line-Handles crewai = data_line-Handles (crewai_data G emit agent_id) crewai_data-Handles
    handle_line-Handles autogen =
        data_line-Handles (autogen_data G emit agent_id) autogen_data-Handles
    handle_line-Handles langgraph = langgraph_line-Handles
    handle_line-Handles (custom m) =
        data_line-Handles (custom_data G emit agent_id m) (custom_data-Handles m)
