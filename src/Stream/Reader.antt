-- ===== src/Stream/Reader.antt =====
-- A reader of server-sent events, and what it reads of the events that pkg/stream/sse.go emits.
use Prim.Native.Char.{Char, code}
use mathlib.Core.List.{append_assoc, append-nil}
use progo_a2a.Prelude.{
  String, ◌≡◌, refl, sym, ap, ◌∙◌, arith, true, false, ◌&&◌, not, Option, none, some, List, [], ◌∷◌,
  ◌++◌, ◌==◌, prepend, prepend_assoc, prepend-nil, is_prefix, after, is_empty, str_all,
  if◌then◌else◌,
}
use progo_a2a.A2a.{
  StreamEventType, task_started, step_progress, token_delta, task_completed, task_error,
}
use progo_a2a.Stream.{whole, SseResponseWriter, event_name, frame, emit, emit_frame}

-- The line that is being read, and the event and the data of the lines before.
pub record Reader : Type 0 where
  pub line : String
  pub event : String
  pub text : String

abbrev pub start : Reader
start = record { line = String.[]; event = String.[]; text = String.[] }

-- The end of a line: a field of the event, or, for an empty line, the end of the event.
abbrev pub end_line : Reader → Reader
end_line r =
    if is_empty r.line
    then start
    else if is_prefix "event: " r.line
    then record r { line = String.[]; event = after "event: " r.line }
    else if is_prefix "data: " r.line
    then record r { line = String.[]; text = after "data: " r.line }
    else record r { line = String.[] }

abbrev pub read_char : Char → Reader → Reader
read_char c r =
    if code c == 10 then end_line r else record r { line = prepend r.line (String.◌∷◌ c String.[]) }

-- An event is dispatched by an empty line, when it has data.
abbrev pub dispatched : Char → Reader → List (String × String)
dispatched c r =
    if code c == 10 && is_empty r.line && not (is_empty r.text) then (r.event, r.text) ∷ [] else []

unfoldable pub read_events : Reader → String → List (String × String)
unfolding is_prefix after
read_events r String.[] = []
read_events r (String.◌∷◌ c s) = let rest = read_events (read_char c r) s in dispatched c r ++ rest

-- A text without line ends.
abbrev pub IsLine : String → Type 0
IsLine s = str_all (λ c. not (c == 10)) s ≡ true

read_events-IsLine :
    (s rest : String) (r : Reader)
    → IsLine s
    → read_events r (prepend s rest) ≡ read_events (record r { line = prepend r.line s }) rest
unfolding read_events str_all
read_events-IsLine String.[] rest r h =
    ap (λ l. read_events (record r { line = l }) rest) (sym (prepend-nil r.line))
read_events-IsLine (String.◌∷◌ c s) rest r h =
    let plain : code c == 10 ≡ false = ground (arith, h) in
    let more : IsLine s = ground (arith, h) in
    rw plain (
      read_events-IsLine s rest (record r { line = prepend r.line (String.◌∷◌ c String.[]) }) more
      ∙ ap (λ l. read_events (record r { line = l }) rest)
          (prepend_assoc r.line (String.◌∷◌ c String.[]) s))

-- The line of the data, and the empty line.
read_events-data :
    (event json rest : String)
    → IsLine json
    → is_empty json ≡ false
    → read_events
        (record { line = "data: "; event = event; text = String.[] })
        (prepend (prepend json "\n\n") rest)
      ≡ (event, json) ∷ read_events start rest
unfolding read_events
read_events-data event json rest h full =
    ap (read_events (record { line = "data: "; event = event; text = String.[] }))
      (prepend_assoc json "\n\n" rest)
    ∙ read_events-IsLine json (prepend "\n\n" rest)
        (record { line = "data: "; event = event; text = String.[] }) h
    ∙ rw full refl

read_events-frame :
    (t : StreamEventType) (json rest : String)
    → IsLine json
    → is_empty json ≡ false
    → read_events start (prepend (frame t json) rest)
      ≡ (event_name t, json) ∷ read_events start rest
unfolding read_events frame
read_events-frame task_started json rest h full = read_events-data _ json rest h full
read_events-frame step_progress json rest h full = read_events-data _ json rest h full
read_events-frame token_delta json rest h full = read_events-data _ json rest h full
read_events-frame task_completed json rest h full = read_events-data _ json rest h full
read_events-frame task_error json rest h full = read_events-data _ json rest h full

-- `json.Marshal` writes a value on one line, and writes something.
pub record IsMarshal {D : Type 0} (marshal : D → Option String) : Type 0 where
  pub one_line : (d : D) (json : String) → marshal d ≡ some json → IsLine json
  pub filled : (d : D) (json : String) → marshal d ≡ some json → is_empty json ≡ false

module _ {D : Type 0} (marshal : D → Option String) where
  -- The calls of `Emit`, whose writes succeed.
  abbrev pub emit_all : List (StreamEventType × D) → SseResponseWriter → SseResponseWriter
  emit_all [] s = s
  emit_all ((t, d) ∷ calls) s = emit_all calls (emit marshal whole t d s).1

  -- The events of those calls whose data can be marshaled.
  abbrev named : StreamEventType → Option String → List (String × String)
  named t none = []
  named t (some json) = (event_name t, json) ∷ []

  abbrev pub marshaled : List (StreamEventType × D) → List (String × String)
  marshaled [] = []
  marshaled ((t, d) ∷ calls) = named t (marshal d) ++ marshaled calls

  -- What is sent is a text that the reader reads as given events, with any text behind it.
  abbrev Reads : SseResponseWriter → List (String × String) → Type 0
  Reads s events =
      (rest : String) → read_events start (prepend s.sent rest) ≡ events ++ read_events start rest

  module _ (law : IsMarshal marshal) where
    emit_frame-Reads :
        (t : StreamEventType) (d : D) (o : Option String) (s : SseResponseWriter)
        (events : List (String × String))
        → marshal d ≡ o
        → Reads s events
        → Reads (emit_frame whole t o s).1 (events ++ named t o)
    emit_frame-Reads t d none s events p h rest =
        h rest ∙ ap (λ xs. xs ++ read_events start rest) (sym (append-nil events))
    emit_frame-Reads t d (some json) s events p h rest =
        ap (read_events start) (prepend_assoc s.sent (frame t json) rest)
        ∙ h (prepend (frame t json) rest)
        ∙ ap (λ xs. events ++ xs)
            (read_events-frame t json rest (law.one_line d json p) (law.filled d json p))
        ∙ sym (append_assoc events ((event_name t, json) ∷ []) (read_events start rest))

    emit_all-Reads :
        (calls : List (StreamEventType × D)) (s : SseResponseWriter)
        (events : List (String × String))
        → Reads s events
        → Reads (emit_all calls s) (events ++ marshaled calls)
    unfolding emit
    emit_all-Reads [] s events h rest =
        h rest ∙ ap (λ xs. xs ++ read_events start rest) (sym (append-nil events))
    emit_all-Reads ((t, d) ∷ calls) s events h rest =
        emit_all-Reads calls (emit marshal whole t d s).1 (events ++ named t (marshal d))
          (emit_frame-Reads t d (marshal d) s events refl h) rest
        ∙ ap (λ xs. xs ++ read_events start rest)
            (append_assoc events (named t (marshal d)) (marshaled calls))

    -- A reader of server-sent events reads off a stream exactly the events that were emitted, in their order, each with
    -- its type and its data, and then whatever follows: the writes succeed, and JSON is one line that is not empty.
    -- An event whose data has no JSON is left out.
    pub read_events-emit_all :
        (calls : List (StreamEventType × D)) (s : SseResponseWriter) (rest : String)
        → s.sent ≡ ""
        → read_events start (prepend (emit_all calls s).sent rest)
          ≡ marshaled calls ++ read_events start rest
    read_events-emit_all calls s rest h = emit_all-Reads calls s [] (λ t. rw h refl) rest
