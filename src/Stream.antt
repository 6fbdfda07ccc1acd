-- ===== src/Stream.antt =====
-- pkg/stream/sse.go: the events of a stream as server-sent events.
pub mod Reader
mod Examples
use progo_a2a.Prelude.{
  ℕ, ◌+◌, String, Bool, true, false, Option, none, some, List, [], ◌∷◌, prepend, take_chars,
  if◌then◌else◌, Result, ok, err,
}
use progo_a2a.A2a.{
  StreamEventType, task_started, step_progress, token_delta, task_completed, task_error,
}

-- What a write of a text to the connection does: all of it is written, or a part of it and an error.
pub data Write : Type 0 where
  whole : Write
  cut : ℕ → Write

pub data EmitError : Type 0 where
  marshal_failed write_failed : EmitError

-- The writer: the headers of a stream, the text that the client has been sent, and the number of flushes.
pub record SseResponseWriter : Type 0 where
  pub header : List (String × String)
  pub status : ℕ
  pub sent : String
  pub flushes : ℕ

abbrev pub event_name : StreamEventType → String
event_name task_started = "task_started"
event_name step_progress = "step_progress"
event_name token_delta = "token_delta"
event_name task_completed = "task_completed"
event_name task_error = "task_error"

-- `fmt.Fprintf(s.w, "event: %s\ndata: %s\n\n", eventType, jsonData)`
unfoldable pub frame : StreamEventType → String → String
frame event_type json =
    prepend "event: " (prepend (event_name event_type) (prepend "\ndata: " (prepend json "\n\n")))

-- `NewSSEResponseWriter`; the argument is whether the response can be flushed.
unfoldable pub new_sse_response_writer : Bool → Option SseResponseWriter
new_sse_response_writer false = none
new_sse_response_writer true = some (record {
  header =
      ("Content-Type", "text/event-stream")
      ∷ ("Cache-Control", "no-cache")
      ∷ ("Connection", "keep-alive")
      ∷ ("X-Accel-Buffering", "no")
      ∷ [];
  status = 200;
  sent = "";
  flushes = 1;
})

-- The event's data as `json.Marshal` gives it, then what the write does.
abbrev pub emit_frame :
    Write
    → StreamEventType
    → Option String
    → SseResponseWriter
    → Result EmitError Unit × SseResponseWriter
emit_frame write event_type none s = (err marshal_failed, s)
emit_frame whole event_type (some json) s =
    (ok tt, record s { sent = prepend s.sent (frame event_type json); flushes = s.flushes + 1 })
emit_frame (cut n) event_type (some json) s =
    (err write_failed, record s { sent = prepend s.sent (take_chars n (frame event_type json)) })

-- `Emit`
unfoldable pub emit :
    {D : Type 0}
    → (D → Option String)
    → Write
    → StreamEventType
    → D
    → SseResponseWriter
    → Result EmitError Unit × SseResponseWriter
unfolding frame
emit marshal write event_type data_of s = emit_frame write event_type (marshal data_of) s
