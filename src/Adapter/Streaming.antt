-- ===== src/Adapter/Streaming.antt =====
-- The frame that the five methods `TranslateStream` of pkg/adapter share: the events are those of the `Emitter` of
-- pkg/stream/emitter.go, and the lines those of a `bufio.Scanner`.
use progo_a2a.Prelude.{
  ℕ, zero, suc, ◌/◌, ◌%◌, String, Option, none, some, List, [], ◌∷◌, ◌++◌, ltb, leb, is_empty,
  trim_space, str_append, if◌then◌else◌,
}
use progo_a2a.A2a.{Json, StreamEventType, task_started, task_completed, task_error}
use progo_a2a.Dispatcher.{CtxError}
use progo_a2a.Adapter.{pair, single}

pick : ℕ → List String → String
pick n [] = ""
pick zero (x ∷ xs) = x
pick (suc n) (x ∷ xs) = pick n xs

unfoldable pub show_digit : ℕ → String
unfolding pick
show_digit n = pick n ("0" ∷ "1" ∷ "2" ∷ "3" ∷ "4" ∷ "5" ∷ "6" ∷ "7" ∷ "8" ∷ "9" ∷ [])

-- `%d`; the fuel is more than there are digits.
unfoldable pub show_digits : ℕ → ℕ → String
unfolding show_digit
show_digits zero n = ""
show_digits (suc fuel) n =
    let rest = show_digits fuel (n / 10) in
    let digit = show_digit (n % 10) in if ltb n 10 then digit else str_append rest digit

abbrev pub show_int : ℕ → String
show_int n = show_digits (suc n) n

-- One line of the body: what `ctx.Done()` tells when it is read, and `scanner.Err()` after it.
pub record Line (E : Type 0) : Type 0 where
  pub ctx : Option CtxError
  pub line : String
  pub scan_error : Option E

-- A downstream response: its status, the text that `io.ReadAll` gets of its body, or its lines and
-- `scanner.Err()` at their end.
pub record Response (E : Type 0) : Type 0 where
  pub status_code : ℕ
  pub body : String
  pub lines : List (Line E)
  pub last_error : Option E

pub data StreamError (E : Type 0) : Type 0 where
  upstream_status : ℕ → String → StreamError E
  stream_error : String → StreamError E
  context_done : CtxError → StreamError E
  scan_failed emit_failed : E → StreamError E

-- What the emitter has been called with, and its state.
pub record Out (S : Type 0) : Type 0 where
  pub client : S
  pub emitted : List (StreamEventType × Json)

-- What follows a line: the next one, the end of the loop by `break` or after the last line, or the return of an error.
pub data Control (E : Type 0) : Type 0 where
  next : Control E
  finish : Control E
  stop_with : StreamError E → Control E

-- The text of an upstream status.
abbrev pub upstream_text : ℕ → String → String
upstream_text status body =
    str_append "upstream returned status " (str_append (show_int status) (str_append ": " body))

module _ {S E : Type 0} (emit : StreamEventType → Json → S → Option E × S) where
  -- `emitter.Emit`
  unfoldable pub emit_event : StreamEventType → Json → Out S → Option E × Out S
  emit_event kind data_of out =
      let (failed, client) = emit kind data_of out.client in
      (failed, record { client = client; emitted = out.emitted ++ ((kind, data_of) ∷ []) })

  -- `if err := emitter.Emit(...); err != nil { return err }`
  unfoldable pub emit_or_stop : StreamEventType → Json → Out S → Control E × Out S
  unfolding emit_event
  emit_or_stop kind data_of out =
      let (failed, out) = emit_event kind data_of out in
      (elim failed [ none ↦ next | some e ↦ stop_with (emit_failed e) ], out)

  -- An error of the stream: the event, whose own error is dropped, and the return.
  unfoldable pub emit_error : String → String → Out S → Control E × Out S
  unfolding emit_event
  emit_error agent_id message out =
      let text = if is_empty message then "unknown stream error" else message in
      let (_, out) =
        emit_event task_error (pair "error" (Json.text text) "agent_id" (Json.text agent_id)) out in
      (stop_with (stream_error text), out)

  -- The loop over the lines; `handle` is its body after the trim, with the variable `currentEvent`. The error is
  -- what `scanner.Err()` gives after the loop.
  unfoldable pub scan_lines :
      (String → String → Out S → Control E × (String × Out S))
      → Option E
      → List (Line E)
      → String
      → Out S
      → Option (StreamError E) × Out S
  scan_lines handle at_end [] event out =
      (elim at_end [ none ↦ none | some e ↦ some (scan_failed e) ], out)
  scan_lines handle at_end (l ∷ lines) event out = elim l.ctx [
    | some c ↦ (some (context_done c), out)
    | none ↦
        let (control, (event, out)) = handle event (trim_space l.line) out in
        elim control [
          | next ↦ scan_lines handle at_end lines event out
          | finish ↦ (elim l.scan_error [ none ↦ none | some e ↦ some (scan_failed e) ], out)
          | stop_with e ↦ (some e, out)
        ]
  ]

  -- The end of a stream.
  unfoldable pub complete_stream : Option (StreamError E) → Out S → Option (StreamError E) × Out S
  unfolding emit_event
  complete_stream (some e) out = (some e, out)
  complete_stream none out =
      let (failed, out) = emit_event task_completed (single "status" (Json.text "completed")) out in
      (elim failed [ none ↦ none | some e ↦ some (emit_failed e) ], out)

  unfoldable pub scan_started :
      (String → String → Out S → Control E × (String × Out S))
      → Response E
      → Option E
      → Out S
      → Option (StreamError E) × Out S
  unfolding scan_lines complete_stream
  scan_started handle resp (some e) out = (some (emit_failed e), out)
  scan_started handle resp none out =
      let (failed, out) = scan_lines handle resp.last_error resp.lines "" out in
      complete_stream failed out

  -- `TranslateStream`, for an agent, a response and an emitter that are not nil.
  unfoldable pub translate_stream :
      (String → String → Out S → Control E × (String × Out S))
      → String
      → Response E
      → Out S
      → Option (StreamError E) × Out S
  unfolding emit_event scan_started
  translate_stream handle agent_id resp out =
      let text = upstream_text resp.status_code resp.body in
      let (_, refused) =
        emit_event task_error (pair "error" (Json.text text) "agent_id" (Json.text agent_id)) out in
      let (failed, started) =
        emit_event task_started (single "agent_id" (Json.text agent_id)) out in
      if leb 400 resp.status_code
      then (some (upstream_status resp.status_code resp.body), refused)
      else scan_started handle resp failed started
