-- ===== src/Server/Streams.antt =====
-- pkg/server/stream_emitter.go and `DispatchTaskStream` of pkg/server/a2a_handler.go, over the dispatcher and
-- the registry of metrics.
use progo_a2a.Prelude.{
  String, Bool, true, false, ◌&&◌, ◌||◌, not, Option, none, some, List, [], ◌∷◌, ◌++◌, is_some,
  Result, ok, err, if◌then◌else◌,
}
use progo_a2a.A2a.{A2aError, TaskRequest, StreamEventType, task_error, stream_unsupported}
use progo_a2a.Dispatcher.{World, Dispatcher, Event, sent, streamed, retried, fell_back, Run, Failed}
use progo_a2a.Dispatcher.Fallback.{Answer, dispatch_stream, new_run}
use progo_a2a.Metrics.{
  Floats, Registry, Op, inc_active_streams, dec_active_streams, inc_retries, inc_fallback_triggered,
  perform, perform_all,
}
use progo_a2a.Stream.{SseResponseWriter, new_sse_response_writer}
use progo_a2a.Server.Access.{ClientCredentials, refusal}
use progo_a2a.Server.Tasks.{Body, read_request_body, decode_body, check_access, with_id}

-- `errorTrackingEmitter`, with the events that it has been called with.
pub record ErrorTrackingEmitter : Type 0 where
  pub events : List StreamEventType
  pub error_emitted : Bool

abbrev pub new_emitter : ErrorTrackingEmitter
new_emitter = record { events = []; error_emitted = false }

abbrev pub is_task_error : StreamEventType → Bool
is_task_error task_error = true
is_task_error _ = false

-- Its `Emit`.
abbrev pub track : StreamEventType → ErrorTrackingEmitter → ErrorTrackingEmitter
track event_type e = record {
  events = e.events ++ event_type ∷ [];
  error_emitted = is_task_error event_type || e.error_emitted;
}

unfoldable pub track_all : List StreamEventType → ErrorTrackingEmitter → ErrorTrackingEmitter
track_all [] e = e
track_all (t ∷ ts) e = track_all ts (track t e)

-- The error of a dispatch ends the stream with an event, unless there is one.
abbrev pub finish_stream : {E : Type 0} → Option E → ErrorTrackingEmitter → ErrorTrackingEmitter
finish_stream failed e = if is_some failed && not e.error_emitted then track task_error e else e

-- The reply before the stream is opened, or the result of the stream's dispatch and the events of the stream.
pub data StreamReply (X : World) : Type 0 where
  refused : A2aError → StreamReply X
  opened : Result (Failed X) Unit → ErrorTrackingEmitter → StreamReply X

module _ {F : Floats} where
  -- What the dispatcher counts.
  abbrev pub counts_of : List Event → List (Op F)
  counts_of [] = []
  counts_of (sent id ∷ t) = counts_of t
  counts_of (streamed id ∷ t) = counts_of t
  counts_of (retried id ∷ t) = inc_retries (id ∷ []) ∷ counts_of t
  counts_of (fell_back i j ∷ t) = inc_fallback_triggered (i ∷ j ∷ []) ∷ counts_of t

-- The error of a result.
abbrev pub failure_of : {E A : Type 0} → Result E A → Option E
failure_of (ok a) = none
failure_of (err e) = some e

-- `emitted` is the emitter in a state of the world, after the calls of the adapters.
module _ {X : World} {F : Floats} (emitted : X.State → ErrorTrackingEmitter) where
  -- From the opening of the stream: the gauge goes up before the dispatch, and down when the handler returns.
  abbrev pub counted_stream :
      Registry F → Answer X Unit → Option (StreamReply X × Run X × Registry F)
  counted_stream registry none = none
  counted_stream registry (some (r, run)) = some (
    opened r (finish_stream (failure_of r) (emitted run.world)),
    run,
    perform F dec_active_streams
        (perform_all F (counts_of run.trace) (perform F inc_active_streams registry)),
  )

  abbrev pub open_stream :
      Dispatcher X
      → X.State
      → Registry F
      → TaskRequest
      → Option SseResponseWriter
      → Option (StreamReply X × Run X × Registry F)
  open_stream d w registry task none =
      some (refused (refusal stream_unsupported task.agent_id 500), new_run w, registry)
  open_stream d w registry task (some writer) =
      counted_stream registry (dispatch_stream d (some (record task { stream = true })) w)

  abbrev pub stream_checked :
      Dispatcher X
      → Bool
      → X.State
      → Registry F
      → TaskRequest
      → Option A2aError
      → Option (StreamReply X × Run X × Registry F)
  stream_checked d flushes w registry task (some e) = some (refused e, new_run w, registry)
  stream_checked d flushes w registry task none =
      open_stream d w registry task (new_sse_response_writer flushes)

  abbrev pub stream_decoded :
      Dispatcher X
      → Option ClientCredentials
      → Bool
      → X.State
      → Registry F
      → Result A2aError TaskRequest
      → Option (StreamReply X × Run X × Registry F)
  stream_decoded d creds flushes w registry (err e) = some (refused e, new_run w, registry)
  stream_decoded d creds flushes w registry (ok decoded) =
      let (task, w') = with_id X decoded w in
      stream_checked d flushes w' registry task (check_access d creds task)

  -- `DispatchTaskStream`; `none` is a dispatch out of fuel.
  unfoldable pub dispatch_task_stream :
      (String → Option TaskRequest)
      → Dispatcher X
      → Option ClientCredentials
      → Bool
      → Body
      → X.State
      → Registry F
      → Option (StreamReply X × Run X × Registry F)
  unfolding read_request_body check_access new_sse_response_writer dispatch_stream perform
      perform_all
  dispatch_task_stream decode d creds flushes body w registry =
      stream_decoded d creds flushes w registry (decode_body decode (read_request_body body))
