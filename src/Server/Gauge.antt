-- ===== src/Server/Gauge.antt =====
-- `DispatchTaskStream` of pkg/server/a2a_handler.go: that it returns, what it sends, and the gauge of the active streams.
use progo_a2a.Prelude.{
  ◌^◌, ◌<◌, ◌≤◌, String, ◌≡◌, ◌⊎◌, refl, ◌∙◌, arith, Bool, true, Option, none, some, List, [], ◌∷◌,
  Result, ok, err,
}
use progo_a2a.A2a.{A2aError, TaskRequest}
use progo_a2a.Dispatcher.{World, Dispatcher, Event, sent, streamed, retried, fell_back, Run}
use progo_a2a.Dispatcher.Fallback.{Answer}
use progo_a2a.Dispatcher.Requests.{sent_count}
use progo_a2a.Dispatcher.Routing.{budget}
use progo_a2a.Dispatcher.Outcomes.{Ended}
use progo_a2a.Dispatcher.Dispatching.{Distinct}
use progo_a2a.Dispatcher.Streaming.{Silent, Streamed}
use progo_a2a.Dispatcher.StreamDispatch.{dispatch_stream-Streamed}
use progo_a2a.Metrics.{
  Floats, Registry, Op, inc_active_streams, dec_active_streams, inc_retries, inc_fallback_triggered,
  perform, perform_all,
}
use progo_a2a.Metrics.Counters.{streams, value, perform-value}
use progo_a2a.Stream.{SseResponseWriter, new_sse_response_writer}
use progo_a2a.Server.Access.{ClientCredentials}
use progo_a2a.Server.Tasks.{Body, read_request_body, decode_body, check_access, with_id}
use progo_a2a.Server.Streams.{
  ErrorTrackingEmitter, StreamReply, refused, opened, counts_of, counted_stream, open_stream,
  stream_checked, stream_decoded, dispatch_task_stream,
}

module _ {F : Floats} where
  counts_of-streams :
      (t : List Event) (r : Registry F)
      → value streams (perform_all F (counts_of t) r) ≡ value streams r
  unfolding perform_all
  counts_of-streams [] r = refl
  counts_of-streams (sent id ∷ t) r = counts_of-streams t r
  counts_of-streams (streamed id ∷ t) r = counts_of-streams t r
  counts_of-streams (retried id ∷ t) r =
      let o : Op F = inc_retries (id ∷ []) in
      counts_of-streams t (perform F o r) ∙ perform-value streams o r
  counts_of-streams (fell_back i j ∷ t) r =
      let o : Op F = inc_fallback_triggered (i ∷ j ∷ []) in
      counts_of-streams t (perform F o r) ∙ perform-value streams o r

  -- The gauge after the operations of a stream.
  around-streams :
      (t : List Event) (r : Registry F)
      → value streams r < 2 ^ 64
      → value streams (
          perform F dec_active_streams
            (perform_all F (counts_of t) (perform F inc_active_streams r)))
        ≡ value streams r
  around-streams t r h =
      let up = perform F inc_active_streams r in
      ground (
        arith,
        h,
        perform-value streams dec_active_streams (perform_all F (counts_of t) up),
        counts_of-streams t up,
        perform-value streams inc_active_streams r,
      )

module _ {X : World} {F : Floats} where
  -- A reply before the stream is opened sends nothing and counts nothing. A stream that is opened keeps to the
  -- requests that the retries allow, passes on the events of at most one agent, and is not active in the end.
  abbrev pub IsHandled :
      Dispatcher X → Registry F → Option (StreamReply X × Run X × Registry F) → Type 0
  IsHandled d registry none = ⊥
  IsHandled d registry (some (refused e, run, after)) = (run.trace ≡ []) × (after ≡ registry)
  IsHandled d registry (some (opened r e, run, after)) =
      ((id : String) → sent_count id run.trace ≤ budget d id)
      × (Silent run ⊎ Streamed run)
      × (value streams after ≡ value streams registry)

  module _ (emitted : X.State → ErrorTrackingEmitter) (d : Dispatcher X) (registry : Registry F)
      (fits : value streams registry < 2 ^ 64) where
    counted_stream-IsHandled :
        (a : Answer X Unit)
        → Ended
            (λ r t. ((id : String) → sent_count id t.trace ≤ budget d id) × (Silent t ⊎ Streamed t))
            a
        → IsHandled d registry (counted_stream emitted registry a)
    counted_stream-IsHandled none h = h
    counted_stream-IsHandled (some (r, run)) h = (h.0, h.1, around-streams run.trace registry fits)

    open_stream-IsHandled :
        (w : X.State) (task : TaskRequest) (writer : Option SseResponseWriter)
        → Distinct d
        → IsHandled d registry (open_stream emitted d w registry task writer)
    open_stream-IsHandled w task none u = (refl, refl)
    open_stream-IsHandled w task (some writer) u =
        counted_stream-IsHandled _ (dispatch_stream-Streamed d (record task { stream = true }) w u)

    stream_checked-IsHandled :
        (flushes : Bool) (w : X.State) (task : TaskRequest) (o : Option A2aError)
        → Distinct d
        → IsHandled d registry (stream_checked emitted d flushes w registry task o)
    stream_checked-IsHandled flushes w task (some e) u = (refl, refl)
    stream_checked-IsHandled flushes w task none u =
        open_stream-IsHandled w task (new_sse_response_writer flushes) u

    stream_decoded-IsHandled :
        (creds : Option ClientCredentials) (flushes : Bool) (w : X.State)
        (r : Result A2aError TaskRequest)
        → Distinct d
        → IsHandled d registry (stream_decoded emitted d creds flushes w registry r)
    stream_decoded-IsHandled creds flushes w (err e) u = (refl, refl)
    stream_decoded-IsHandled creds flushes w (ok decoded) u =
        let (task, w') = with_id X decoded w in
        stream_checked-IsHandled flushes w' task (check_access d creds task) u

  -- `DispatchTaskStream` returns, whatever it is sent. When it refuses the request, it has sent nothing downstream and
  -- counted nothing. Otherwise it keeps to the requests that the retries of each agent allow, the client gets the events of
  -- at most one agent, and the gauge of the active streams is what it was. No two agents share an id, and the gauge has 64 bits.
  pub dispatch_task_stream-IsHandled :
      (emitted : X.State → ErrorTrackingEmitter) (decode : String → Option TaskRequest)
      (d : Dispatcher X) (creds : Option ClientCredentials) (flushes : Bool) (body : Body)
      (w : X.State) (registry : Registry F)
      → value streams registry < 2 ^ 64
      → Distinct d
      → IsHandled d registry (dispatch_task_stream emitted decode d creds flushes body w registry)
  unfolding dispatch_task_stream
  dispatch_task_stream-IsHandled emitted decode d creds flushes body w registry fits u =
      stream_decoded-IsHandled emitted d registry fits creds flushes w
        (decode_body decode (read_request_body body)) u
