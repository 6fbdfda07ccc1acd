-- ===== src/Server/Examples/Streams.antt =====
-- Streams and counted requests of pkg/server at concrete inputs.
use progo_a2a.Prelude.{ℕ, ◌+◌, ◌≡◌, refl, arith, true, some, [], ◌∷◌}
use progo_a2a.Dispatcher.{get_agent}
use progo_a2a.Adapter.Lines.{openai, translate}
use progo_a2a.Adapter.Handling.{kinds}
use progo_a2a.Adapter.Examples.{fixed}
use progo_a2a.Adapter.Examples.Streams.{count_calls, two_deltas, idle, outcome}
use progo_a2a.Metrics.{Floats, new_registry}
use progo_a2a.Adapter.Streaming.{show_int}
use progo_a2a.Server.Tasks.{read}
use progo_a2a.Server.Streams.{new_emitter, track_all, finish_stream, dispatch_task_stream}
use progo_a2a.Server.Closing.{IsClosed, translate-IsClosed}
use progo_a2a.Server.Gauge.{IsHandled, dispatch_task_stream-IsHandled}
use progo_a2a.Server.Wrapping.{header, body, metric_path, serve, new_wrapper}
use progo_a2a.Server.Examples.{two, client, task_for}

translate-IsClosed_example :
    IsClosed outcome.0 (finish_stream outcome.0 (track_all (kinds outcome.1) new_emitter)).events
translate-IsClosed_example =
    translate-IsClosed fixed count_calls "a" openai two_deltas idle refl (unfold translate in refl)

abbrev whole_seconds : Floats
whole_seconds = record { F = ℕ; zero_seconds = 0; plus = λ a b. a + b; show_seconds = show_int }

dispatch_task_stream-IsHandled_example : IsHandled two (new_registry whole_seconds) (
    dispatch_task_stream
      (λ w. new_emitter)
      (λ s. some (task_for "writer"))
      two
      (some client)
      true
      (read 2 "{}")
      0
      (new_registry whole_seconds))
dispatch_task_stream-IsHandled_example =
    dispatch_task_stream-IsHandled (λ w. new_emitter) (λ s. some (task_for "writer")) two
      (some client) true (read 2 "{}") 0 (new_registry whole_seconds)
      (unfold new_registry in omega arith) (unfold get_agent in (refl, (refl, tt)))

-- The first status is that of the response, and the pattern is counted without its method.
first_status : (serve (header 404 ∷ body "{}" ∷ header 200 ∷ []) new_wrapper).headers ≡ 404 ∷ []
unfolding serve
first_status = refl

pattern_path : metric_path "/a2a/v1/agents/x" "GET /a2a/v1/agents/{id}" ≡ "/a2a/v1/agents/{id}"
unfolding metric_path
pattern_path = refl
