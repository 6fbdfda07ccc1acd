-- ===== src/Adapter/Examples/Streams.antt =====
-- A stream of two deltas, over an emitter that counts.
use progo_a2a.Prelude.{ℕ, suc, String, ◌≡◌, refl, Option, none, [], ◌∷◌}
use progo_a2a.A2a.{Json, StreamEventType, task_started, token_delta, task_completed}
use progo_a2a.Adapter.Streaming.{Line, Response, StreamError, Out}
use progo_a2a.Adapter.Lines.{openai, translate}
use progo_a2a.Adapter.Handling.{kinds}
use progo_a2a.Adapter.Protocol.{IsStream, translate-IsStream}
use progo_a2a.Adapter.Examples.{fixed}

abbrev pub count_calls : StreamEventType → Json → ℕ → Option String × ℕ
count_calls kind content n = (none, suc n)

abbrev line_of : String → Line String
line_of text = record { ctx = none; line = text; scan_error = none }

abbrev pub two_deltas : Response String
two_deltas = record {
  status_code = 200;
  body = "";
  lines =
      line_of "data: {}"
      ∷ line_of ""
      ∷ line_of "data: {}"
      ∷ line_of "data: [DONE]"
      ∷ line_of "data: {}"
      ∷ [];
  last_error = none;
}

abbrev pub idle : Out ℕ
idle = record { client = 0; emitted = [] }

abbrev pub outcome : Option (StreamError String) × Out ℕ
outcome = translate fixed count_calls "a" openai two_deltas idle

in_order : kinds outcome.1 ≡ task_started ∷ token_delta ∷ token_delta ∷ task_completed ∷ []
unfolding translate
in_order = refl

translate-IsStream_example : IsStream outcome.0 (kinds outcome.1)
translate-IsStream_example = translate-IsStream fixed count_calls "a" openai two_deltas idle refl
