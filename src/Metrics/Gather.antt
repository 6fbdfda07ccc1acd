-- ===== src/Metrics/Gather.antt =====
-- pkg/metrics/metrics.go: the text of the metrics.
use progo_a2a.Prelude.{
  ℕ, ◌+◌, ◌-◌, ◌^◌, ltb, String, List, [], ◌∷◌, ◌++◌, map, str_append, str_eq, str_lt,
  if◌then◌else◌,
}
use progo_a2a.Prelude.Int.{ℤ, pos, negsuc}
use progo_a2a.Adapter.Streaming.{show_int}
use progo_a2a.Metrics.{Floats, RequestKey, DurationKey, FallbackKey, same_duration, entry, Registry}
use progo_a2a.Metrics.Labels.{escape_label}
use progo_a2a.Metrics.Sorting.{sort_items, less_fallback, less_duration, less_request}

-- `int64(n)`, and `%d` of it.
abbrev pub int_64 : ℕ → ℤ
int_64 n = if ltb n (2 ^ 63) then pos n else negsuc (2 ^ 64 - 1 - n)

abbrev pub show_int_64 : ℤ → String
show_int_64 (pos n) = show_int n
show_int_64 (negsuc n) = str_append "-" (show_int (n + 1))

-- The writes to the `strings.Builder`, one after the other.
unfoldable pub written : List String → String
written [] = ""
written (s ∷ texts) = str_append s (written texts)

module _ {K V : Type 0} where
  -- Where there are no labelled items, the totals alone are written.
  abbrev pub totals_or_items : List (K × V) → List String → List String → List String
  totals_or_items [] totals items = totals
  totals_or_items (_ ∷ _) totals items = items

module _ {A : Type 0} where
  abbrev pub concat_map : (A → List String) → List A → List String
  concat_map f [] = []
  concat_map f (x ∷ xs) = f x ++ concat_map f xs

abbrev pub fallback_line : FallbackKey × ℕ → List String
fallback_line (key, count) =
    "a2a_fallback_triggered_total{fallback=\""
    ∷ escape_label key.fallback_agent
    ∷ "\",primary=\""
    ∷ escape_label key.primary_agent
    ∷ "\"} "
    ∷ show_int count
    ∷ "\n"
    ∷ []

abbrev pub stream_head : List String
stream_head =
    "# HELP a2a_active_streams Current number of active streaming connections\n"
    ∷ "# TYPE a2a_active_streams gauge\n" ∷ "a2a_active_streams " ∷ []

abbrev pub fallback_head : List String
fallback_head =
    "# HELP a2a_fallback_triggered_total Total number of fallback agent invocations triggered\n"
    ∷ "# TYPE a2a_fallback_triggered_total counter\n" ∷ []

abbrev pub fallback_totals : ℕ → List String
fallback_totals total = "a2a_fallback_triggered_total " ∷ show_int total ∷ "\n" ∷ []

abbrev pub duration_head : List String
duration_head =
    "# HELP a2a_request_duration_seconds HTTP request duration in seconds\n"
    ∷ "# TYPE a2a_request_duration_seconds summary\n" ∷ []

abbrev pub request_line : RequestKey × ℕ → List String
request_line (key, count) =
    "a2a_requests_total{method=\""
    ∷ escape_label key.method
    ∷ "\",path=\""
    ∷ escape_label key.path
    ∷ "\",status=\""
    ∷ show_int key.status
    ∷ "\"} "
    ∷ show_int count
    ∷ "\n"
    ∷ []

abbrev pub request_head : List String
request_head =
    "# HELP a2a_requests_total Total number of HTTP requests processed\n"
    ∷ "# TYPE a2a_requests_total counter\n" ∷ []

abbrev pub request_totals : ℕ → List String
request_totals total = "a2a_requests_total " ∷ show_int total ∷ "\n" ∷ []

abbrev pub retry_head : List String
retry_head =
    "# HELP a2a_retries_total Total number of downstream retries triggered\n"
    ∷ "# TYPE a2a_retries_total counter\n" ∷ []

abbrev pub retry_totals : ℕ → List String
retry_totals total = "a2a_retries_total " ∷ show_int total ∷ "\n" ∷ []

abbrev pub retry_line : String → ℕ → List String
retry_line agent count =
    "a2a_retries_total{agent_id=\"" ∷ escape_label agent ∷ "\"} " ∷ show_int count ∷ "\n" ∷ []

module _ (X : Floats) where
  abbrev pub duration_line : DurationKey × X.F × ℕ → List String
  duration_line (key, sum, count) =
      "a2a_request_duration_seconds_sum{method=\""
      ∷ escape_label key.method
      ∷ "\",path=\""
      ∷ escape_label key.path
      ∷ "\"} "
      ∷ X.show_seconds sum
      ∷ "\n"
      ∷ "a2a_request_duration_seconds_count{method=\""
      ∷ escape_label key.method
      ∷ "\",path=\""
      ∷ escape_label key.path
      ∷ "\"} "
      ∷ show_int count
      ∷ "\n"
      ∷ []

  abbrev pub duration_totals : X.F → ℕ → List String
  duration_totals total number =
      "a2a_request_duration_seconds_sum "
      ∷ X.show_seconds total
      ∷ "\n"
      ∷ "a2a_request_duration_seconds_count "
      ∷ show_int number
      ∷ "\n"
      ∷ []

module _ {X : Floats} (r : Registry X) where
  -- `GetActiveStreams`, `GetRetries` and `GetFallbackTriggered`
  abbrev pub get_active_streams : ℤ
  get_active_streams = int_64 r.active_streams

  abbrev pub get_retries : ℤ
  get_retries = int_64 r.total_retries

  abbrev pub get_fallback_triggered : ℤ
  get_fallback_triggered = int_64 r.total_fallbacks

  unfoldable pub stream_lines : List String
  stream_lines = stream_head ++ show_int_64 get_active_streams ∷ "\n" ∷ []

  unfoldable pub fallback_lines : List String
  unfolding sort_items
  fallback_lines =
      fallback_head
      ++ totals_or_items r.fallbacks_total (fallback_totals r.total_fallbacks)
          (concat_map fallback_line (sort_items less_fallback (λ p. p.0) r.fallbacks_total))

  -- An item has the count of its key beside the sum.
  abbrev pub duration_item : DurationKey × X.F → DurationKey × X.F × ℕ
  duration_item (key, sum) = (key, sum, entry same_duration 0 key r.duration_count)

  unfoldable pub duration_lines : List String
  unfolding sort_items
  duration_lines =
      duration_head
      ++ totals_or_items r.duration_sum (duration_totals X r.total_dur_sum r.total_dur_count) (
          concat_map (duration_line X)
            (sort_items less_duration (λ p. p.0) (map duration_item r.duration_sum)))

  unfoldable pub request_lines : List String
  unfolding sort_items
  request_lines =
      request_head
      ++ totals_or_items r.requests_total (request_totals r.total_requests)
          (concat_map request_line (sort_items less_request (λ p. p.0) r.requests_total))

  unfoldable pub retry_lines : List String
  unfolding sort_items
  retry_lines =
      retry_head
      ++ totals_or_items r.retries_total (retry_totals r.total_retries) (
          concat_map (λ agent. retry_line agent (entry str_eq 0 agent r.retries_total))
            (sort_items str_lt (λ k. k) (map (λ p. p.0) r.retries_total)))

  -- `Gather`
  unfoldable pub gather : String
  unfolding written stream_lines fallback_lines duration_lines request_lines retry_lines
  gather =
      written (stream_lines ++ fallback_lines ++ duration_lines ++ request_lines ++ retry_lines)
