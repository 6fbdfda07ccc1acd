-- ===== src/Metrics/Counters/Weights.antt =====
-- The integers of the registry of pkg/metrics/metrics.go, and what an operation adds to them.
use progo_a2a.Prelude.{
  ℕ, ◌+◌, ◌-◌, ◌%◌, ◌^◌, String, Bool, true, false, ◌&&◌, ◌||◌, not, ◌==◌, ◌∷◌, str_eq,
  if◌then◌else◌, is_empty,
}
use progo_a2a.Metrics.{
  Floats, RequestKey, DurationKey, FallbackKey, same_request, same_duration, same_fallback, entry,
  Registry, Op, inc_requests, inc_requests_total, observe_duration, observe_duration_seconds,
  inc_active_streams, dec_active_streams, inc_retries, inc_fallback_triggered, reset,
}

-- The integers that the registry keeps: the totals, and the labelled counts by their key.
pub data Counter : Type 0 where
  all_requests all_durations streams all_retries all_fallbacks : Counter
  requests_of : RequestKey → Counter
  durations_of : DurationKey → Counter
  retries_of : String → Counter
  fallbacks_of : FallbackKey → Counter

module _ {X : Floats} where
  abbrev pub is_reset : Op X → Bool
  is_reset reset = true
  is_reset _ = false

  -- What one operation does to a counter.
  abbrev pub counted : (Op X → ℕ) → Op X → ℕ → ℕ
  counted w o n = if is_reset o then 0 else if w o == 0 then n else (n + w o) % 2 ^ 64

  -- `m[k]` and the totals.
  abbrev pub value : Counter → Registry X → ℕ
  value all_requests r = r.total_requests
  value all_durations r = r.total_dur_count
  value streams r = r.active_streams
  value all_retries r = r.total_retries
  value all_fallbacks r = r.total_fallbacks
  value (requests_of key) r = entry same_request 0 key r.requests_total
  value (durations_of key) r = entry same_duration 0 key r.duration_count
  value (retries_of agent) r = entry str_eq 0 agent r.retries_total
  value (fallbacks_of key) r = entry same_fallback 0 key r.fallbacks_total

  -- What an operation adds to a counter. A stream that ends adds -1, on 64 bits.
  abbrev pub weight : Counter → Op X → ℕ
  weight all_requests (inc_requests method path status) = 1
  weight all_requests inc_requests_total = 1
  weight all_durations (observe_duration method path seconds) = 1
  weight all_durations (observe_duration_seconds seconds) = 1
  weight streams inc_active_streams = 1
  weight streams dec_active_streams = 2 ^ 64 - 1
  weight all_retries (inc_retries agents) = 1
  weight all_fallbacks (inc_fallback_triggered agents) = 1
  weight (requests_of key) (inc_requests method path status) =
      if same_request (record { method = method; path = path; status = status }) key then 1 else 0
  weight (durations_of key) (observe_duration method path seconds) =
      if same_duration (record { method = method; path = path }) key then 1 else 0
  weight (retries_of agent) (inc_retries (a ∷ _)) =
      if not (is_empty a) && str_eq a agent then 1 else 0
  weight (fallbacks_of key) (inc_fallback_triggered (a ∷ b ∷ _)) =
      if (not (is_empty a) || not (is_empty b))
        && same_fallback (record { primary_agent = a; fallback_agent = b }) key
      then 1
      else 0
  weight _ _ = 0
