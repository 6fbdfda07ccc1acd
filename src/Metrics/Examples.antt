-- ===== src/Metrics/Examples.antt =====
-- Registries of pkg/metrics/metrics.go at concrete operations.
use progo_a2a.Prelude.{
  ℕ, ◌+◌, ◌%◌, ◌^◌, String, ◌≡◌, ◌≢◌, refl, sym, ap, prepend, arith, List, [], ◌∷◌, some,
}
use progo_a2a.Prelude.Int.{negsuc}
use progo_a2a.Adapter.Streaming.{show_int}
use progo_a2a.Metrics.{
  Floats, RequestKey, Registry, Op, inc_active_streams, dec_active_streams, inc_retries, reset,
  new_registry, perform_all, perform,
}
use progo_a2a.Metrics.Counters.{retries_of, streams, value, weight}
use progo_a2a.Metrics.Tally.{total_of, perform_all-total_of}
use progo_a2a.Metrics.Labels.{escape_label, read_label, read_label-escape_label}
use progo_a2a.Metrics.Sorting.{same_order, swap_first}
use progo_a2a.Metrics.Gather.{gather, int_64}
use progo_a2a.Metrics.Order.{SameItems, gather-SameItems}

-- Whole seconds for the durations.
abbrev seconds : Floats
seconds = record { F = ℕ; zero_seconds = 0; plus = λ a b. a + b; show_seconds = show_int }

abbrev some_ops : List (Op seconds)
some_ops =
    inc_retries ("a" ∷ [])
    ∷ inc_active_streams
    ∷ reset
    ∷ inc_retries ("a" ∷ [])
    ∷ inc_retries ("" ∷ [])
    ∷ inc_retries ("b" ∷ [])
    ∷ dec_active_streams
    ∷ inc_retries ("a" ∷ "c" ∷ [])
    ∷ []

perform_all-total_of_example :
    value (retries_of "a") (perform_all seconds some_ops (new_registry seconds))
    ≡ total_of (weight (retries_of "a")) some_ops 0 % 2 ^ 64
perform_all-total_of_example = perform_all-total_of (retries_of "a") some_ops

two_retries : total_of (weight {X = seconds} (retries_of "a")) some_ops 0 ≡ 2
two_retries = refl

minus_one : int_64 (value streams (perform_all seconds some_ops (new_registry seconds))) ≡ negsuc 0
unfolding perform_all perform new_registry
minus_one = refl

read_label-escape_label_example :
    read_label (prepend (escape_label "a\"b\\c\nd") (String.◌∷◌ "\"" ",x"))
    ≡ some ("a\"b\\c\nd", ",x")
read_label-escape_label_example = read_label-escape_label "a\"b\\c\nd" ",x"

abbrev get_key : RequestKey
get_key = record { method = "GET"; path = "/"; status = 200 }

abbrev post_key : RequestKey
post_key = record { method = "POST"; path = "/"; status = 500 }

abbrev with_requests : List (RequestKey × ℕ) → Registry seconds
unfolding new_registry
with_requests m = record (new_registry seconds) { requests_total = m; total_requests = 5 }

get≢post : get_key ≢ post_key
get≢post e = ground (arith, ap (λ k. k.status) e)

read_twice :
    SameItems
      (with_requests ((post_key, 2) ∷ (get_key, 3) ∷ []))
      (with_requests ((get_key, 3) ∷ (post_key, 2) ∷ []))
unfolding new_registry
read_twice = record {
  requests = swap_first (post_key, 2) (get_key, 3) [] (λ e. get≢post (sym e));
  sums = same_order [];
  counts = same_order [];
  retries = same_order [];
  fallbacks = same_order [];
  same_requests = refl;
  same_sum = refl;
  same_count = refl;
  same_streams = refl;
  same_retries = refl;
  same_fallbacks = refl;
}

gather-SameItems_example :
    gather (with_requests ((post_key, 2) ∷ (get_key, 3) ∷ []))
    ≡ gather (with_requests ((get_key, 3) ∷ (post_key, 2) ∷ []))
gather-SameItems_example = gather-SameItems read_twice
