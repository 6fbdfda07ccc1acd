-- ===== src/Metrics/Counters.antt =====
-- What each operation of pkg/metrics/metrics.go does to each integer of the registry.
mod Weights
pub use Weights.*
use progo_a2a.Prelude.{
  ℕ, ◌+◌, ◌-◌, ◌%◌, ◌^◌, String, ◌≡◌, refl, arith, Bool, true, false, ◌&&◌, ◌||◌, not, ◌==◌, [],
  ◌∷◌, str_eq, str_eq_iff, if◌then◌else◌, is_empty,
}
use progo_a2a.Metrics.{
  Floats, RequestKey, DurationKey, FallbackKey, same_request, same_duration, same_fallback, inc_64,
  entry, change, Registry, Op, inc_requests, inc_requests_total, observe_duration,
  observe_duration_seconds, inc_active_streams, dec_active_streams, inc_retries,
  inc_fallback_triggered, reset, new_registry, label_retry, label_fallback, perform,
}
use progo_a2a.Metrics.Counts.{entry-change, same_request_iff, same_duration_iff, same_fallback_iff}

module _ {X : Floats} where
  perform-all_requests :
      (o : Op X) (r : Registry X)
      → value all_requests (perform X o r) ≡ counted (weight all_requests) o (value all_requests r)
  unfolding perform new_registry entry change label_retry label_fallback
  perform-all_requests (inc_requests method path status) r = refl
  perform-all_requests inc_requests_total r = refl
  perform-all_requests (observe_duration method path seconds) r = refl
  perform-all_requests (observe_duration_seconds seconds) r = refl
  perform-all_requests inc_active_streams r = refl
  perform-all_requests dec_active_streams r = refl
  perform-all_requests (inc_retries agents) r = refl
  perform-all_requests (inc_fallback_triggered agents) r = refl
  perform-all_requests reset r = refl

  perform-all_durations :
      (o : Op X) (r : Registry X)
      → value all_durations (perform X o r)
        ≡ counted (weight all_durations) o (value all_durations r)
  unfolding perform new_registry entry change label_retry label_fallback
  perform-all_durations (inc_requests method path status) r = refl
  perform-all_durations inc_requests_total r = refl
  perform-all_durations (observe_duration method path seconds) r = refl
  perform-all_durations (observe_duration_seconds seconds) r = refl
  perform-all_durations inc_active_streams r = refl
  perform-all_durations dec_active_streams r = refl
  perform-all_durations (inc_retries agents) r = refl
  perform-all_durations (inc_fallback_triggered agents) r = refl
  perform-all_durations reset r = refl

  perform-streams :
      (o : Op X) (r : Registry X)
      → value streams (perform X o r) ≡ counted (weight streams) o (value streams r)
  unfolding perform new_registry entry change label_retry label_fallback
  perform-streams (inc_requests method path status) r = refl
  perform-streams inc_requests_total r = refl
  perform-streams (observe_duration method path seconds) r = refl
  perform-streams (observe_duration_seconds seconds) r = refl
  perform-streams inc_active_streams r = refl
  perform-streams dec_active_streams r = refl
  perform-streams (inc_retries agents) r = refl
  perform-streams (inc_fallback_triggered agents) r = refl
  perform-streams reset r = refl

  perform-all_retries :
      (o : Op X) (r : Registry X)
      → value all_retries (perform X o r) ≡ counted (weight all_retries) o (value all_retries r)
  unfolding perform new_registry entry change label_retry label_fallback
  perform-all_retries (inc_requests method path status) r = refl
  perform-all_retries inc_requests_total r = refl
  perform-all_retries (observe_duration method path seconds) r = refl
  perform-all_retries (observe_duration_seconds seconds) r = refl
  perform-all_retries inc_active_streams r = refl
  perform-all_retries dec_active_streams r = refl
  perform-all_retries (inc_retries agents) r = refl
  perform-all_retries (inc_fallback_triggered agents) r = refl
  perform-all_retries reset r = refl

  perform-all_fallbacks :
      (o : Op X) (r : Registry X)
      → value all_fallbacks (perform X o r)
        ≡ counted (weight all_fallbacks) o (value all_fallbacks r)
  unfolding perform new_registry entry change label_retry label_fallback
  perform-all_fallbacks (inc_requests method path status) r = refl
  perform-all_fallbacks inc_requests_total r = refl
  perform-all_fallbacks (observe_duration method path seconds) r = refl
  perform-all_fallbacks (observe_duration_seconds seconds) r = refl
  perform-all_fallbacks inc_active_streams r = refl
  perform-all_fallbacks dec_active_streams r = refl
  perform-all_fallbacks (inc_retries agents) r = refl
  perform-all_fallbacks (inc_fallback_triggered agents) r = refl
  perform-all_fallbacks reset r = refl

  perform-requests_of :
      (key : RequestKey) (o : Op X) (r : Registry X)
      → value (requests_of key) (perform X o r)
        ≡ counted (weight (requests_of key)) o (value (requests_of key) r)
  unfolding perform new_registry entry change label_retry label_fallback
  perform-requests_of key (inc_requests method path status) r =
      let k : RequestKey = record { method = method; path = path; status = status } in
      ground (
        arith,
        entry-change same_request same_request_iff 0 inc_64 k key r.requests_total,
        same_request_iff k key,
      )
  perform-requests_of key inc_requests_total r = refl
  perform-requests_of key (observe_duration method path seconds) r = refl
  perform-requests_of key (observe_duration_seconds seconds) r = refl
  perform-requests_of key inc_active_streams r = refl
  perform-requests_of key dec_active_streams r = refl
  perform-requests_of key (inc_retries agents) r = refl
  perform-requests_of key (inc_fallback_triggered agents) r = refl
  perform-requests_of key reset r = refl

  perform-durations_of :
      (key : DurationKey) (o : Op X) (r : Registry X)
      → value (durations_of key) (perform X o r)
        ≡ counted (weight (durations_of key)) o (value (durations_of key) r)
  unfolding perform new_registry entry change label_retry label_fallback
  perform-durations_of key (inc_requests method path status) r = refl
  perform-durations_of key inc_requests_total r = refl
  perform-durations_of key (observe_duration method path seconds) r =
      let k : DurationKey = record { method = method; path = path } in
      ground (
        arith,
        entry-change same_duration same_duration_iff 0 inc_64 k key r.duration_count,
        same_duration_iff k key,
      )
  perform-durations_of key (observe_duration_seconds seconds) r = refl
  perform-durations_of key inc_active_streams r = refl
  perform-durations_of key dec_active_streams r = refl
  perform-durations_of key (inc_retries agents) r = refl
  perform-durations_of key (inc_fallback_triggered agents) r = refl
  perform-durations_of key reset r = refl

  perform-retries_of :
      (agent : String) (o : Op X) (r : Registry X)
      → value (retries_of agent) (perform X o r)
        ≡ counted (weight (retries_of agent)) o (value (retries_of agent) r)
  unfolding perform new_registry entry change label_retry label_fallback
  perform-retries_of agent (inc_requests method path status) r = refl
  perform-retries_of agent inc_requests_total r = refl
  perform-retries_of agent (observe_duration method path seconds) r = refl
  perform-retries_of agent (observe_duration_seconds seconds) r = refl
  perform-retries_of agent inc_active_streams r = refl
  perform-retries_of agent dec_active_streams r = refl
  perform-retries_of agent (inc_retries []) r = refl
  perform-retries_of agent (inc_retries (a ∷ _)) r =
      ground
        (arith, entry-change str_eq str_eq_iff 0 inc_64 a agent r.retries_total, str_eq_iff a agent)
  perform-retries_of agent (inc_fallback_triggered agents) r = refl
  perform-retries_of agent reset r = refl

  perform-fallbacks_of :
      (key : FallbackKey) (o : Op X) (r : Registry X)
      → value (fallbacks_of key) (perform X o r)
        ≡ counted (weight (fallbacks_of key)) o (value (fallbacks_of key) r)
  unfolding perform new_registry entry change label_retry label_fallback
  perform-fallbacks_of key (inc_requests method path status) r = refl
  perform-fallbacks_of key inc_requests_total r = refl
  perform-fallbacks_of key (observe_duration method path seconds) r = refl
  perform-fallbacks_of key (observe_duration_seconds seconds) r = refl
  perform-fallbacks_of key inc_active_streams r = refl
  perform-fallbacks_of key dec_active_streams r = refl
  perform-fallbacks_of key (inc_retries agents) r = refl
  perform-fallbacks_of key (inc_fallback_triggered []) r = refl
  perform-fallbacks_of key (inc_fallback_triggered (a ∷ [])) r = refl
  perform-fallbacks_of key (inc_fallback_triggered (a ∷ b ∷ _)) r =
      let k : FallbackKey = record { primary_agent = a; fallback_agent = b } in
      ground (
        arith,
        entry-change same_fallback same_fallback_iff 0 inc_64 k key r.fallbacks_total,
        same_fallback_iff k key,
      )
  perform-fallbacks_of key reset r = refl

  pub perform-value :
      (c : Counter) (o : Op X) (r : Registry X)
      → value c (perform X o r) ≡ counted (weight c) o (value c r)
  perform-value all_requests o r = perform-all_requests o r
  perform-value all_durations o r = perform-all_durations o r
  perform-value streams o r = perform-streams o r
  perform-value all_retries o r = perform-all_retries o r
  perform-value all_fallbacks o r = perform-all_fallbacks o r
  perform-value (requests_of key) o r = perform-requests_of key o r
  perform-value (durations_of key) o r = perform-durations_of key o r
  perform-value (retries_of agent) o r = perform-retries_of agent o r
  perform-value (fallbacks_of key) o r = perform-fallbacks_of key o r

pub new_registry-value : (X : Floats) (c : Counter) → value c (new_registry X) ≡ 0
unfolding new_registry entry
new_registry-value X all_requests = refl
new_registry-value X all_durations = refl
new_registry-value X streams = refl
new_registry-value X all_retries = refl
new_registry-value X all_fallbacks = refl
new_registry-value X (requests_of key) = refl
new_registry-value X (durations_of key) = refl
new_registry-value X (retries_of agent) = refl
new_registry-value X (fallbacks_of key) = refl
