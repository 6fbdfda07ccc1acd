-- ===== src/Metrics.antt =====
-- pkg/metrics/metrics.go: the registry of metrics. The lock and the atomic operations make each method one step. A
-- `uint64` wraps at 2 ^ 64, and an `int64` is its two's complement. `float64` is a type with an addition.
pub mod Counts
pub mod Counters
pub mod Tally
pub mod Labels
pub mod Sorting
pub mod Gather
pub mod Order
mod Examples
use progo_a2a.Prelude.{
  ℕ, ◌+◌, ◌-◌, ◌%◌, ◌^◌, String, ◌≡◌, refl, Bool, ◌&&◌, ◌||◌, not, ◌==◌, List, [], ◌∷◌, str_eq,
  is_empty, if◌then◌else◌,
}

-- The numbers of the durations: `float64`, 0, the addition, and `%.6f`.
pub record Floats : Type 1 where
  pub F : Type 0
  pub zero_seconds : F
  pub plus : F → F → F
  pub show_seconds : F → String

pub record RequestKey : Type 0 where
  pub method : String
  pub path : String
  pub status : ℕ

pub record DurationKey : Type 0 where
  pub method : String
  pub path : String

pub record FallbackKey : Type 0 where
  pub primary_agent : String
  pub fallback_agent : String

-- `==` on the keys.
abbrev pub same_request : RequestKey → RequestKey → Bool
same_request a b = str_eq a.method b.method && str_eq a.path b.path && a.status == b.status

abbrev pub same_duration : DurationKey → DurationKey → Bool
same_duration a b = str_eq a.method b.method && str_eq a.path b.path

abbrev pub same_fallback : FallbackKey → FallbackKey → Bool
same_fallback a b =
    str_eq a.primary_agent b.primary_agent && str_eq a.fallback_agent b.fallback_agent

-- `n++` and `n--` on 64 bits.
abbrev pub inc_64 : ℕ → ℕ
inc_64 n = (n + 1) % 2 ^ 64

abbrev pub dec_64 : ℕ → ℕ
dec_64 n = (n + (2 ^ 64 - 1)) % 2 ^ 64

module _ {K V : Type 0} (same : K → K → Bool) where
  -- `m[k]`, with the zero value of a missing key.
  unfoldable pub entry : V → K → List (K × V) → V
  entry zero k [] = zero
  entry zero k ((j, v) ∷ m) = if same j k then v else entry zero k m

  -- `m[k] = f(m[k])`
  unfoldable pub change : V → (V → V) → K → List (K × V) → List (K × V)
  change zero f k [] = (k, f zero) ∷ []
  change zero f k ((j, v) ∷ m) =
      let rest = change zero f k m in if same j k then (j, f v) ∷ m else (j, v) ∷ rest

pub record Registry (X : Floats) : Type 0 where
  pub requests_total : List (RequestKey × ℕ)
  pub total_requests : ℕ
  pub duration_sum : List (DurationKey × X.F)
  pub duration_count : List (DurationKey × ℕ)
  pub total_dur_sum : X.F
  pub total_dur_count : ℕ
  pub active_streams : ℕ
  pub retries_total : List (String × ℕ)
  pub total_retries : ℕ
  pub fallbacks_total : List (FallbackKey × ℕ)
  pub total_fallbacks : ℕ

-- The methods that write. The arguments of `IncRetries` and `IncFallbackTriggered` are variadic.
pub data Op (X : Floats) : Type 0 where
  inc_requests : String → String → ℕ → Op X
  inc_requests_total : Op X
  observe_duration : String → String → X.F → Op X
  observe_duration_seconds : X.F → Op X
  inc_active_streams dec_active_streams : Op X
  inc_retries : List String → Op X
  inc_fallback_triggered : List String → Op X
  reset : Op X

module _ (X : Floats) where
  -- `NewRegistry`
  unfoldable pub new_registry : Registry X
  new_registry = record {
    requests_total = [];
    total_requests = 0;
    duration_sum = [];
    duration_count = [];
    total_dur_sum = X.zero_seconds;
    total_dur_count = 0;
    active_streams = 0;
    retries_total = [];
    total_retries = 0;
    fallbacks_total = [];
    total_fallbacks = 0;
  }

  -- The labelled counts of `IncRetries` and `IncFallbackTriggered`.
  unfoldable pub label_retry : List String → List (String × ℕ) → List (String × ℕ)
  unfolding change
  label_retry [] m = m
  label_retry (agent ∷ _) m = if is_empty agent then m else change str_eq 0 inc_64 agent m

  unfoldable pub label_fallback : List String → List (FallbackKey × ℕ) → List (FallbackKey × ℕ)
  unfolding change
  label_fallback (a ∷ b ∷ _) m =
      if not (is_empty a) || not (is_empty b)
      then change same_fallback 0 inc_64 (record { primary_agent = a; fallback_agent = b }) m
      else m
  label_fallback _ m = m

  unfoldable pub perform : Op X → Registry X → Registry X
  unfolding change label_retry label_fallback new_registry
  perform (inc_requests method path status) r =
      let key : RequestKey = record { method = method; path = path; status = status } in
      record r {
        requests_total = change same_request 0 inc_64 key r.requests_total;
        total_requests = inc_64 r.total_requests;
      }
  perform inc_requests_total r = record r { total_requests = inc_64 r.total_requests }
  perform (observe_duration method path seconds) r =
      let key : DurationKey = record { method = method; path = path } in
      record r {
        duration_sum =
            change same_duration X.zero_seconds (λ sum. X.plus sum seconds) key r.duration_sum;
        duration_count = change same_duration 0 inc_64 key r.duration_count;
        total_dur_sum = X.plus r.total_dur_sum seconds;
        total_dur_count = inc_64 r.total_dur_count;
      }
  perform (observe_duration_seconds seconds) r = record r {
    total_dur_sum = X.plus r.total_dur_sum seconds;
    total_dur_count = inc_64 r.total_dur_count;
  }
  perform inc_active_streams r = record r { active_streams = inc_64 r.active_streams }
  perform dec_active_streams r = record r { active_streams = dec_64 r.active_streams }
  perform (inc_retries agents) r = record r {
    retries_total = label_retry agents r.retries_total;
    total_retries = inc_64 r.total_retries;
  }
  perform (inc_fallback_triggered agents) r = record r {
    fallbacks_total = label_fallback agents r.fallbacks_total;
    total_fallbacks = inc_64 r.total_fallbacks;
  }
  perform reset r = new_registry

  unfoldable pub perform_all : List (Op X) → Registry X → Registry X
  unfolding perform
  perform_all [] r = r
  perform_all (o ∷ ops) r = perform_all ops (perform o r)
