-- ===== src/Metrics/Tally.antt =====
-- The counters of pkg/metrics/metrics.go against the operations that have been made.
use progo_a2a.Prelude.{ℕ, ◌+◌, ◌%◌, ◌^◌, ◌≡◌, arith, List, [], ◌∷◌, if◌then◌else◌}
use progo_a2a.Metrics.{Floats, Registry, Op, new_registry, perform, perform_all}
use progo_a2a.Metrics.Counters.{
  Counter, is_reset, counted, value, weight, perform-value, new_registry-value,
}

module _ {X : Floats} where
  -- The sum of the weights of the operations since the last reset.
  abbrev pub total_of : (Op X → ℕ) → List (Op X) → ℕ → ℕ
  total_of w [] n = n
  total_of w (o ∷ ops) n = total_of w ops (if is_reset o then 0 else n + w o)

  module _ (w : Op X → ℕ) (read : Registry X → ℕ)
      (counts : (o : Op X) (r : Registry X) → read (perform X o r) ≡ counted w o (read r)) where
    counts_from :
        (ops : List (Op X)) (r : Registry X) (n : ℕ)
        → read r ≡ n % 2 ^ 64
        → read (perform_all X ops r) ≡ total_of w ops n % 2 ^ 64
    unfolding perform_all
    counts_from [] r n h = h
    counts_from (o ∷ ops) r n h =
        counts_from ops (perform X o r) (if is_reset o then 0 else n + w o)
          (ground (arith, counts o r, h))

  -- After any operations on a new registry, every counter (the totals, the active streams, and the labelled counts
  -- of each key) is the sum, modulo 2 ^ 64, of what the operations since the last `Reset` add to it: labelled
  -- requests count under their method, path and status, and retries and fallbacks with empty labels only in total.
  pub perform_all-total_of :
      (c : Counter) (ops : List (Op X))
      → value c (perform_all X ops (new_registry X)) ≡ total_of (weight c) ops 0 % 2 ^ 64
  perform_all-total_of c ops =
      counts_from (weight c) (value c) (perform-value c) ops (new_registry X) 0
        (new_registry-value X c)
