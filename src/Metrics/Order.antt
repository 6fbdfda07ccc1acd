-- ===== src/Metrics/Order.antt =====
-- The text of pkg/metrics/metrics.go does not depend on the order in which Go reads its maps.
use progo_a2a.Prelude.{
  String, ◌≡◌, refl, ap, ◌∙◌, arith, Bool, true, List, [], ◌∷◌, ◌++◌, map, str_eq, str_eq_iff, ◌↔◌,
}
use progo_a2a.Metrics.{Floats, same_duration, entry, Registry}
use progo_a2a.Metrics.Counts.{same_duration_iff}
use progo_a2a.Metrics.Sorting.{
  sort_items, Reordered, same_order, keep_first, swap_first, in_turn, sort_items-Reordered,
  map-Reordered, less_fallback-IsOrder, less_duration, less_duration-IsOrder, less_request-IsOrder,
  str_lt-IsOrder,
}
use progo_a2a.Metrics.Gather.{
  totals_or_items, concat_map, gather, written, int_64, show_int_64, stream_head, fallback_head,
  fallback_totals, fallback_line, request_head, request_totals, request_line, duration_head,
  duration_totals, duration_line, duration_item, retry_head, retry_totals, retry_line, stream_lines,
  fallback_lines, duration_lines, request_lines, retry_lines,
}

module _ {K V : Type 0} (same : K → K → Bool)
    (same_iff : (a b : K) → (same a b ≡ true) ↔ (a ≡ b)) where
  entry-Reordered :
      {m n : List (K × V)} (zero : V) (k : K)
      → Reordered (λ p. p.0) m n
      → entry same zero k m ≡ entry same zero k n
  unfolding entry
  entry-Reordered zero k (same_order m) = refl
  entry-Reordered zero k (keep_first x r) = ground (arith, entry-Reordered zero k r)
  entry-Reordered zero k (swap_first x y m d) = ground (arith, d, same_iff x.0 k, same_iff y.0 k)
  entry-Reordered zero k (in_turn r s) = entry-Reordered zero k r ∙ entry-Reordered zero k s

module _ {K V : Type 0} where
  totals_or_items-Reordered :
      {m n : List (K × V)} {t u xs ys : List String}
      → Reordered (λ p. p.0) m n
      → t ≡ u
      → xs ≡ ys
      → totals_or_items m t xs ≡ totals_or_items n u ys
  totals_or_items-Reordered (same_order []) h e = h
  totals_or_items-Reordered (same_order (_ ∷ _)) h e = e
  totals_or_items-Reordered (keep_first x r) h e = e
  totals_or_items-Reordered (swap_first x y m d) h e = e
  totals_or_items-Reordered {t = t} {xs = xs} (in_turn r s) h e =
      totals_or_items-Reordered {t = t} {xs = xs} r refl refl ∙ totals_or_items-Reordered s h e

-- The maps of two registries hold the same items, in any orders; the totals are equal.
pub record SameItems {X : Floats} (r s : Registry X) : Type 0 where
  pub requests : Reordered (λ p. p.0) r.requests_total s.requests_total
  pub sums : Reordered (λ p. p.0) r.duration_sum s.duration_sum
  pub counts : Reordered (λ p. p.0) r.duration_count s.duration_count
  pub retries : Reordered (λ p. p.0) r.retries_total s.retries_total
  pub fallbacks : Reordered (λ p. p.0) r.fallbacks_total s.fallbacks_total
  pub same_requests : r.total_requests ≡ s.total_requests
  pub same_sum : r.total_dur_sum ≡ s.total_dur_sum
  pub same_count : r.total_dur_count ≡ s.total_dur_count
  pub same_streams : r.active_streams ≡ s.active_streams
  pub same_retries : r.total_retries ≡ s.total_retries
  pub same_fallbacks : r.total_fallbacks ≡ s.total_fallbacks

module _ {X : Floats} {r s : Registry X} (same : SameItems r s) where
  stream_lines-SameItems : stream_lines r ≡ stream_lines s
  unfolding stream_lines
  stream_lines-SameItems =
      ap (λ n. stream_head ++ show_int_64 (int_64 n) ∷ "\n" ∷ []) same.same_streams

  fallback_lines-SameItems : fallback_lines r ≡ fallback_lines s
  unfolding fallback_lines
  fallback_lines-SameItems =
      ap (λ xs. fallback_head ++ xs)
        (totals_or_items-Reordered same.fallbacks (ap fallback_totals same.same_fallbacks) (
          ap (concat_map fallback_line)
            (sort_items-Reordered less_fallback-IsOrder (λ p. p.0) same.fallbacks)))

  request_lines-SameItems : request_lines r ≡ request_lines s
  unfolding request_lines
  request_lines-SameItems =
      ap (λ xs. request_head ++ xs)
        (totals_or_items-Reordered same.requests (ap request_totals same.same_requests) (
          ap (concat_map request_line)
            (sort_items-Reordered less_request-IsOrder (λ p. p.0) same.requests)))

  same_items : map (duration_item r) r.duration_sum ≡ map (duration_item s) r.duration_sum
  same_items =
      ap (λ f. map f r.duration_sum)
        (λ i item.
          (item.0, item.1, entry-Reordered same_duration same_duration_iff 0 item.0 same.counts i))

  duration_lines-SameItems : duration_lines r ≡ duration_lines s
  unfolding duration_lines
  duration_lines-SameItems =
      ap (λ xs. duration_head ++ xs)
        (totals_or_items-Reordered same.sums
          (λ i. duration_totals X (same.same_sum i) (same.same_count i))
          (ap (concat_map (duration_line X)) (
            ap (sort_items less_duration (λ p. p.0)) same_items
            ∙ sort_items-Reordered less_duration-IsOrder (λ p. p.0)
                (map-Reordered (λ p. p.0) (λ p. p.0) (duration_item s) (λ _. refl) same.sums))))

  retry_lines-SameItems : retry_lines r ≡ retry_lines s
  unfolding retry_lines
  retry_lines-SameItems =
      ap (λ xs. retry_head ++ xs)
        (totals_or_items-Reordered same.retries (ap retry_totals same.same_retries) (λ i.
          concat_map
            (λ agent. retry_line agent (entry-Reordered str_eq str_eq_iff 0 agent same.retries i))
            (sort_items-Reordered str_lt-IsOrder (λ k. k)
              (map-Reordered (λ p. p.0) (λ k. k) (λ p. p.0) (λ _. refl) same.retries) i)))

  -- The text of the metrics does not depend on the order in which the maps of the registry are read.
  pub gather-SameItems : gather r ≡ gather s
  unfolding gather
  gather-SameItems i = written (
      stream_lines-SameItems i
      ++ fallback_lines-SameItems i
      ++ duration_lines-SameItems i
      ++ request_lines-SameItems i
      ++ retry_lines-SameItems i)
