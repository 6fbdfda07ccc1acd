-- ===== src/Metrics/Counts.antt =====
-- What a change of a map of counts does to its entries.
use progo_a2a.Prelude.{
  ◌≡◌, refl, ◌∙◌, arith, Bool, true, List, [], ◌∷◌, str_eq_iff, if◌then◌else◌, ◌↔◌,
}
use progo_a2a.Metrics.{
  RequestKey, DurationKey, FallbackKey, same_request, same_duration, same_fallback, entry, change,
}

module _ {K V : Type 0} (same : K → K → Bool) (same_iff : (a b : K) → (same a b ≡ true) ↔ (a ≡ b))
    (zero : V) (f : V → V) where
  pub entry-change :
      (k j : K) (m : List (K × V))
      → entry same zero j (change same zero f k m)
        ≡ (if same k j then f (entry same zero k m) else entry same zero j m)
  unfolding entry change
  entry-change k j [] = refl
  entry-change k j ((i, v) ∷ m) =
      ground (arith, same_iff k j, same_iff i k, same_iff i j, entry-change k j m)

  pub entry-change-same :
      (k : K) (m : List (K × V))
      → entry same zero k (change same zero f k m) ≡ f (entry same zero k m)
  entry-change-same k m =
      let e : same k k ≡ true = (same_iff k k).1 refl in entry-change k k m ∙ rw e refl

pub same_request_iff : (a b : RequestKey) → (same_request a b ≡ true) ↔ (a ≡ b)
same_request_iff a b = ground (arith, str_eq_iff a.method b.method, str_eq_iff a.path b.path)

pub same_duration_iff : (a b : DurationKey) → (same_duration a b ≡ true) ↔ (a ≡ b)
same_duration_iff a b = ground (arith, str_eq_iff a.method b.method, str_eq_iff a.path b.path)

pub same_fallback_iff : (a b : FallbackKey) → (same_fallback a b ≡ true) ↔ (a ≡ b)
same_fallback_iff a b = ground (
  arith,
  str_eq_iff a.primary_agent b.primary_agent,
  str_eq_iff a.fallback_agent b.fallback_agent,
)
