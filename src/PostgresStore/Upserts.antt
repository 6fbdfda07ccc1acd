-- ===== src/PostgresStore/Upserts.antt =====
-- The rows that an upsert of pkg/storage/postgres.go leaves.
use progo_a2a.Prelude.{
  ℕ, String, ◌≡◌, refl, arith, false, Option, none, some, List, [], ◌∷◌, find, str_eq, str_eq_iff,
  if◌then◌else◌,
}
use progo_a2a.TaskStore.{contains}
use progo_a2a.TaskStore.Order.{AllDistinct}
use progo_a2a.PostgresStore.{ResultRow, has_duplicate, upsert_row, upsert_all}

-- The row of a key.
abbrev pub row_of : String → List ResultRow → Option ResultRow
row_of k rows = find (λ r. str_eq r.lookup_id k) rows

abbrev pub created_or : ℕ → Option ResultRow → ℕ
created_or now none = now
created_or now (some r) = r.created_at

-- The row that a key gets: a new one, which keeps the time at which the key was first stored.
abbrev pub renewed : ResultRow → List ResultRow → ResultRow
renewed new rows = record new { created_at = created_or new.created_at (row_of new.lookup_id rows) }

row_of-upsert_row :
    (new : ResultRow) (j : String) (rows : List ResultRow)
    → row_of j (upsert_row new rows)
      ≡ (if str_eq new.lookup_id j then some (renewed new rows) else row_of j rows)
unfolding upsert_row
row_of-upsert_row new j [] = refl
row_of-upsert_row new j (r ∷ rows) = ground (
  arith,
  str_eq_iff new.lookup_id j,
  str_eq_iff r.lookup_id j,
  str_eq_iff r.lookup_id new.lookup_id,
  row_of-upsert_row new j rows,
)

pub AllDistinct-has_duplicate : (keys : List String) → AllDistinct keys → has_duplicate keys ≡ false
unfolding has_duplicate
AllDistinct-has_duplicate [] d = refl
AllDistinct-has_duplicate (k ∷ keys) d = rw d.0 (AllDistinct-has_duplicate keys d.1)

module _ (row : String → ResultRow) (named : (k : String) → (row k).lookup_id ≡ k) (now : ℕ)
    (at_now : (k : String) → (row k).created_at ≡ now) where
  pub row_of-upsert_all :
      (keys : List String) (rows : List ResultRow) (j : String)
      → row_of j (upsert_all row keys rows) ≡ (
          if contains j keys
          then some (record (row j) { created_at = created_or now (row_of j rows) })
          else row_of j rows)
  unfolding upsert_all contains
  row_of-upsert_all [] rows j = refl
  row_of-upsert_all (k ∷ keys) rows j = ground (
    arith,
    row_of-upsert_all keys (upsert_row (row k) rows) j,
    row_of-upsert_row (row k) j rows,
    named k,
    named j,
    at_now k,
    at_now j,
    str_eq_iff k j,
  )
