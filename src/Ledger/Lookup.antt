-- ===== src/Ledger/Lookup.antt =====
-- The table as a map from primary keys to rows, and what an UPDATE makes of it.
use progo_a2a.Prelude.{
  String, ◌≡◌, refl, Bool, true, false, Option, none, some, List, [], ◌∷◌, arith, find, any, any-In,
  ◌||◌, In-any, Bool-cases, inl, inr, if◌then◌else◌, str_eq_iff, ◌==◌,
}
use progo_a2a.Ledger.Row.{Row, has_key, update_where, count_where}
use progo_a2a.Ledger.Keys.{Distinct, same_key}

abbrev pub at : String → String → List Row → Option Row
at tenant_id id rows = find (has_key tenant_id id) rows

abbrev pub map_row : (Row → Row) → Option Row → Option Row
map_row f none = none
map_row f (some r) = some (f r)

-- The row that an UPDATE makes of one row.
abbrev pub apply : (Row → Bool) → (Row → Row) → Row → Row
apply test set r = if test r then set r else r

abbrev pub passes : (Row → Bool) → Option Row → Bool
passes test none = false
passes test (some r) = test r

-- Two rows that one key finds have the same key.
pub has_key-same :
    (tenant_id id : String) (r s : Row)
    → has_key tenant_id id r ≡ true
    → has_key tenant_id id s ≡ true
    → same_key r s ≡ true
unfolding has_key
has_key-same tenant_id id r s p q = ground (
  arith,
  str_eq_iff r.tenant_id tenant_id,
  str_eq_iff s.tenant_id tenant_id,
  str_eq_iff s.tenant_id r.tenant_id,
  str_eq_iff r.id id,
  str_eq_iff s.id id,
  str_eq_iff s.id r.id,
)

-- An UPDATE that keeps the keys acts on the map row by row.
pub at-update_where :
    (tenant_id id : String) (test : Row → Bool) (set : Row → Row) (rows : List Row)
    → ((r : Row) → has_key tenant_id id (set r) ≡ has_key tenant_id id r)
    → at tenant_id id (update_where test set rows) ≡ map_row (apply test set) (at tenant_id id rows)
unfolding update_where
at-update_where tenant_id id test set [] keep = refl
at-update_where tenant_id id test set (r ∷ rows) keep =
    ground (arith, keep r, at-update_where tenant_id id test set rows keep)

-- A test that looks at the row of one key alone.
abbrev pub KeyTest : String → String → (Row → Bool) → Type 0
KeyTest tenant_id id test = (r : Row) → test r ≡ true → has_key tenant_id id r ≡ true

-- An UPDATE whose test no row passes leaves the table and affects no row.
pub update_unmatched :
    (test : Row → Bool) (set : Row → Row) (rows : List Row)
    → any test rows ≡ false
    → (update_where test set rows ≡ rows) × (count_where test rows ≡ 0)
unfolding update_where count_where
update_unmatched test set [] h = (refl, refl)
update_unmatched test set (r ∷ rows) h =
    let (u, n) = update_unmatched test set rows (ground arith) in (ground arith, ground arith)

-- An UPDATE affects a row exactly when its test passes one.
pub count_where-any :
    (test : Row → Bool) (rows : List Row)
    → (count_where test rows == 0) ≡ (if any test rows then false else true)
unfolding count_where
count_where-any test [] = refl
count_where-any test (r ∷ rows) = ground (arith, count_where-any test rows)

-- With distinct keys, a test of one key passes a row exactly when it passes the row found by the key.
pub any-at :
    (tenant_id id : String) (test : Row → Bool) (rows : List Row)
    → KeyTest tenant_id id test
    → Distinct same_key rows
    → any test rows ≡ passes test (at tenant_id id rows)
any-at tenant_id id test [] only d = refl
any-at tenant_id id test (r ∷ rows) only d = elim (Bool-cases (has_key tenant_id id r)) [
  | inl e ↦ rw e (found e)
  | inr e ↦ rw e (ground (arith, only r, any-at tenant_id id test rows only d.1))
]
  where
    rest : has_key tenant_id id r ≡ true → any test rows ≡ false
    rest e = elim (Bool-cases (any test rows)) [
      | inr n ↦ n
      | inl y ↦
          let (s, i, t) = any-In test rows y in
          let clash = In-any (same_key r) rows s i (has_key-same tenant_id id r s e (only s t)) in
          absurd (ground arith)
    ]

    found : has_key tenant_id id r ≡ true → (test r || any test rows) ≡ test r
    found e = ground (arith, rest e)
