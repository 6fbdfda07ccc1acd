-- ===== src/Ledger/Keys.antt =====
-- The keys of the table `durable_jobs`: the rows have distinct primary keys and distinct idempotency
-- keys; so a subquery that chooses rows by key updates the rows that it chose, and no others.
use progo_a2a.Prelude.{
  ℕ, ◌≡◌, subst, Bool, true, false, ◌&&◌, not, List, [], ◌∷◌, arith, any, keep, str_eq_iff, In,
  here, there, any-In, In-any, In-take, In-keep, Bool-cases, inl, inr,
}
use progo_a2a.Ledger.Row.{Row, has_key, has_idempotency_key}
use progo_a2a.Ledger.Statements.{insert_by, sort_by, choose, selected}

-- A test of a pair of rows that holds of no two rows of the table.
abbrev pub Distinct : (Row → Row → Bool) → List Row → Type 0
Distinct same [] = Unit
Distinct same (r ∷ rows) = (any (same r) rows ≡ false) × Distinct same rows

abbrev pub same_key : Row → Row → Bool
same_key r s = has_key r.tenant_id r.id s

abbrev pub same_idempotency_key : Row → Row → Bool
same_idempotency_key r s = has_idempotency_key r.tenant_id r.idempotency_key s

pub has_key-sym : (r s : Row) → same_key r s ≡ true → same_key s r ≡ true
unfolding has_key
has_key-sym r s h = ground (
  arith,
  str_eq_iff r.tenant_id s.tenant_id,
  str_eq_iff s.tenant_id r.tenant_id,
  str_eq_iff r.id s.id,
  str_eq_iff s.id r.id,
)

pub has_key_self : (r : Row) → same_key r r ≡ true
unfolding has_key
has_key_self r = ground (arith, str_eq_iff r.tenant_id r.tenant_id, str_eq_iff r.id r.id)

-- In a table with distinct keys, two rows of one key are one row.
pub Distinct-unique :
    (rows : List Row) (r s : Row)
    → Distinct same_key rows
    → In r rows
    → In s rows
    → same_key r s ≡ true
    → r ≡ s
Distinct-unique [] r s d i j h = elim i [ ]
Distinct-unique (x ∷ rows) r s d (here p) (here q) h = ground arith
Distinct-unique (x ∷ rows) r s d (here p) (there j) h =
    let found = In-any (same_key x) rows s j (subst (λ (y : Row). same_key y s ≡ true) p h) in
    absurd (ground arith)
Distinct-unique (x ∷ rows) r s d (there i) (here q) h =
    let back = has_key-sym r s h in
    let found = In-any (same_key x) rows r i (subst (λ (y : Row). same_key y r ≡ true) q back) in
    absurd (ground arith)
Distinct-unique (x ∷ rows) r s d (there i) (there j) h = Distinct-unique rows r s d.1 i j h

In-insert_by :
    (before : Row → Row → Bool) (r : Row) (rows : List Row) (a : Row)
    → In a (insert_by before r rows)
    → In a (r ∷ rows)
unfolding insert_by
In-insert_by before r [] a i = i
In-insert_by before r (s ∷ rows) a i = elim (Bool-cases (before s r)) [
  | inl e ↦ later (rw e at i) (In-insert_by before r rows a)
  | inr e ↦ rw e at i
]
  where
    later :
        In a (s ∷ insert_by before r rows)
        → (In a (insert_by before r rows) → In a (r ∷ rows))
        → In a (r ∷ s ∷ rows)
    later (here p) ih = there (here p)
    later (there j) ih = swap (ih j)
      where
        swap : In a (r ∷ rows) → In a (r ∷ s ∷ rows)
        swap (here p) = here p
        swap (there k) = there (there k)

In-sort_by :
    (before : Row → Row → Bool) (rows : List Row) (a : Row) → In a (sort_by before rows) → In a rows
unfolding sort_by
In-sort_by before [] a i = i
In-sort_by before (r ∷ rows) a i =
    sorted (In-insert_by before r (sort_by before rows) a i) (In-sort_by before rows a)
  where
    sorted :
        In a (r ∷ sort_by before rows) → (In a (sort_by before rows) → In a rows) → In a (r ∷ rows)
    sorted (here p) ih = here p
    sorted (there j) ih = there (ih j)

-- What a subquery chooses are rows of the table that pass its test and are not locked.
pub In-choose :
    (test : Row → Bool) (before : Row → Row → Bool) (locked : Row → Bool) (limit : ℕ)
    (rows : List Row) (a : Row)
    → In a (choose test before locked limit rows)
    → In a rows × (test a ≡ true) × (locked a ≡ false)
unfolding choose
In-choose test before locked limit rows a i =
    let wanted = λ (r : Row). test r && not (locked r) in
    let (j, e) = In-keep wanted rows a (
      In-sort_by before (keep wanted rows) a
        (In-take limit (sort_by before (keep wanted rows)) a i)) in
    (j, ground arith, ground arith)

-- A row of the table that is selected by key passed the test of the subquery.
pub selected-choose :
    (test : Row → Bool) (before : Row → Row → Bool) (locked : Row → Bool) (limit : ℕ)
    (rows : List Row) (a : Row)
    → Distinct same_key rows
    → In a rows
    → selected (choose test before locked limit rows) a ≡ true
    → (test a ≡ true) × (locked a ≡ false)
unfolding selected
selected-choose test before locked limit rows a d i h =
    let (s, j, e) =
      any-In (λ (s : Row). has_key s.tenant_id s.id a) (choose test before locked limit rows) h in
    let (k, t, l) = In-choose test before locked limit rows s j in
    let p = Distinct-unique rows s a d k i e in
    (subst (λ r. test r ≡ true) p t, subst (λ r. locked r ≡ false) p l)

pub has_idempotency_key-sym :
    (r s : Row) → same_idempotency_key r s ≡ true → same_idempotency_key s r ≡ true
unfolding has_idempotency_key
has_idempotency_key-sym r s h = ground (
  arith,
  str_eq_iff r.tenant_id s.tenant_id,
  str_eq_iff s.tenant_id r.tenant_id,
  str_eq_iff r.idempotency_key s.idempotency_key,
  str_eq_iff s.idempotency_key r.idempotency_key,
)
