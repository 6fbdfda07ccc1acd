-- ===== src/Ledger/Reclaim/Sorting.antt =====
-- The ORDER BY and LIMIT of the statements of pkg/storage/postgres_jobs.go keep the rows.
use progo_a2a.Prelude.{
  ℕ, zero, suc, ◌≤◌, ◌≡◌, refl, ap, subst, Bool, true, List, [], ◌∷◌, arith, Bool-cases, inl, inr,
  length, take, keep, In, here, there,
}
use progo_a2a.Ledger.Row.{Row}
use progo_a2a.Ledger.Statements.{insert_by, sort_by}

In-insert_by :
    (before : Row → Row → Bool) (r : Row) (rows : List Row) (a : Row)
    → In a (r ∷ rows)
    → In a (insert_by before r rows)
unfolding insert_by
In-insert_by before r [] a i = i
In-insert_by before r (s ∷ rows) a i = elim (Bool-cases (before s r)) [
  | inr e ↦ rw e i
  | inl e ↦ rw e (later i (In-insert_by before r rows a))
]
  where
    later :
        In a (r ∷ s ∷ rows)
        → (In a (r ∷ rows) → In a (insert_by before r rows))
        → In a (s ∷ insert_by before r rows)
    later (here p) ih = there (ih (here p))
    later (there (here p)) ih = here p
    later (there (there j)) ih = there (ih (there j))

pub In-sort_by :
    (before : Row → Row → Bool) (rows : List Row) (a : Row) → In a rows → In a (sort_by before rows)
unfolding sort_by
In-sort_by before [] a i = i
In-sort_by before (r ∷ rows) a (here p) = In-insert_by before r (sort_by before rows) a (here p)
In-sort_by before (r ∷ rows) a (there i) =
    In-insert_by before r (sort_by before rows) a (there (In-sort_by before rows a i))

length-insert_by :
    (before : Row → Row → Bool) (r : Row) (rows : List Row)
    → length (insert_by before r rows) ≡ suc (length rows)
unfolding insert_by
length-insert_by before r [] = refl
length-insert_by before r (s ∷ rows) = ground (arith, length-insert_by before r rows)

pub length-sort_by :
    (before : Row → Row → Bool) (rows : List Row) → length (sort_by before rows) ≡ length rows
unfolding sort_by
length-sort_by before [] = refl
length-sort_by before (r ∷ rows) =
    omega (arith, length-insert_by before r (sort_by before rows), length-sort_by before rows)

pub take_all : (n : ℕ) (rows : List Row) → length rows ≤ n → take n rows ≡ rows
take_all zero [] h = refl
take_all zero (r ∷ rows) h = absurd (omega arith)
take_all (suc n) [] h = refl
take_all (suc n) (r ∷ rows) h = ap (λ (t : List Row). r ∷ t) (take_all n rows (omega arith))

pub In-keep :
    (p : Row → Bool) (rows : List Row) (a : Row) → In a rows → p a ≡ true → In a (keep p rows)
In-keep p [] a i h = elim i [ ]
In-keep p (r ∷ rows) a (here e) h =
    let q : p r ≡ true = subst (λ (x : Row). p x ≡ true) e h in rw q (here e)
In-keep p (r ∷ rows) a (there i) h = elim (Bool-cases (p r)) [
  | inl e ↦ rw e (there (In-keep p rows a i h))
  | inr e ↦ rw e (In-keep p rows a i h)
]
