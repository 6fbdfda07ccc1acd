-- ===== src/Ledger/Table.antt =====
-- The invariant of the table `durable_jobs`, kept by every method of the repository.
use progo_a2a.Prelude.{
  ◌∙◌, ◌≤◌, ◌≡◌, refl, Bool, true, false, ◌||◌, List, [], ◌∷◌, ◌++◌, arith, any, All, In, In-All,
}
use progo_a2a.Ledger.Row.{Row, has_key, has_idempotency_key}
use progo_a2a.Ledger.Transition.{RowStep, IsValid}
use progo_a2a.Ledger.Keys.{
  Distinct, same_key, same_idempotency_key, has_key-sym, has_idempotency_key-sym,
}
use progo_a2a.Ledger.Repository.{conflicts}
use progo_a2a.Ledger.Repository.Monad.{Repo, Call}
use progo_a2a.Ledger.Repository.Payloads.{Encoding}
use progo_a2a.Ledger.Action.{Action, run, run_all}
use progo_a2a.Ledger.Evolution.{Steps, Evolves, update, insert, run-Evolves}

-- The checks of the rows, the primary key, and the unique idempotency keys.
pub record IsLedger (rows : List Row) : Type 0 where
  pub valid : All IsValid rows
  pub keys : Distinct same_key rows
  pub idempotency_keys : Distinct same_idempotency_key rows

pub Steps-IsValid :
    (rows rows' : List Row) → Steps rows rows' → All IsValid rows → All IsValid rows'
Steps-IsValid [] [] s v = tt
Steps-IsValid [] (x ∷ rows') s v = absurd s
Steps-IsValid (r ∷ rows) [] s v = absurd s
Steps-IsValid (r ∷ rows) (x ∷ rows') s v = (s.0.keeps_valid v.0, Steps-IsValid rows rows' s.1 v.1)

-- A test that reads only columns which no statement writes.
module _ (same : Row → Row → Bool)
    (stable : (a r b s : Row) → RowStep a b → RowStep r s → same a r ≡ same b s) where
  any-Steps :
      (a b : Row) (rows rows' : List Row)
      → RowStep a b
      → Steps rows rows'
      → any (same b) rows' ≡ any (same a) rows
  any-Steps a b [] [] p s = refl
  any-Steps a b [] (x ∷ rows') p s = absurd s
  any-Steps a b (r ∷ rows) [] p s = absurd s
  any-Steps a b (r ∷ rows) (x ∷ rows') p s =
      ground (arith, stable a r b x p s.0, any-Steps a b rows rows' p s.1)

  Distinct-Steps :
      (rows rows' : List Row) → Steps rows rows' → Distinct same rows → Distinct same rows'
  Distinct-Steps [] [] s d = tt
  Distinct-Steps [] (x ∷ rows') s d = absurd s
  Distinct-Steps (r ∷ rows) [] s d = absurd s
  Distinct-Steps (r ∷ rows) (x ∷ rows') s d =
      (any-Steps r x rows rows' s.0 s.1 ∙ d.0, Distinct-Steps rows rows' s.1 d.1)

module _ (same : Row → Row → Bool) (flip : (a b : Row) → same a b ≡ true → same b a ≡ true) where
  any-append-one :
      (a x : Row) (rows : List Row) → any (same a) (rows ++ x ∷ []) ≡ any (same a) rows || same a x
  any-append-one a x [] = ground arith
  any-append-one a x (r ∷ rows) = ground (arith, any-append-one a x rows)

  Distinct-append :
      (rows : List Row) (x : Row)
      → Distinct same rows
      → any (same x) rows ≡ false
      → Distinct same (rows ++ x ∷ [])
  Distinct-append [] x d h = (refl, tt)
  Distinct-append (r ∷ rows) x d h = (
    ground (arith, any-append-one r x rows, d.0, flip r x),
    Distinct-append rows x d.1 (ground arith),
  )

pub All-append-one :
    (P : Row → Type 0) (rows : List Row) (x : Row) → All P rows → P x → All P (rows ++ x ∷ [])
All-append-one P [] x h p = (p, tt)
All-append-one P (r ∷ rows) x h p = (h.0, All-append-one P rows x h.1 p)

stable_key : (a r b s : Row) → RowStep a b → RowStep r s → same_key a r ≡ same_key b s
unfolding has_key
stable_key a r b s p q = cc (p.same_tenant, p.same_id, q.same_tenant, q.same_id)

stable_idempotency_key :
    (a r b s : Row)
    → RowStep a b
    → RowStep r s
    → same_idempotency_key a r ≡ same_idempotency_key b s
unfolding has_idempotency_key
stable_idempotency_key a r b s p q =
    cc (p.same_tenant, p.same_idempotency_key, q.same_tenant, q.same_idempotency_key)

-- A row that meets no conflict has a primary key and an idempotency key that no row has.
pub conflicts-keys :
    (x : Row) (rows : List Row)
    → conflicts x rows ≡ false
    → (any (same_key x) rows ≡ false) × (any (same_idempotency_key x) rows ≡ false)
unfolding conflicts
conflicts-keys x [] h = (refl, refl)
conflicts-keys x (r ∷ rows) h = ground (arith, conflicts-keys x rows)

pub Evolves-IsLedger : {rows rows' : List Row} → Evolves rows rows' → IsLedger rows → IsLedger rows'
Evolves-IsLedger {rows} (update {rows' = rows'} s) l = record {
  valid = Steps-IsValid rows rows' s l.valid;
  keys = Distinct-Steps same_key stable_key rows rows' s l.keys;
  idempotency_keys =
      Distinct-Steps same_idempotency_key stable_idempotency_key rows rows' s l.idempotency_keys;
}
Evolves-IsLedger {rows} (insert x n c) l =
    let (k, i) = conflicts-keys x rows c in
    record {
      valid = All-append-one IsValid rows x l.valid n.valid;
      keys = Distinct-append same_key has_key-sym rows x l.keys k;
      idempotency_keys =
          Distinct-append same_idempotency_key has_idempotency_key-sym rows x l.idempotency_keys i;
    }

abbrev pub empty_repo : Repo
empty_repo = record { closed = false; rows = [] }

IsLedger-empty : IsLedger []
IsLedger-empty = record { valid = tt; keys = tt; idempotency_keys = tt }

module _ (e : Encoding) where
  pub run-IsLedger :
      (c : Call) (a : Action e) (r : Repo) → IsLedger r.rows → IsLedger (run e c a r).rows
  run-IsLedger c a r l = Evolves-IsLedger (run-Evolves e c a r l.keys) l

  pub run_all-IsLedger :
      (calls : List (Call × Action e)) (r : Repo)
      → IsLedger r.rows
      → IsLedger (run_all e calls r).rows
  unfolding run_all
  run_all-IsLedger [] r l = l
  run_all-IsLedger ((c, a) ∷ rest) r l = run_all-IsLedger rest (run e c a r) (run-IsLedger c a r l)

  -- The invariant of the table after any calls from an empty one.
  pub reachable-IsLedger :
      (calls : List (Call × Action e)) → IsLedger (run_all e calls empty_repo).rows
  reachable-IsLedger calls = run_all-IsLedger calls empty_repo IsLedger-empty

  -- Whatever calls are made from an empty table, no lease token passes 200, so that the BIGINT column
  -- never overflows.
  pub lease_token_bounded :
      (calls : List (Call × Action e)) (r : Row)
      → In r (run_all e calls empty_repo).rows
      → r.lease_token ≤ 200
  lease_token_bounded calls r i =
      let v = In-All IsValid _ r (reachable-IsLedger calls).valid i in
      omega (arith, v.token_bounded, v.attempts_capped, v.max_capped)
