-- ===== src/Ledger/History.antt =====
-- One job under any sequence of calls: it stays in the table under its key, its lease token and its
-- attempt never fall, its state follows the edges of `Transition`, and a terminal job never changes.
use progo_a2a.Prelude.{
  ◌≤◌, String, ◌≡◌, ◌⊎◌, refl, subst, ◌∙◌, Bool, true, false, some, List, [], ◌∷◌, ◌++◌, arith,
  find, Bool-cases, inl, inr,
}
use progo_a2a.Job.{JobState, is_terminal}
use progo_a2a.Ledger.Row.{Row, has_key}
use progo_a2a.Ledger.Transition.{RowStep, RowStep-refl, ◌⟶◌}
use progo_a2a.Ledger.Repository.Monad.{Repo, Call}
use progo_a2a.Ledger.Repository.Payloads.{Encoding}
use progo_a2a.Ledger.Action.{Action, run, run_all}
use progo_a2a.Ledger.Evolution.{Steps, Evolves, update, insert, run-Evolves}
use progo_a2a.Ledger.Table.{IsLedger, run-IsLedger}

infix 40 ◌⟶*◌
pub data ◌⟶*◌ : JobState → JobState → Type 0 where
  done : {s : JobState} → s ⟶* s
  further : {s t u : JobState} → s ⟶ t → t ⟶* u → s ⟶* u

-- A row at one time and at a later one.
pub record Later (r s : Row) : Type 0 where
  pub same_tenant : s.tenant_id ≡ r.tenant_id
  pub same_id : s.id ≡ r.id
  pub same_hash : s.request_hash ≡ r.request_hash
  pub same_request : s.request ≡ r.request
  pub same_max : s.max_attempts ≡ r.max_attempts
  pub token_grows : r.lease_token ≤ s.lease_token
  pub attempt_grows : r.attempt ≤ s.attempt
  pub path : r.state ⟶* s.state
  pub terminal_fixed : (is_terminal r.state ≡ false) ⊎ (s ≡ r)

Later-refl : (r : Row) → Later r r
Later-refl r = record {
  same_tenant = refl;
  same_id = refl;
  same_hash = refl;
  same_request = refl;
  same_max = refl;
  token_grows = omega arith;
  attempt_grows = omega arith;
  path = done;
  terminal_fixed = inr refl;
}

fixed :
    {r s t : Row}
    → (is_terminal r.state ≡ false) ⊎ (s ≡ r)
    → (is_terminal s.state ≡ false) ⊎ (t ≡ s)
    → (is_terminal r.state ≡ false) ⊎ (t ≡ r)
fixed (inl a) h = inl a
fixed (inr e) (inl b) = inl (subst (λ (x : Row). is_terminal x.state ≡ false) e b)
fixed (inr e) (inr d) = inr (d ∙ e)

Later-step : (r s t : Row) → RowStep r s → Later s t → Later r t
Later-step r s t p q = record {
  same_tenant = q.same_tenant ∙ p.same_tenant;
  same_id = q.same_id ∙ p.same_id;
  same_hash = q.same_hash ∙ p.same_hash;
  same_request = q.same_request ∙ p.same_request;
  same_max = q.same_max ∙ p.same_max;
  token_grows = omega (arith, p.token_grows, q.token_grows);
  attempt_grows = omega (arith, p.attempt_grows, q.attempt_grows);
  path = further p.edge q.path;
  terminal_fixed = fixed p.terminal_fixed q.terminal_fixed;
}

key_step :
    (tenant_id id : String) (x y : Row)
    → RowStep x y
    → has_key tenant_id id y ≡ has_key tenant_id id x
unfolding has_key
key_step tenant_id id x y p = cc (p.same_tenant, p.same_id)

find-Steps :
    (tenant_id id : String) (rows rows' : List Row) (r : Row)
    → Steps rows rows'
    → find (has_key tenant_id id) rows ≡ some r
    → (s : Row) × (find (has_key tenant_id id) rows' ≡ some s) × RowStep r s
find-Steps tenant_id id [] rows' r p h = cc
find-Steps tenant_id id (x ∷ rows) [] r p h = absurd p
find-Steps tenant_id id (x ∷ rows) (y ∷ rows') r p h = elim (Bool-cases (has_key tenant_id id x)) [
  | inl e ↦
      let q : x ≡ r = ground arith in
      let e' : has_key tenant_id id y ≡ true = same e in
      (y, rw e', subst (λ (z : Row). RowStep z y) q p.0)
  | inr e ↦
      let (s, f, q) = find-Steps tenant_id id rows rows' r p.1 (rw e at h) in
      let e' : has_key tenant_id id y ≡ false = same e in (s, rw e' f, q)
]
  where
    same : {b : Bool} → has_key tenant_id id x ≡ b → has_key tenant_id id y ≡ b
    same e = key_step tenant_id id x y p.0 ∙ e

find-append_one :
    (p : Row → Bool) (rows : List Row) (x r : Row)
    → find p rows ≡ some r
    → find p (rows ++ x ∷ []) ≡ some r
find-append_one p [] x r h = cc
find-append_one p (y ∷ rows) x r h = ground (arith, find-append_one p rows x r)

find-Evolves :
    (tenant_id id : String) (r : Row) {rows rows' : List Row}
    → Evolves rows rows'
    → find (has_key tenant_id id) rows ≡ some r
    → (s : Row) × (find (has_key tenant_id id) rows' ≡ some s) × RowStep r s
find-Evolves tenant_id id r {rows} (update {rows' = rows'} s) h =
    find-Steps tenant_id id rows rows' r s h
find-Evolves tenant_id id r {rows} (insert x n c) h =
    (r, find-append_one (has_key tenant_id id) rows x r h, RowStep-refl r)

module _ (e : Encoding) where
  -- From a table with the invariant, whatever calls are made: a job found by its key is found by it
  -- afterwards, with the same request and maximum, no smaller lease token and attempt, in a state that
  -- the edges reach; and unchanged in every column if it was terminal.
  pub job_history :
      (calls : List (Call × Action e)) (r : Repo) (tenant_id id : String) (row : Row)
      → IsLedger r.rows
      → find (has_key tenant_id id) r.rows ≡ some row
      → (later : Row) × (find (has_key tenant_id id) (run_all e calls r).rows ≡ some later)
        × Later row later
  unfolding run_all
  job_history [] r tenant_id id row l h = (row, h, Later-refl row)
  job_history ((c, a) ∷ rest) r tenant_id id row l h =
      let (s, f, p) = find-Evolves tenant_id id row (run-Evolves e c a r l.keys) h in
      let (t, g, q) = job_history rest (run e c a r) tenant_id id s (run-IsLedger e c a r l) f in
      (t, g, Later-step row s t p q)
