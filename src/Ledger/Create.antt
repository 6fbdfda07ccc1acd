-- ===== src/Ledger/Create.antt =====
-- CreateJob is idempotent: a repeated call returns the job that is there, or a conflict, and writes nothing.
use progo_a2a.Prelude.{
  String, ◌≡◌, ◌≢◌, refl, ◌∙◌, true, false, ◌&&◌, not, none, some, List, [], ◌∷◌, ◌++◌, arith, any,
  find, ok, err, str_eq, str_eq_iff, is_empty, equal_fold, if◌then◌else◌,
}
use progo_a2a.Job.{CreateJobInput, validate_create}
use progo_a2a.Ledger.Row.{Row, has_idempotency_key, scan_job}
use progo_a2a.Ledger.Keys.{same_idempotency_key}
use progo_a2a.Ledger.Fencing.{IsLive}
use progo_a2a.Ledger.Table.{conflicts-keys}
use progo_a2a.Ledger.Constraints.{is_hash}
use progo_a2a.Ledger.Checked.Accepted.{new_row-passes_checks}
use progo_a2a.Ledger.Repository.{create_job, new_row, conflicts}
use progo_a2a.Ledger.Repository.Monad.{Error, Repo, Call, Wire, exec, query, open_repo}
use progo_a2a.Ledger.Repository.Payloads.{
  Encoding, Payload, marshal_job_payload, compute_job_idempotency_hash,
}

-- An input that passes every test before the first statement, with a hash of 64 hexadecimal digits, as SHA-256 has, and a request
-- that PostgreSQL takes as jsonb: its request, the stored bytes and the hash.
pub record Accepts (e : Encoding) (input : CreateJobInput (Payload e)) (bytes hash : String)
    : Type 0 where
  pub request : Payload e
  pub valid : validate_create input ≡ ok request
  pub literal : String
  pub encoded : marshal_job_payload e request ≡ ok literal
  pub casted : e.jsonb literal ≡ some bytes
  pub hashed : compute_job_idempotency_hash e literal input ≡ ok hash
  pub hash_digits : is_hash hash ≡ true
  pub hash_agrees :
      (not (is_empty input.request_hash) && not (equal_fold input.request_hash hash)) ≡ false

find-conflicts :
    (x r : Row) (rows : List Row)
    → find (has_idempotency_key x.tenant_id x.idempotency_key) rows ≡ some r
    → conflicts x rows ≡ true
unfolding conflicts
find-conflicts x r [] h = cc
find-conflicts x r (s ∷ rows) h = ground (arith, find-conflicts x r rows)

-- On an open repository, with a live call and an accepted input (its hash is as SHA-256's, and PostgreSQL takes its request
-- as jsonb) whose idempotency key a job has: the call writes nothing, and returns that job if its hash is the input's, and
-- ErrIdempotencyConflict if not.
pub create_job_existing :
    (e : Encoding) (c : Call) (input : CreateJobInput (Payload e)) (bytes hash : String) (r : Repo)
    (row : Row)
    → IsLive c
    → r.closed ≡ false
    → Accepts e input bytes hash
    → find (has_idempotency_key input.tenant_id input.idempotency_key) r.rows ≡ some row
    → create_job e c input r ≡ (
      if str_eq row.request_hash hash then ok (scan_job row) else err Error.idempotency_conflict,
      r,
    )
unfolding create_job open_repo exec query
create_job_existing e c input bytes hash r row live opened a found = ground (
  arith,
  live.no_context_error,
  live.first_answered,
  live.second_answered,
  a.valid,
  a.encoded,
  a.casted,
  a.hashed,
  a.hash_agrees,
  new_row-passes_checks e c.now input a.request bytes hash a.valid a.hash_digits,
  find-conflicts (new_row e c.now input bytes hash) row r.rows found,
)

self_key : (x : Row) → has_idempotency_key x.tenant_id x.idempotency_key x ≡ true
unfolding has_idempotency_key
self_key x =
    ground
      (arith, str_eq_iff x.tenant_id x.tenant_id, str_eq_iff x.idempotency_key x.idempotency_key)

find-append_new :
    (x : Row) (rows : List Row)
    → any (same_idempotency_key x) rows ≡ false
    → find (has_idempotency_key x.tenant_id x.idempotency_key) (rows ++ x ∷ []) ≡ some x
find-append_new x [] h = ground (arith, self_key x)
find-append_new x (r ∷ rows) h = ground (arith, find-append_new x rows)

-- The first of two calls, whose statement the database executes.
create_job-writes :
    (e : Encoding) (c : Call) (input : CreateJobInput (Payload e)) (bytes hash : String) (r : Repo)
    → c.context ≡ none
    → c.first ≢ Wire.refused
    → r.closed ≡ false
    → Accepts e input bytes hash
    → conflicts (new_row e c.now input bytes hash) r.rows ≡ false
    → (create_job e c input r).1
      ≡ record r { rows = r.rows ++ new_row e c.now input bytes hash ∷ [] }
unfolding create_job open_repo exec query
create_job-writes e c input bytes hash r alive sent opened a fresh = ground (
  arith,
  a.valid,
  a.encoded,
  a.casted,
  a.hashed,
  a.hash_agrees,
  new_row-passes_checks e c.now input a.request bytes hash a.valid a.hash_digits,
  sent,
)

-- On an open repository, an accepted input (its hash is as SHA-256's, and PostgreSQL takes its request as jsonb) whose keys no
-- job has: if the database executes the first call's insert, whether or not the client hears of it, then a repeated live
-- call returns the job that the first call inserted, and writes nothing more.
pub create_job_retried :
    (e : Encoding) (c c' : Call) (input : CreateJobInput (Payload e)) (bytes hash : String)
    (r : Repo)
    → c.context ≡ none
    → c.first ≢ Wire.refused
    → IsLive c'
    → r.closed ≡ false
    → Accepts e input bytes hash
    → conflicts (new_row e c.now input bytes hash) r.rows ≡ false
    → let once = (create_job e c input r).1 in
      create_job e c' input once ≡ (ok (scan_job (new_row e c.now input bytes hash)), once)
create_job_retried e c c' input bytes hash r alive sent live opened a fresh =
    let new = new_row e c.now input bytes hash in
    let once = record r { rows = r.rows ++ new ∷ [] } in
    let found = find-append_new new r.rows (conflicts-keys new r.rows fresh).1 in
    let again =
      create_job_existing e c' input bytes hash once new live opened a (unfold new_row in found) in
    let same = (str_eq_iff hash hash).1 refl in
    rw (create_job-writes e c input bytes hash r alive sent opened a fresh)
      (again ∙ unfold new_row in rw same refl)
