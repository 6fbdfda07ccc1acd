-- ===== src/Ledger/Statements.antt =====
-- The SQL statements of pkg/storage/postgres_jobs.go: for each UPDATE the test of its WHERE clause
-- and the row that its SET clause makes. `now` is the transaction's NOW().
use progo_a2a.Prelude.{
  ℕ, suc, ◌+◌, ◌*◌, String, Bool, true, false, not, ◌&&◌, ◌||◌, Option, none, some, List, [], ◌∷◌,
  str_eq, sql_trim, is_empty, is_some, ltb, leb, ◌==◌, if◌then◌else◌, keep, take, any,
}
use progo_a2a.Prelude.Int.{ℤ, pos, negsuc}
use progo_a2a.Job.{
  JobState, queued, leased, running, succeeded, failed, canceled, dead_letter, LeaseFence,
}
use progo_a2a.Ledger.Row.{Row, has_key, is_active, is_queued}

-- `NOW() + ($n * INTERVAL '1 millisecond')`.
abbrev pub after : ℕ → ℕ → ℕ
after now milliseconds = now + milliseconds * 1000

-- `COALESCE(x, y)` and `NULLIF(trim(s), '')`.
abbrev pub coalesce : Option ℕ → ℕ → ℕ
coalesce none y = y
coalesce (some x) y = x

unfoldable pub null_if_blank : String → Option String
null_if_blank s = let t = sql_trim s in if is_empty t then none else some t

abbrev owned_by : String → Option String → Bool
owned_by owner none = false
owned_by owner (some o) = str_eq o owner

abbrev token_is : ℤ → ℕ → Bool
token_is (pos n) token = token == n
token_is (negsuc n) token = false

-- `lease_expires_at > NOW()`, and `lease_expires_at <= NOW()`: both are false of NULL.
abbrev unexpired : ℕ → Option ℕ → Bool
unexpired now none = false
unexpired now (some t) = ltb now t

abbrev pub expired : ℕ → Option ℕ → Bool
expired now none = false
expired now (some t) = leb t now

abbrev is_leased : JobState → Bool
is_leased leased = true
is_leased _ = false

-- The lease conditions that the fenced statements share, with their states left open.
unfoldable pub has_lease : ℕ → LeaseFence → Row → Bool
unfolding has_key
has_lease now f r =
    has_key f.tenant_id f.job_id r
    && owned_by f.lease_owner r.lease_owner
    && token_is f.lease_token r.lease_token
    && unexpired now r.lease_expires_at

-- The WHERE clause of renew, complete and fail.
unfoldable pub holds_lease : ℕ → LeaseFence → Row → Bool
unfolding has_lease
holds_lease now f r = has_lease now f r && is_active r.state

-- `markRunningSQL`.
unfoldable pub may_run : ℕ → LeaseFence → Row → Bool
unfolding has_lease
may_run now f r = has_lease now f r && is_leased r.state && not (is_some r.cancel_requested_at)

unfoldable pub set_running : ℕ → Row → Row
set_running now r = record r { state = running; updated_at = now }

-- `renewLeaseSQL`.
unfoldable pub set_renewed : ℕ → ℕ → Row → Row
set_renewed now milliseconds r = record r {
  lease_expires_at = some (after now milliseconds);
  updated_at = now;
}

-- `completeJobSQL`.
unfoldable pub set_succeeded : ℕ → String → Row → Row
set_succeeded now response r = record r {
  state = succeeded;
  response = some response;
  lease_owner = none;
  lease_expires_at = none;
  updated_at = now;
}

-- `failJobSQL`.
unfoldable pub set_failed : ℕ → Bool → ℕ → String → String → Row → Row
set_failed now retryable milliseconds code message r = record r {
  state =
      if not retryable
      then failed
      else if ltb r.attempt r.max_attempts
      then queued
      else dead_letter;
  next_run_at =
      if retryable && ltb r.attempt r.max_attempts then after now milliseconds else r.next_run_at;
  failure_code = null_if_blank code;
  failure_message = null_if_blank message;
  lease_owner = none;
  lease_expires_at = none;
  updated_at = now;
}

-- `cancelJobSQL`.
unfoldable pub set_cancel : ℕ → Row → Row
set_cancel now r =
    let live = is_queued r.state || is_active r.state in
    record r {
      state = if is_queued r.state then canceled else r.state;
      cancel_requested_at =
          if live then some (coalesce r.cancel_requested_at now) else r.cancel_requested_at;
      updated_at = if live then now else r.updated_at;
    }

-- `ackCancelSQL`.
unfoldable pub may_acknowledge : ℕ → LeaseFence → Row → Bool
unfolding has_lease
may_acknowledge now f r = has_lease now f r && is_active r.state && is_some r.cancel_requested_at

unfoldable pub set_canceled : ℕ → Row → Row
set_canceled now r = record r {
  state = canceled;
  lease_owner = none;
  lease_expires_at = none;
  updated_at = now;
}

-- ORDER BY, as an insertion sort that keeps the table's order of equals.
unfoldable pub insert_by : (Row → Row → Bool) → Row → List Row → List Row
insert_by before r [] = r ∷ []
insert_by before r (s ∷ rows) =
    let rest = insert_by before r rows in if before s r then s ∷ rest else r ∷ s ∷ rows

unfoldable pub sort_by : (Row → Row → Bool) → List Row → List Row
unfolding insert_by
sort_by before [] = []
sort_by before (r ∷ rows) = insert_by before r (sort_by before rows)

-- `j.tenant_id = sub.tenant_id AND j.id = sub.id` for a row of the subquery.
unfoldable pub selected : List Row → Row → Bool
unfolding has_key
selected chosen j = any (λ (s : Row). has_key s.tenant_id s.id j) chosen

-- `acquireLeasesSQL`: the WHERE clause and the order of the subquery, and the SET clause.
unfoldable pub is_ready : ℕ → Row → Bool
is_ready now r = is_queued r.state && leb r.next_run_at now && ltb r.attempt r.max_attempts

unfoldable pub runs_before : Row → Row → Bool
runs_before a b =
    ltb a.next_run_at b.next_run_at
    || (a.next_run_at == b.next_run_at && ltb a.created_at b.created_at)

unfoldable pub set_leased : ℕ → String → ℕ → Row → Row
set_leased now owner milliseconds r = record r {
  state = leased;
  attempt = suc r.attempt;
  lease_owner = some owner;
  lease_token = suc r.lease_token;
  lease_expires_at = some (after now milliseconds);
  updated_at = now;
}

-- FOR UPDATE SKIP LOCKED passes over the rows that other transactions hold: `locked` is the test.
unfoldable pub choose : (Row → Bool) → (Row → Row → Bool) → (Row → Bool) → ℕ → List Row → List Row
unfolding sort_by
choose test before locked limit rows =
    take limit (sort_by before (keep (λ r. test r && not (locked r)) rows))

-- `reclaimExpiredSQL`.
unfoldable pub is_expired : ℕ → Row → Bool
is_expired now r = is_active r.state && expired now r.lease_expires_at

unfoldable pub expires_before : Row → Row → Bool
expires_before a b = ltb (coalesce a.lease_expires_at 0) (coalesce b.lease_expires_at 0)

unfoldable pub set_reclaimed : ℕ → ℕ → Row → Row
set_reclaimed now milliseconds r = record r {
  state =
      if is_some r.cancel_requested_at
      then canceled
      else if ltb r.attempt r.max_attempts
      then queued
      else dead_letter;
  next_run_at =
      if not (is_some r.cancel_requested_at) && ltb r.attempt r.max_attempts
      then after now milliseconds
      else r.next_run_at;
  lease_owner = none;
  lease_expires_at = none;
  lease_token = suc r.lease_token;
  updated_at = now;
}
