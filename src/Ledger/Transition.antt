-- ===== src/Ledger/Transition.antt =====
-- What every statement of the ledger does to one row: the states it moves between, the columns it
-- never writes, and the constraints of the table `durable_jobs` that it keeps.
use progo_a2a.Prelude.{
  ℕ, ◌+◌, ◌*◌, ◌≤◌, ◌<◌, String, ◌≡◌, ◌⊎◌, Bool, true, false, arith, is_some, if◌then◌else◌,
}
use progo_a2a.Job.{
  JobState, queued, leased, running, succeeded, failed, canceled, dead_letter, is_terminal,
  LeaseFence,
}
use progo_a2a.Ledger.Row.{Row, is_active, is_queued}
use progo_a2a.Ledger.Statements.{
  holds_lease, may_run, set_running, set_renewed, set_succeeded, set_failed, set_cancel,
  may_acknowledge, set_canceled, is_ready, set_leased, is_expired, set_reclaimed,
}

-- The life of a job.
infix 40 ◌⟶◌
pub data ◌⟶◌ : JobState → JobState → Type 0 where
  stay : {s : JobState} → s ⟶ s
  lease : queued ⟶ leased
  start : leased ⟶ running
  drop : queued ⟶ canceled
  succeed : {s : JobState} → is_active s ≡ true → s ⟶ succeeded
  fail : {s : JobState} → is_active s ≡ true → s ⟶ failed
  retry : {s : JobState} → is_active s ≡ true → s ⟶ queued
  exhaust : {s : JobState} → is_active s ≡ true → s ⟶ dead_letter
  stop : {s : JobState} → is_active s ≡ true → s ⟶ canceled

abbrev pub is_succeeded : JobState → Bool
is_succeeded succeeded = true
is_succeeded _ = false

abbrev pub queued_count : JobState → ℕ
queued_count s = if is_queued s then 1 else 0

abbrev pub active_count : JobState → ℕ
active_count s = if is_active s then 1 else 0

-- The checks of the table on attempts and leases, and what the statements keep besides: a queued job
-- has an attempt left, a response belongs to success, and tokens are counted by attempts.
pub record IsValid (r : Row) : Type 0 where
  pub attempts_capped : r.attempt ≤ r.max_attempts
  pub max_positive : 0 < r.max_attempts
  pub max_capped : r.max_attempts ≤ 100
  pub owner_when_active : is_some r.lease_owner ≡ is_active r.state
  pub expiry_when_active : is_some r.lease_expires_at ≡ is_active r.state
  pub token_positive : active_count r.state ≤ r.lease_token
  pub token_bounded : r.lease_token + active_count r.state ≤ 2 * r.attempt
  pub queued_has_attempt : r.attempt + queued_count r.state ≤ r.max_attempts
  pub response_when_succeeded : is_some r.response ≡ is_succeeded r.state

-- One row before and after a statement.
pub record RowStep (r s : Row) : Type 0 where
  pub same_tenant : s.tenant_id ≡ r.tenant_id
  pub same_id : s.id ≡ r.id
  pub same_idempotency_key : s.idempotency_key ≡ r.idempotency_key
  pub same_hash : s.request_hash ≡ r.request_hash
  pub same_request : s.request ≡ r.request
  pub same_agent : s.agent_id ≡ r.agent_id
  pub same_capability : s.required_capability ≡ r.required_capability
  pub same_max : s.max_attempts ≡ r.max_attempts
  pub token_grows : r.lease_token ≤ s.lease_token
  pub attempt_grows : r.attempt ≤ s.attempt
  pub terminal_fixed : (is_terminal r.state ≡ false) ⊎ (s ≡ r)
  pub edge : r.state ⟶ s.state
  pub keeps_valid : IsValid r → IsValid s

pub RowStep-refl : (r : Row) → RowStep r r
RowStep-refl r = grind (arith, stay)

-- The states that each WHERE clause admits.
pub may_run-leased :
    (now : ℕ) (f : LeaseFence) (r : Row) → may_run now f r ≡ true → r.state ≡ leased
unfolding may_run
may_run-leased now f r h = ground arith

pub holds_lease-active :
    (now : ℕ) (f : LeaseFence) (r : Row) → holds_lease now f r ≡ true → is_active r.state ≡ true
unfolding holds_lease
holds_lease-active now f r h = ground arith

pub may_acknowledge-active :
    (now : ℕ) (f : LeaseFence) (r : Row) → may_acknowledge now f r ≡ true → is_active r.state ≡ true
unfolding may_acknowledge
may_acknowledge-active now f r h = ground arith

pub is_expired-active : (now : ℕ) (r : Row) → is_expired now r ≡ true → is_active r.state ≡ true
unfolding is_expired
is_expired-active now r h = ground arith

pub set_running-RowStep : (now : ℕ) (r : Row) → r.state ≡ leased → RowStep r (set_running now r)
unfolding set_running is_terminal
set_running-RowStep now r h = grind (arith, start)

pub set_renewed-RowStep :
    (now milliseconds : ℕ) (r : Row)
    → is_active r.state ≡ true
    → RowStep r (set_renewed now milliseconds r)
unfolding set_renewed is_terminal
set_renewed-RowStep now milliseconds r h = grind (arith, stay)

pub set_succeeded-RowStep :
    (now : ℕ) (response : String) (r : Row)
    → is_active r.state ≡ true
    → RowStep r (set_succeeded now response r)
unfolding set_succeeded is_terminal
set_succeeded-RowStep now response r h = grind (arith, succeed)

pub set_failed-RowStep :
    (now : ℕ) (retryable : Bool) (milliseconds : ℕ) (code message : String) (r : Row)
    → is_active r.state ≡ true
    → RowStep r (set_failed now retryable milliseconds code message r)
unfolding set_failed is_terminal
set_failed-RowStep now retryable milliseconds code message r h = grind (arith, fail, retry, exhaust)

pub set_cancel-RowStep : (now : ℕ) (r : Row) → RowStep r (set_cancel now r)
unfolding set_cancel is_terminal
set_cancel-RowStep now r = grind (arith, drop, stay)

pub set_canceled-RowStep :
    (now : ℕ) (r : Row) → is_active r.state ≡ true → RowStep r (set_canceled now r)
unfolding set_canceled is_terminal
set_canceled-RowStep now r h = grind (arith, stop)

pub set_leased-RowStep :
    (now : ℕ) (owner : String) (milliseconds : ℕ) (r : Row)
    → is_ready now r ≡ true
    → RowStep r (set_leased now owner milliseconds r)
unfolding set_leased is_terminal is_ready
set_leased-RowStep now owner milliseconds r h = grind (arith, lease)

pub set_reclaimed-RowStep :
    (now milliseconds : ℕ) (r : Row)
    → is_active r.state ≡ true
    → RowStep r (set_reclaimed now milliseconds r)
unfolding set_reclaimed is_terminal
set_reclaimed-RowStep now milliseconds r h = grind (arith, stop, retry, exhaust)
