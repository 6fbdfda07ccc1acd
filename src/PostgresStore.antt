-- ===== src/PostgresStore.antt =====
-- pkg/storage/postgres.go: the task store on PostgreSQL. A statement is atomic. The table is that of
-- pkg/storage/migrations/001_create_task_results.sql.
pub mod Upserts
pub mod Saved
mod Examples
use progo_a2a.Prelude.{
  ℕ, zero, suc, ◌-◌, String, Bool, true, false, ◌&&◌, ◌||◌, not, Option, none, some, List, [], ◌∷◌,
  find, str_eq, is_empty, is_prefix, rune_count, str_append, if◌then◌else◌, Result, ok, err, ◌>>=◌,
  fail_if, of_option,
}
use progo_a2a.A2a.{TaskResponse, TaskStatus}
use progo_a2a.Ledger.Repository.Monad.{ContextError, context_canceled, deadline_exceeded}
use progo_a2a.TaskStore.{contains, collect_keys}

-- An error of the driver.
pub data DriverError : Type 0 where
  context_error : ContextError → DriverError
  message : String → DriverError

-- `json.Marshal` and `json.Unmarshal` of a response, and the cast `::jsonb`, which refuses some texts, and
-- the error with which PostgreSQL refuses a statement.
pub record Codec : Type 0 where
  pub marshal : TaskResponse → Option String
  pub to_jsonb : String → Option String
  pub unmarshal : String → Option TaskResponse
  pub refusal : DriverError

pub record ResultRow : Type 0 where
  pub lookup_id : String
  pub task_id : String
  pub agent_id : String
  pub status : TaskStatus
  pub response : String
  pub created_at : ℕ
  pub updated_at : ℕ

pub data PostgresError : Type 0 where
  nil_task_response empty_task_id task_not_found marshal_error decode_error store_closed nil_pool :
      PostgresError
  done_context : ContextError → PostgresError
  driver : DriverError → PostgresError

-- What becomes of a statement: an answer, no execution, or an execution whose answer is lost.
pub data Trip : Type 0 where
  answered : Trip
  refused lost : DriverError → Trip

-- The store, and the table that its pool reaches.
pub record PostgresTaskStore : Type 0 where
  pub has_pool : Bool
  pub closed : Bool
  pub pool_closed : Bool
  pub owns_pool : Bool
  pub redact_tokens : List String
  pub rows : List ResultRow

-- `strings.ReplaceAll(msg, t, "[REDACTED]")`. The number counts the characters of an occurrence that are left.
unfoldable pub redact_token : String → ℕ → String → String
unfolding is_prefix rune_count
redact_token t left String.[] = String.[]
redact_token t (suc left) (String.◌∷◌ c s) = redact_token t left s
redact_token t zero (String.◌∷◌ c s) =
    let inside = redact_token t (rune_count t - 1) s in
    let rest = redact_token t zero s in
    if is_prefix t (String.◌∷◌ c s) then str_append "[REDACTED]" inside else String.◌∷◌ c rest

unfoldable pub redact_string : String → List String → String
unfolding redact_token
redact_string msg [] = msg
redact_string msg (t ∷ tokens) =
    redact_string (if is_empty t then msg else redact_token t zero msg) tokens

abbrev pub redact_error : DriverError → List String → DriverError
redact_error (context_error e) tokens = context_error e
redact_error (message msg) tokens = message (redact_string msg tokens)

-- The statement `upsertTaskResultsSQL`, which PostgreSQL refuses when a key is given twice.
unfoldable pub has_duplicate : List String → Bool
unfolding contains
has_duplicate [] = false
has_duplicate (k ∷ keys) = contains k keys || has_duplicate keys

unfoldable pub upsert_row : ResultRow → List ResultRow → List ResultRow
upsert_row new [] = new ∷ []
upsert_row new (r ∷ rows) =
    let rest = upsert_row new rows in
    if str_eq r.lookup_id new.lookup_id
    then record new { created_at = r.created_at } ∷ rows
    else r ∷ rest

abbrev pub result_row : TaskResponse → String → ℕ → String → ResultRow
result_row resp jsonb now k = record {
  lookup_id = k;
  task_id = resp.task_id;
  agent_id = resp.agent_id;
  status = resp.status;
  response = jsonb;
  created_at = now;
  updated_at = now;
}

unfoldable pub upsert_all : (String → ResultRow) → List String → List ResultRow → List ResultRow
unfolding upsert_row
upsert_all row [] rows = rows
upsert_all row (k ∷ keys) rows = upsert_all row keys (upsert_row (row k) rows)

unfoldable pub exec_upsert :
    DriverError
    → Trip
    → Option String
    → (String → List ResultRow → List ResultRow)
    → Bool
    → List ResultRow
    → Result DriverError Unit × List ResultRow
exec_upsert refusal (refused e) jsonb write duplicate rows = (err e, rows)
exec_upsert refusal trip none write duplicate rows = (err refusal, rows)
exec_upsert refusal trip (some t) write true rows = (err refusal, rows)
exec_upsert refusal answered (some t) write false rows = (ok tt, write t rows)
exec_upsert refusal (lost e) (some t) write false rows = (err e, write t rows)

-- The tests of the state that every method starts with.
abbrev pub check_pool : PostgresTaskStore → Result PostgresError Unit
check_pool s = fail_if s.closed store_closed >>= λ _. fail_if (not s.has_pool) nil_pool

abbrev pub check_context : Option ContextError → Result PostgresError Unit
check_context none = ok tt
check_context (some e) = err (done_context e)

abbrev pub checked_response : Option TaskResponse → Result PostgresError TaskResponse
checked_response none = err nil_task_response
checked_response (some resp) = if is_empty resp.task_id then err empty_task_id else ok resp

-- The error that a method returns, redacted.
abbrev pub driver_result :
    {A : Type 0} → List String → Result DriverError A → Result PostgresError A
driver_result tokens (ok a) = ok a
driver_result tokens (err e) = err (driver (redact_error e tokens))

module _ (codec : Codec) where
  abbrev pub prepared :
      Option ContextError
      → Option TaskResponse
      → PostgresTaskStore
      → Result PostgresError (TaskResponse × String)
  prepared context resp s = checked_response resp >>= λ r. check_context context >>= λ _.
      of_option marshal_error (codec.marshal r) >>= λ t. check_pool s >>= λ _. ok (r, t)

  abbrev pub save_prepared :
      Trip
      → ℕ
      → List String
      → Result PostgresError (TaskResponse × String)
      → PostgresTaskStore
      → Result PostgresError Unit × PostgresTaskStore
  save_prepared trip now aliases (err e) s = (err e, s)
  save_prepared trip now aliases (ok (resp, t)) s =
      let keys = collect_keys (resp.task_id ∷ []) aliases in
      let (result, rows) =
        exec_upsert codec.refusal trip (codec.to_jsonb t)
          (λ jsonb. upsert_all (result_row resp jsonb now) keys) (has_duplicate keys) s.rows in
      (driver_result s.redact_tokens result, record s { rows = rows })

  -- `Save`
  unfoldable pub save :
      Option ContextError
      → Trip
      → ℕ
      → Option TaskResponse
      → List String
      → PostgresTaskStore
      → Result PostgresError Unit × PostgresTaskStore
  unfolding collect_keys exec_upsert upsert_all has_duplicate redact_string
  save context trip now resp aliases s = save_prepared trip now aliases (prepared context resp s) s

  abbrev pub load_row : Trip → List String → Option ResultRow → Result PostgresError TaskResponse
  load_row (refused e) tokens row = err (driver (redact_error e tokens))
  load_row (lost e) tokens row = err (driver (redact_error e tokens))
  load_row answered tokens none = err task_not_found
  load_row answered tokens (some row) = of_option decode_error (codec.unmarshal row.response)

  -- `Load`
  unfoldable pub load :
      Option ContextError → Trip → String → PostgresTaskStore → Result PostgresError TaskResponse
  unfolding redact_string
  load context trip id s = check_context context >>= λ _.
      fail_if (is_empty id) task_not_found >>= λ _.
      check_pool s >>= λ _. load_row trip s.redact_tokens (find (λ r. str_eq r.lookup_id id) s.rows)

-- `Ping`
unfoldable pub ping : Trip → PostgresTaskStore → Result PostgresError Unit
unfolding redact_string
ping answered s = check_pool s
ping (refused e) s = check_pool s >>= λ _. err (driver (redact_error e s.redact_tokens))
ping (lost e) s = check_pool s >>= λ _. err (driver (redact_error e s.redact_tokens))

-- `Close`
unfoldable pub close : PostgresTaskStore → PostgresTaskStore
close s =
    if s.closed
    then s
    else record s { closed = true; pool_closed = s.pool_closed || s.owns_pool && s.has_pool }
