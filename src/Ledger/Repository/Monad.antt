-- ===== src/Ledger/Repository/Monad.antt =====
-- The actions of the job repository: state, errors, and the round trips to the database.
use progo_a2a.Prelude.{ℕ, Bool, true, false, Option, none, some, List, Result, ok, err}
use progo_a2a.Job.{JobError}
use progo_a2a.Ledger.Row.{Row}

pub data ContextError : Type 0 where
  context_canceled deadline_exceeded : ContextError

-- The sentinels of pkg/storage/job_repository.go; `invalid` holds those of pkg/model/job.go, and
-- `database` stands for every error of the driver.
pub data Error : Type 0 where
  store_closed job_not_found idempotency_conflict lease_lost job_id_conflict : Error
  cancellation_requested invalid_batch_size invalid_lease_duration job_payload_too_large : Error
  invalid_payload database : Error
  context : ContextError → Error
  invalid : JobError → Error

-- One round trip: the answer arrives; the statement is not executed; or it is, and no answer arrives.
pub data Wire : Type 0 where
  answered refused lost : Wire

-- What a call meets: the state of its context, the time of the database, and its round trips.
pub record Call : Type 0 where
  pub context : Option ContextError
  pub now : ℕ
  pub first : Wire
  pub second : Wire

-- `closed`, and the rows of the table that the pool reaches.
pub record Repo : Type 0 where
  pub closed : Bool
  pub rows : List Row

abbrev pub M : Type 0 → Type 0
M A = Repo → Result Error A × Repo

abbrev pub pure : {A : Type 0} → A → M A
pure a r = (ok a, r)

abbrev pub raise : {A : Type 0} → Error → M A
raise e r = (err e, r)

abbrev pub raise_if : Bool → Error → M Unit
raise_if true e r = (err e, r)
raise_if false e r = (ok tt, r)

abbrev continue : {A B : Type 0} → Result Error A → (A → M B) → M B
continue (ok a) f r = f a r
continue (err e) f r = (err e, r)

infixl 5 ◌>>=◌ ◌>>◌
abbrev pub ◌>>=◌ : {A B : Type 0} → M A → (A → M B) → M B
◌>>=◌ m f r = let (a, r') = m r in continue a f r'

abbrev pub ◌>>◌ : {B : Type 0} → M Unit → M B → M B
m >> n = m >>= λ _. n

-- The errors of a validation, wrapped.
abbrev pub lift : {A : Type 0} → Result JobError A → M A
lift (ok a) r = (ok a, r)
lift (err e) r = (err (invalid e), r)

abbrev pub from_result : {A : Type 0} → Result Error A → M A
from_result a r = (a, r)

-- The two tests that every method starts with.
unfoldable pub open_repo : Call → M Unit
open_repo c r = elim r.closed [
  | true ↦ (err store_closed, r)
  | false ↦ elim c.context [ none ↦ (ok tt, r) | some e ↦ (err (context e), r) ]
]

-- A statement that writes: the table that it makes, and what it returns.
unfoldable pub exec : {A : Type 0} → Wire → (List Row → List Row) → (List Row → A) → M A
exec answered write answer r = (ok (answer r.rows), record r { rows = write r.rows })
exec refused write answer r = (err database, r)
exec lost write answer r = (err database, record r { rows = write r.rows })

-- A statement that only reads.
unfoldable pub query : {A : Type 0} → Wire → (List Row → A) → M A
query answered answer r = (ok (answer r.rows), r)
query _ answer r = (err database, r)
