-- ===== src/Ledger/Repository/Payloads.antt =====
-- `marshalJobPayload` and `computeJobIdempotencyHash` of pkg/storage/postgres_jobs.go. JSON encoding
-- and SHA-256 are parameters of the model.
use Prim.Native.String.{len}
use progo_a2a.Prelude.{String, Option, none, some, Result, ok, err, ltb, trim_space, if◌then◌else◌}
use progo_a2a.Prelude.Int.{ℤ}
use progo_a2a.Job.{CreateJobInput}
use progo_a2a.Prelude.{Bool}
use progo_a2a.Ledger.Repository.Monad.{Error}

-- `marshal` is `json.Marshal`, `valid` is `json.Valid`, `fingerprint` is `json.Marshal` of the request,
-- the agent, the capability and the attempts, `digest` is `model.ComputeRequestHash`, and
-- `jsonb` is the cast `::jsonb` of PostgreSQL: the text that is stored, or none where it refuses the text.
pub record Encoding : Type 1 where
  pub Value : Type 0
  pub marshal : Value → Option String
  pub valid : String → Bool
  pub fingerprint : String → String → String → ℤ → Option String
  pub digest : String → String
  pub jsonb : String → Option String

module _ (e : Encoding) where
  -- The dynamic type of a payload: `json.RawMessage`, or another.
  pub data Payload : Type 0 where
    raw : String → Payload
    value : e.Value → Payload

  abbrev bounded : String → Result Error String
  bounded payload =
      if ltb 10_485_760 (len payload) then err Error.job_payload_too_large else ok payload

  abbrev marshaled : Option String → Result Error String
  marshaled none = err Error.invalid_payload
  marshaled (some payload) = bounded payload

  unfoldable pub marshal_job_payload : Payload → Result Error String
  marshal_job_payload (raw s) = if e.valid s then bounded s else err Error.invalid_payload
  marshal_job_payload (value v) = marshaled (e.marshal v)

  abbrev digested : Option String → Result Error String
  digested none = err Error.invalid_payload
  digested (some s) = ok (e.digest s)

  unfoldable pub compute_job_idempotency_hash :
      {V : Type 0} → String → CreateJobInput V → Result Error String
  compute_job_idempotency_hash request input = digested (
      e.fingerprint request (trim_space input.agent_id) (trim_space input.required_capability)
        input.max_attempts)

  -- `$5::jsonb`: a text that the cast refuses is an error of the statement.
  abbrev pub cast_jsonb : String → Result Error String
  cast_jsonb payload = elim (e.jsonb payload) [
    | none ↦ err Error.database
    | some stored ↦ ok stored
  ]
