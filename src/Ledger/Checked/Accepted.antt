-- ===== src/Ledger/Checked/Accepted.antt =====
-- The CHECK constraints of `durable_jobs` refuse no input that `CreateJobInput.Validate` of pkg/model/job.go accepts, if its hash is
-- one of SHA-256.
use Prim.Native.String as Str
use progo_a2a.Prelude.{
  ℕ, ◌≤◌, ◌<◌, ◌≡◌, refl, String, true, false, ◌&&◌, ◌||◌, arith, Bool-cases, inl, inr, ok,
  rune_count, sql_trim, is_empty, is_blank, is_blank-sql_trim, is_empty-sql_trim,
  rune_count-sql_trim, leb,
}
use progo_a2a.Prelude.Int.{pos_part}
use progo_a2a.Job.{CreateJobInput, validate_create}
use progo_a2a.Job.Validation.{IsText, validate_create-IsRouted, validate_create-attempts}
use progo_a2a.Ledger.Statements.{null_if_blank}
use progo_a2a.Ledger.Constraints.{
  passes_checks, trimmed_within, is_hash, if_some, filled, lease_state,
}
use progo_a2a.Ledger.Repository.{new_row}
use progo_a2a.Ledger.Repository.Payloads.{Encoding, Payload}
use progo_a2a.Ledger.Checked.{text-Within}

filled_text : (s : String) → is_empty s ≡ false → 0 < rune_count s
unfolding rune_count
filled_text Str.[] h = absurd (cc h)
filled_text (Str.◌∷◌ c s) h = omega arith

trimmed_text : (bound : ℕ) (s : String) → IsText s bound → trimmed_within bound s ≡ true
unfolding trimmed_within
trimmed_text bound s x =
    let w = text-Within bound s x.filled x.bounded in ground (arith, w.some_character, w.bounded)

-- A column of NULLIF(trim(s), '').
module _ (s : String) where
  twice : is_empty (sql_trim s) ≡ false → 0 < rune_count (sql_trim (sql_trim s))
  twice h = elim (Bool-cases (is_empty (sql_trim (sql_trim s)))) [
    | inl e ↦ absurd (cc (h, is_empty-sql_trim s e))
    | inr e ↦ filled_text (sql_trim (sql_trim s)) e
  ]

  column_within :
      (bound : ℕ) → rune_count s ≤ bound → if_some (trimmed_within bound) (null_if_blank s) ≡ true
  unfolding null_if_blank trimmed_within
  column_within bound fits = elim (Bool-cases (is_empty (sql_trim s))) [
    | inl e ↦ rw e refl
    | inr e ↦
        rw e
          (ground (arith, twice e, rune_count-sql_trim (sql_trim s), rune_count-sql_trim s, fits))
  ]

  column_filled : is_blank s ≡ false → filled (null_if_blank s) ≡ true
  unfolding null_if_blank
  column_filled h = elim (Bool-cases (is_empty (sql_trim s))) [
    | inl e ↦ absurd (cc (h, is_blank-sql_trim s e))
    | inr e ↦ rw e (ground (arith, twice e))
  ]

routed_columns :
    (a c : String)
    → (is_blank a && is_blank c) ≡ false
    → (filled (null_if_blank a) || filled (null_if_blank c)) ≡ true
routed_columns a c h = elim (Bool-cases (is_blank a)) [
  | inr e ↦ rw (column_filled a e) refl
  | inl e ↦ elim (Bool-cases (is_blank c)) [
    | inr f ↦ ground (arith, column_filled c f)
    | inl f ↦ absurd (ground (arith, h, e, f))
  ]
]

attempts_within : (n : ℕ) → 0 < n → n ≤ 100 → (leb 1 n && leb n 100) ≡ true
attempts_within n low high = ground (arith, low, high)

pub new_row-passes_checks :
    (e : Encoding) (now : ℕ) (input : CreateJobInput (Payload e)) (request : Payload e)
    (stored hash : String)
    → validate_create input ≡ ok request
    → is_hash hash ≡ true
    → passes_checks (new_row e now input stored hash) ≡ true
unfolding passes_checks new_row lease_state
new_row-passes_checks e now input request stored hash valid digest =
    let x = validate_create-IsRouted input valid in
    let (low, high) = validate_create-attempts input valid in
    rw
      (
        trimmed_text 256 input.id x.id,
        trimmed_text 128 input.tenant_id x.tenant,
        trimmed_text 512 input.idempotency_key x.key,
        digest,
        column_within input.agent_id 256 x.agent,
        column_within input.required_capability 256 x.capability,
        attempts_within (pos_part input.max_attempts) low high,
        routed_columns input.agent_id input.required_capability x.routing,
      )
      refl
