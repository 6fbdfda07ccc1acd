-- ===== src/Ledger/Checked.antt =====
-- The CHECK constraints of `durable_jobs` hold of every row that the methods of pkg/storage/postgres_jobs.go leave, those of
-- the columns that an UPDATE writes included: no UPDATE is refused for them.
pub mod Updates
pub mod Reachable
pub mod Accepted
use Prim.Native.String as Str
use Prim.Native.Char.{code}
use progo_a2a.Prelude.{
  ℕ, ◌≤◌, ◌<◌, ◌≡◌, refl, String, Bool, true, false, ◌⊎◌, inl, inr, Option, none, some, List, [],
  ◌∷◌, ◌++◌, arith, Bool-cases, All, Result, ok, err, rune_count, sql_trim, is_empty, is_blank,
  subst, sym, rune_count-sql_trim, is_blank-sql_trim, if◌then◌else◌, ◌/◌, leb, ◌&&◌, ◌||◌, ◌==◌,
}
use progo_a2a.Prelude.Int.{ℤ, pos_part}
use progo_a2a.Job.{
  JobError, FailJobInput, CreateJobInput, check_text, validate_fail, validate_create, fail_fence,
  max_lease_owner_length, empty_lease_owner, lease_owner_too_long,
}
use progo_a2a.Job.Validation.{check_text-IsText}
use progo_a2a.Ledger.Row.{Row, update_where}
use progo_a2a.Ledger.Statements.{
  null_if_blank, set_running, set_renewed, set_succeeded, set_failed, set_cancel, set_canceled,
  set_leased, set_reclaimed,
}
use progo_a2a.Ledger.Constraints.{
  passes_checks, trimmed_within, if_some, filled, all_hex, is_hash, lease_state,
}
use progo_a2a.Ledger.Repository.{conflicts, insert_row, acquire_leases, fail_job, create_job}
use progo_a2a.Ledger.Repository.Monad.{Repo, Call, open_repo, exec, query}
use progo_a2a.Ledger.Repository.Payloads.{Encoding, Payload}
use progo_a2a.Ledger.Action.{Action, run, run_all}
use progo_a2a.Ledger.Table.{IsLedger, empty_repo, All-append-one, reachable-IsLedger}
use progo_a2a.Ledger.Evolution.Writes.{
  mark_running-Writes, renew_lease-Writes, complete_job-Writes, fail_job-Writes,
  acknowledge_cancellation-Writes, cancel_job-Writes, reclaim_expired_leases-Writes,
  acquire_leases-Writes, row_of, create_job-Writes, create_job-refused,
}

-- A text that has a character other than spaces, and no more than a bound without those around it.
pub record Within (bound : ℕ) (s : String) : Type 0 where
  pub some_character : 0 < rune_count (sql_trim s)
  pub bounded : rune_count (sql_trim s) ≤ bound

abbrev pub AtMost : ℕ → String → Type 0
AtMost bound s = rune_count s ≤ bound

-- What is true of a column unless it is NULL.
abbrev pub Each : (String → Type 0) → Option String → Type 0
Each P none = Unit
Each P (some s) = P s

-- The texts of the digits 0 to 9 and the letters a to f.
abbrev pub AllHex : String → Type 0
AllHex Str.[] = Unit
AllHex (Str.◌∷◌ c s) =
    (((48 ≤ code c) × (code c ≤ 57)) ⊎ ((97 ≤ code c) × (code c ≤ 102))) × AllHex s

-- The columns that are written once, by CreateJob.
pub record Created (r : Row) : Type 0 where
  pub id : Within 256 r.id
  pub tenant : Within 128 r.tenant_id
  pub key : Within 512 r.idempotency_key
  pub hash_length : rune_count r.request_hash ≡ 64
  pub hash_digits : AllHex r.request_hash
  pub agent : Each (Within 256) r.agent_id
  pub capability : Each (Within 256) r.required_capability
  pub routing : (r.agent_id ≡ none → r.required_capability ≡ none → ⊥)
  pub attempts : (0 < r.max_attempts) × (r.max_attempts ≤ 100)

pub record IsChecked (r : Row) : Type 0 where
  pub created : Created r
  pub owner : Each (Within 256) r.lease_owner
  pub code : Each (AtMost 128) r.failure_code
  pub message : Each (AtMost 2048) r.failure_message

trimmed_within-Within : (bound : ℕ) (s : String) → trimmed_within bound s ≡ true → Within bound s
unfolding trimmed_within
trimmed_within-Within bound s h = record {
  some_character = ground (arith, h);
  bounded = ground (arith, h);
}

all_hex-AllHex : (s : String) → all_hex s ≡ true → AllHex s
unfolding all_hex
all_hex-AllHex Str.[] h = tt
all_hex-AllHex (Str.◌∷◌ c s) h = (ground (arith, h), all_hex-AllHex s (ground (arith, h)))

both : (a b : Bool) → (a && b) ≡ true → (a ≡ true) × (b ≡ true)
both true b h = (refl, h)
both false b h = absurd (cc h)

routed : (a b : Option String) → (filled a || filled b) ≡ true → a ≡ none → b ≡ none → ⊥
routed none none h p q = cc h
routed none (some t) h p q = cc q
routed (some s) b h p q = cc p

Each-AtMost :
    (bound : ℕ) (o : Option String)
    → if_some (λ s. leb (rune_count s) bound) o ≡ true
    → Each (AtMost bound) o
Each-AtMost bound none h = tt
Each-AtMost bound (some s) h = ground (arith, h)

Each-Within :
    (bound : ℕ) (o : Option String)
    → if_some (trimmed_within bound) o ≡ true
    → Each (Within bound) o
Each-Within bound none h = tt
Each-Within bound (some s) h = trimmed_within-Within bound s h

is_hash-parts : (s : String) → is_hash s ≡ true → (rune_count s ≡ 64) × (all_hex s ≡ true)
unfolding is_hash
is_hash-parts s h = (ground (arith, h), ground (arith, h))

pub passes_checks-IsChecked : (r : Row) → passes_checks r ≡ true → IsChecked r
unfolding passes_checks
passes_checks-IsChecked r h =
    let (h, leases) = both _ (lease_state r) h in
    let (h, routing) = both _ (filled r.agent_id || filled r.required_capability) h in
    let (h, message) = both _ (if_some (λ s. leb (rune_count s) 2048) r.failure_message) h in
    let (h, code) = both _ (if_some (λ s. leb (rune_count s) 128) r.failure_code) h in
    let (h, owner) = both _ (if_some (trimmed_within 256) r.lease_owner) h in
    let (h, attempts) = both _ (leb 1 r.max_attempts && leb r.max_attempts 100) h in
    let (h, capability) = both _ (if_some (trimmed_within 256) r.required_capability) h in
    let (h, agent) = both _ (if_some (trimmed_within 256) r.agent_id) h in
    let (h, hash) = both _ (is_hash r.request_hash) h in
    let (h, key) = both _ (trimmed_within 512 r.idempotency_key) h in
    let (id, tenant) = both (trimmed_within 256 r.id) (trimmed_within 128 r.tenant_id) h in
    let (length, digits) = is_hash-parts r.request_hash hash in
    let (low, high) = both (leb 1 r.max_attempts) (leb r.max_attempts 100) attempts in
    record {
      created = record {
        id = trimmed_within-Within 256 r.id id;
        tenant = trimmed_within-Within 128 r.tenant_id tenant;
        key = trimmed_within-Within 512 r.idempotency_key key;
        hash_length = length;
        hash_digits = all_hex-AllHex r.request_hash digits;
        agent = Each-Within 256 r.agent_id agent;
        capability = Each-Within 256 r.required_capability capability;
        routing = routed r.agent_id r.required_capability routing;
        attempts = (le_of low, le_of high);
      };
      owner = Each-Within 256 r.lease_owner owner;
      code = Each-AtMost 128 r.failure_code code;
      message = Each-AtMost 2048 r.failure_message message;
    }
  where
    le_of : {m n : ℕ} → leb m n ≡ true → m ≤ n
    le_of h = ground (arith, h)

-- A text that Go finds neither blank nor too long.
pub text-Within :
    (bound : ℕ) (s : String) → is_blank s ≡ false → rune_count s ≤ bound → Within bound s
unfolding rune_count
text-Within bound s h fits = record {
  some_character =
      filled_text (sql_trim s) (λ e. absurd (ground (arith, h, is_blank-sql_trim s e)));
  bounded = omega (arith, rune_count-sql_trim s, fits);
}
  where
    filled_text : (t : String) → (is_empty t ≡ true → ⊥) → 0 < rune_count t
    filled_text Str.[] f = absurd (f refl)
    filled_text (Str.◌∷◌ c t) f = omega arith

pub null_if_blank-AtMost :
    (bound : ℕ) (s : String) → rune_count s ≤ bound → Each (AtMost bound) (null_if_blank s)
unfolding null_if_blank
null_if_blank-AtMost bound s fits = elim (Bool-cases (is_empty (sql_trim s))) [
  | inl e ↦ rw e tt
  | inr e ↦ rw e (omega (arith, rune_count-sql_trim s, fits))
]
