-- ===== src/Ledger/Constraints.antt =====
-- The CHECK constraints that pkg/storage/migrations/002_create_durable_jobs.sql puts on the table `durable_jobs`.
-- NULL passes those of the columns that may be NULL.
use Prim.Native.String as Str
use Prim.Native.Char.{code}
use progo_a2a.Prelude.{
  ℕ, String, Bool, true, false, ◌&&◌, ◌||◌, not, Option, none, some, rune_count, sql_trim, leb, ltb,
  ◌==◌, is_some,
}
use progo_a2a.Ledger.Row.{Row, is_active}

-- `length(trim(s)) BETWEEN 1 AND bound`.
unfoldable pub trimmed_within : ℕ → String → Bool
trimmed_within bound s = let n = rune_count (sql_trim s) in leb 1 n && leb n bound

-- `[0-9a-f]`, and `~ '^[0-9a-f]{64}$'`.
abbrev pub is_hex_digit : ℕ → Bool
is_hex_digit c = (leb b'0' c && leb c b'9') || (leb b'a' c && leb c b'f')

unfoldable pub all_hex : String → Bool
all_hex Str.[] = true
all_hex (Str.◌∷◌ c s) = is_hex_digit (code c) && all_hex s

unfoldable pub is_hash : String → Bool
unfolding all_hex
is_hash s = rune_count s == 64 && all_hex s

abbrev pub if_some : (String → Bool) → Option String → Bool
if_some test none = true
if_some test (some s) = test s

abbrev pub filled : Option String → Bool
filled none = false
filled (some s) = ltb 0 (rune_count (sql_trim s))

-- `chk_durable_jobs_lease_state`
unfoldable pub lease_state : Row → Bool
lease_state r =
    (is_active r.state && filled r.lease_owner && ltb 0 r.lease_token && is_some r.lease_expires_at)
    || (not (is_active r.state) && not (is_some r.lease_owner) && not (is_some r.lease_expires_at))

unfoldable pub passes_checks : Row → Bool
unfolding trimmed_within is_hash lease_state
passes_checks r =
    trimmed_within 256 r.id
    && trimmed_within 128 r.tenant_id
    && trimmed_within 512 r.idempotency_key
    && is_hash r.request_hash
    && if_some (trimmed_within 256) r.agent_id
    && if_some (trimmed_within 256) r.required_capability
    && (leb 1 r.max_attempts && leb r.max_attempts 100)
    && if_some (trimmed_within 256) r.lease_owner
    && if_some (λ s. leb (rune_count s) 128) r.failure_code
    && if_some (λ s. leb (rune_count s) 2048) r.failure_message
    && (filled r.agent_id || filled r.required_capability)
    && lease_state r
