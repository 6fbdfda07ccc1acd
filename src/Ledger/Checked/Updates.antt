-- ===== src/Ledger/Checked/Updates.antt =====
-- The SET clauses of pkg/storage/postgres_jobs.go keep the CHECK constraints of `durable_jobs`.
use Prim.Native.Char.{code}
use progo_a2a.Prelude.{
  ℕ, ◌≤◌, ◌≡◌, refl, String, Bool, true, ◌⊎◌, inl, inr, List, [], ◌∷◌, Bool-cases, All, rune_count,
}
use progo_a2a.Ledger.Row.{Row, update_where}
use progo_a2a.Ledger.Statements.{
  set_running, set_renewed, set_succeeded, set_failed, set_cancel, set_canceled, set_leased,
  set_reclaimed,
}
use progo_a2a.Ledger.Constraints.{passes_checks}
use progo_a2a.Ledger.Repository.{conflicts, insert_row}
use progo_a2a.Ledger.Table.{All-append-one}
use progo_a2a.Ledger.Checked.{
  Within, AtMost, Each, Created, IsChecked, passes_checks-IsChecked, null_if_blank-AtMost,
}

-- The SET clauses. The columns of `Created` are written by none.
module _ (now : ℕ) (r : Row) (x : IsChecked r) where
  keep-Created :
      (s : Row)
      → s.id ≡ r.id
      → s.tenant_id ≡ r.tenant_id
      → s.idempotency_key ≡ r.idempotency_key
      → s.request_hash ≡ r.request_hash
      → s.agent_id ≡ r.agent_id
      → s.required_capability ≡ r.required_capability
      → s.max_attempts ≡ r.max_attempts
      → Created s
  keep-Created s id tenant key hash agent capability attempts = record {
    id = rw id x.created.id;
    tenant = rw tenant x.created.tenant;
    key = rw key x.created.key;
    hash_length = rw hash x.created.hash_length;
    hash_digits = rw hash x.created.hash_digits;
    agent = rw agent x.created.agent;
    capability = rw capability x.created.capability;
    routing = rw (agent, capability) x.created.routing;
    attempts = rw attempts x.created.attempts;
  }

  -- A statement that writes the owner, the code and the message of the failure at most.
  written :
      (s : Row)
      → Created s
      → Each (Within 256) s.lease_owner
      → Each (AtMost 128) s.failure_code
      → Each (AtMost 2048) s.failure_message
      → IsChecked s
  written s created owner code message = record {
    created = created;
    owner = owner;
    code = code;
    message = message;
  }

  pub set_running-IsChecked : IsChecked (set_running now r)
  unfolding set_running
  set_running-IsChecked =
      written _ (keep-Created _ refl refl refl refl refl refl refl) x.owner x.code x.message

  pub set_renewed-IsChecked : (milliseconds : ℕ) → IsChecked (set_renewed now milliseconds r)
  unfolding set_renewed
  set_renewed-IsChecked milliseconds =
      written _ (keep-Created _ refl refl refl refl refl refl refl) x.owner x.code x.message

  pub set_succeeded-IsChecked : (response : String) → IsChecked (set_succeeded now response r)
  unfolding set_succeeded
  set_succeeded-IsChecked response =
      written _ (keep-Created _ refl refl refl refl refl refl refl) tt x.code x.message

  pub set_failed-IsChecked :
      (retryable : Bool) (milliseconds : ℕ) (code message : String)
      → rune_count code ≤ 128
      → rune_count message ≤ 2048
      → IsChecked (set_failed now retryable milliseconds code message r)
  unfolding set_failed
  set_failed-IsChecked retryable milliseconds code message c m =
      written _ (keep-Created _ refl refl refl refl refl refl refl) tt
        (null_if_blank-AtMost 128 code c) (null_if_blank-AtMost 2048 message m)

  pub set_cancel-IsChecked : IsChecked (set_cancel now r)
  unfolding set_cancel
  set_cancel-IsChecked =
      written _ (keep-Created _ refl refl refl refl refl refl refl) x.owner x.code x.message

  pub set_canceled-IsChecked : IsChecked (set_canceled now r)
  unfolding set_canceled
  set_canceled-IsChecked =
      written _ (keep-Created _ refl refl refl refl refl refl refl) tt x.code x.message

  pub set_leased-IsChecked :
      (owner : String) (milliseconds : ℕ)
      → Within 256 owner
      → IsChecked (set_leased now owner milliseconds r)
  unfolding set_leased
  set_leased-IsChecked owner milliseconds w =
      written _ (keep-Created _ refl refl refl refl refl refl refl) w x.code x.message

  pub set_reclaimed-IsChecked : (milliseconds : ℕ) → IsChecked (set_reclaimed now milliseconds r)
  unfolding set_reclaimed
  set_reclaimed-IsChecked milliseconds =
      written _ (keep-Created _ refl refl refl refl refl refl refl) tt x.code x.message

abbrev pub AllChecked : List Row → Type 0
AllChecked rows = All IsChecked rows

update_where-AllChecked :
    (test : Row → Bool) (set : Row → Row) (rows : List Row)
    → ((r : Row) → IsChecked r → IsChecked (set r))
    → AllChecked rows
    → AllChecked (update_where test set rows)
unfolding update_where
update_where-AllChecked test set [] f h = tt
update_where-AllChecked test set (r ∷ rows) f h = (
  elim (Bool-cases (test r)) [ inl e ↦ rw e (f r h.0) | inr e ↦ rw e h.0 ],
  update_where-AllChecked test set rows f h.1,
)

-- An outcome that leaves the table, or makes an UPDATE.
pub updated :
    (rows rows' : List Row) (test : Row → Bool) (set : Row → Row)
    → ((r : Row) → IsChecked r → IsChecked (set r))
    → AllChecked rows
    → (rows' ≡ rows) ⊎ (rows' ≡ update_where test set rows)
    → AllChecked rows'
updated rows rows' test set f h (inl e) = rw e h
updated rows rows' test set f h (inr e) = rw e (update_where-AllChecked test set rows f h)

pub inserted :
    (rows rows' : List Row) (r : Row)
    → AllChecked rows
    → (rows' ≡ rows) ⊎ ((rows' ≡ insert_row r rows) × (passes_checks r ≡ true))
    → AllChecked rows'
unfolding insert_row
inserted rows rows' r h (inl e) = rw e h
inserted rows rows' r h (inr (e, checked)) = elim (Bool-cases (conflicts r rows)) [
  | inl c ↦ rw (e, c) h
  | inr c ↦ rw (e, c) (All-append-one IsChecked rows r h (passes_checks-IsChecked r checked))
]
