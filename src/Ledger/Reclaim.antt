-- ===== src/Ledger/Reclaim.antt =====
-- ReclaimExpiredLeases: which jobs it takes back, and where they go.
mod Sorting
use Prim.Native.String.{String}
use progo_a2a.Prelude.{
  ℕ, zero, suc, ◌≤◌, ◌<◌, ◌/◌, ◌≡◌, refl, ap, subst, ◌∙◌, Bool, true, false, ◌&&◌, not, Option,
  none, some, leb, ◌⊎◌, if◌then◌else◌, List, [], ◌∷◌, arith, Bool-cases, inl, inr, Result, ok,
  is_some, length, take, keep, In, here, there, In-any,
}
use progo_a2a.Prelude.Int.{ℤ, pos, pos_part, ltb_ℤ}
use progo_a2a.Job.{JobState, leased, running, canceled, queued, dead_letter, max_retry_backoff}
use progo_a2a.Ledger.Row.{Row, is_active, has_key, update_where, count_where}
use progo_a2a.Ledger.Statements.{
  after, selected, choose, is_expired, expired, expires_before, insert_by, sort_by, set_reclaimed,
}
use progo_a2a.Ledger.Keys.{Distinct, same_key, has_key_self, selected-choose}
use progo_a2a.Ledger.Lookup.{at, at-update_where}
use progo_a2a.Ledger.Fencing.{IsLive}
use progo_a2a.Ledger.Acquire.{at-In}
use progo_a2a.Ledger.Repository.{reclaim_expired_leases, validate_job_batch_size}
use progo_a2a.Ledger.Repository.Monad.{Error, Repo, Call, exec, open_repo}
use Sorting.{In-sort_by, length-sort_by, take_all, In-keep}

-- A lease that is over at the time `now`: the job is leased or running, and its expiry has come.
abbrev pub lease_over : ℕ → JobState → Option ℕ → Bool
lease_over now leased (some expiry) = leb expiry now
lease_over now running (some expiry) = leb expiry now
lease_over now _ _ = false

abbrev pub over : ℕ → Row → Bool
over now r = lease_over now r.state r.lease_expires_at

-- The jobs that no other transaction holds and whose leases are over.
abbrev pub reclaimable : ℕ → (Row → Bool) → List Row → List Row
reclaimable now locked rows = keep (λ r. over now r && not (locked r)) rows

is_expired-eq-over : (now : ℕ) (r : Row) → is_expired now r ≡ over now r
unfolding is_expired
is_expired-eq-over now r = by_state r.state r.lease_expires_at
  where
    by_state :
        (state : JobState) (expiry : Option ℕ)
        → (is_active state && expired now expiry) ≡ lease_over now state expiry
    by_state queued expiry = refl
    by_state leased none = refl
    by_state leased (some t) = refl
    by_state running none = refl
    by_state running (some t) = refl
    by_state JobState.succeeded expiry = refl
    by_state JobState.failed expiry = refl
    by_state canceled expiry = refl
    by_state dead_letter expiry = refl

keep-expired :
    (now : ℕ) (locked : Row → Bool) (rows : List Row)
    → keep (λ r. is_expired now r && not (locked r)) rows ≡ reclaimable now locked rows
keep-expired now locked [] = refl
keep-expired now locked (r ∷ rows) =
    rw (is_expired-eq-over now r, keep-expired now locked rows) refl

-- Where a reclaimed job goes, and when it runs next.
pub data ReclaimOutcome (now milliseconds : ℕ) (row : Row) : JobState → ℕ → Type 0 where
  dropped :
      is_some row.cancel_requested_at ≡ true
      → ReclaimOutcome now milliseconds row canceled row.next_run_at
  again :
      is_some row.cancel_requested_at ≡ false
      → row.attempt < row.max_attempts
      → ReclaimOutcome now milliseconds row queued (after now milliseconds)
  exhausted :
      is_some row.cancel_requested_at ≡ false
      → row.max_attempts ≤ row.attempt
      → ReclaimOutcome now milliseconds row dead_letter row.next_run_at

set_reclaimed-ReclaimOutcome :
    (now milliseconds : ℕ) (row : Row)
    → let s = set_reclaimed now milliseconds row in
      ReclaimOutcome now milliseconds row s.state s.next_run_at
unfolding set_reclaimed
set_reclaimed-ReclaimOutcome now milliseconds row = grind (arith, dropped, again, exhausted)

key-set_reclaimed :
    (tenant_id id : String) (now milliseconds : ℕ) (r : Row)
    → has_key tenant_id id (set_reclaimed now milliseconds r) ≡ has_key tenant_id id r
unfolding has_key set_reclaimed
key-set_reclaimed tenant_id id now milliseconds r = refl

-- The inputs of a call of ReclaimExpiredLeases that passes its tests.
pub record MayReclaim (batch backoff : ℤ) (r : Repo) : Type 0 where
  pub batch_valid : validate_job_batch_size batch r ≡ (ok tt, r)
  pub backoff_low : ltb_ℤ backoff (pos 0) ≡ false
  pub backoff_high : ltb_ℤ (pos max_retry_backoff) backoff ≡ false

module _ (c : Call) (locked : Row → Bool) (batch backoff : ℤ) (r : Repo) (live : IsLive c)
    (opened : r.closed ≡ false) (may : MayReclaim batch backoff r) where
  reclaim_ok :
      let test =
        selected (choose (is_expired c.now) expires_before locked (pos_part batch) r.rows) in
      reclaim_expired_leases c locked batch backoff r ≡ (
        ok (count_where test r.rows),
        record r {
          rows = update_where test (set_reclaimed c.now (pos_part backoff / 1_000_000)) r.rows;
        },
      )
  unfolding reclaim_expired_leases exec open_repo
  reclaim_ok = ground (
    arith, live.no_context_error, live.first_answered, may.batch_valid, may.backoff_low,
    may.backoff_high,
  )

  selected_of_expired :
      (row : Row)
      → In row r.rows
      → over c.now row ≡ true
      → locked row ≡ false
      → length (reclaimable c.now locked r.rows) ≤ pos_part batch
      → selected (choose (is_expired c.now) expires_before locked (pos_part batch) r.rows) row
        ≡ true
  unfolding selected choose
  selected_of_expired row i late free fits =
      let late' : is_expired c.now row ≡ true = is_expired-eq-over c.now row ∙ late in
      let wanted = keep (λ s. is_expired c.now s && not (locked s)) r.rows in
      let same : wanted ≡ reclaimable c.now locked r.rows = keep-expired c.now locked r.rows in
      let sorted = sort_by expires_before wanted in
      let all =
        take_all (pos_part batch) sorted (rw (length-sort_by expires_before wanted, same) fits) in
      let kept =
        In-keep (λ s. is_expired c.now s && not (locked s)) r.rows row i
          (ground (arith, late', free)) in
      rw all (
        In-any (λ s. same_key s row) sorted row (In-sort_by expires_before wanted row kept)
          (has_key_self row))

  reclaimed_row :
      (row : Row)
      → Distinct same_key r.rows
      → In row r.rows
      → let test =
          selected (choose (is_expired c.now) expires_before locked (pos_part batch) r.rows) in
        at row.tenant_id row.id (reclaim_expired_leases c locked batch backoff r).1.rows
        ≡ some (if test row then set_reclaimed c.now (pos_part backoff / 1_000_000) row else row)
  reclaimed_row row d i =
      let set = set_reclaimed c.now (pos_part backoff / 1_000_000) in
      let test =
        selected (choose (is_expired c.now) expires_before locked (pos_part batch) r.rows) in
      ap (λ (o : Result Error ℕ × Repo). at row.tenant_id row.id o.1.rows) reclaim_ok
      ∙ at-update_where row.tenant_id row.id test set r.rows
          (λ s. key-set_reclaimed row.tenant_id row.id c.now _ s)
      ∙ rw (at-In r.rows row d i) refl

  kept_row :
      (row : Row)
      → Distinct same_key r.rows
      → In row r.rows
      → (over c.now row ≡ false) ⊎ (locked row ≡ true)
      → selected (choose (is_expired c.now) expires_before locked (pos_part batch) r.rows) row
        ≡ false
  kept_row row d i not_over =
      let test =
        selected (choose (is_expired c.now) expires_before locked (pos_part batch) r.rows) in
      elim (Bool-cases (test row)) [
        | inr e ↦ e
        | inl e ↦
            let (late, free) =
              selected-choose (is_expired c.now) expires_before locked (pos_part batch) r.rows row d
                i e in
            absurd (ground (arith, late, free, not_over, is_expired-eq-over c.now row))
      ]

  -- A job that is taken back, and one that is not.
  pub record Reclaimed (row : Row) : Type 0 where
    pub late : over c.now row ≡ true
    pub free : locked row ≡ false
    pub updated : Row
    pub found :
        at row.tenant_id row.id (reclaim_expired_leases c locked batch backoff r).1.rows
        ≡ some updated
    pub outcome :
        ReclaimOutcome c.now (pos_part backoff / 1_000_000) row updated.state updated.next_run_at
    pub owner : updated.lease_owner ≡ none
    pub expiry : updated.lease_expires_at ≡ none
    pub token : updated.lease_token ≡ suc row.lease_token
    pub attempt : updated.attempt ≡ row.attempt

  abbrev pub Kept : Row → Type 0
  Kept row =
      ((over c.now row ≡ false) ⊎ (locked row ≡ true))
      × (at row.tenant_id row.id (reclaim_expired_leases c locked batch backoff r).1.rows
          ≡ some row)

  -- On an open repository, with a live call and valid inputs, where the unlocked jobs whose leases are over (leased or
  -- running, the expiry at or before the time of the call) are no more than the batch size: each of them is found afterwards
  -- without a lease and with its token one higher: canceled if its cancellation was requested, else queued after the
  -- backoff if an attempt is left, else a dead letter. Every other job is found as it was.
  pub expired-Reclaimed :
      (row : Row)
      → Distinct same_key r.rows
      → In row r.rows
      → length (reclaimable c.now locked r.rows) ≤ pos_part batch
      → Reclaimed row ⊎ Kept row
  expired-Reclaimed row d i fits = elim (Bool-cases (over c.now row)) [
    | inr early ↦ inr (kept (inl early))
    | inl late ↦ elim (Bool-cases (locked row)) [
      | inl taken ↦ inr (kept (inr taken))
      | inr free ↦ inl (record {
        late = late;
        free = free;
        updated = set row;
        found = reclaimed_row row d i ∙ rw (selected_of_expired row i late free fits) refl;
        outcome = set_reclaimed-ReclaimOutcome c.now _ row;
        owner = unfold set_reclaimed in refl;
        expiry = unfold set_reclaimed in refl;
        token = unfold set_reclaimed in refl;
        attempt = unfold set_reclaimed in refl;
      })
    ]
  ]
    where
      set : Row → Row
      set = set_reclaimed c.now (pos_part backoff / 1_000_000)

      kept : (over c.now row ≡ false) ⊎ (locked row ≡ true) → Kept row
      kept why = (why, reclaimed_row row d i ∙ rw (kept_row row d i why) refl)
