-- ===== src/Migrations/Applied.antt =====
-- What a run of the migrations of pkg/storage/migrations.go leaves recorded.
mod Lookups
pub use Lookups.*
use progo_a2a.Prelude.{
  ℕ, suc, ◌≤◌, String, ◌≡◌, ◌⊎◌, refl, sym, ap, subst, arith, Bool, not, Option, none, some, List,
  [], ◌∷◌, ◌++◌, str_eq, str_eq_iff, if◌then◌else◌, Option-cases, inl, inr, ok, ◌>>=◌, of_option,
  is_some, bind-ok, then-ok, passed, In, here, there,
}
use progo_a2a.Migrations.{
  Migration, Recorded, Entry, check_versions, sort_versions, load_migrations, Database, record_of,
  applied_version, known_version, check_name, check_recorded, Trip, apply_migration, apply_all,
  execute, record_version, insert_record, accept_migrations, unreadable_directory,
  checksum_mismatch, database_error, read_entries,
}

module _ {D : Type 0} (run_sql : String → D → Option D) where
  -- What a migration changes in the table.
  pub record Step (applied : Option Recorded) (m : Migration) (before after : List Recorded)
      : Type 0 where
    pub kept : (r : Recorded) → applied ≡ some r → (r.checksum ≡ m.checksum) × (after ≡ before)
    pub added :
        applied ≡ none
        → (applied_version m.version before ≡ none) × (after ≡ before ++ record_of m ∷ [])

  apply_migration-Step :
      (fails : Trip → Bool) (applied : Option Recorded) (m : Migration) (db db' : Database D)
      → apply_migration run_sql fails applied m db ≡ ok db'
      → Step applied m db.recorded db'.recorded
  apply_migration-Step fails (some r) m db db' h =
      let (same, rest) = passed (not (str_eq r.checksum m.checksum)) checksum_mismatch (ok db) h in
      let e : db ≡ db' = cc rest in
      record {
        kept = λ s p. (
          ground (arith, same, str_eq_iff r.checksum m.checksum, p),
          ap (λ x. x.recorded) (sym e),
        );
        added = λ p. absurd (cc p);
      }
  apply_migration-Step fails none m db db' h =
      let (_, h1) =
        passed (fails (execute m.version)) database_error
          (of_option database_error (run_sql m.sql db.schema) >>= λ schema.
            insert_record run_sql fails m schema db.recorded)
          h in
      let (schema, _, h2) =
        bind-ok (of_option database_error (run_sql m.sql db.schema))
          (λ schema. insert_record run_sql fails m schema db.recorded) h1 in
      let (_, h3) = passed (fails (record_version m.version)) database_error _ h2 in
      let (new, h4) =
        passed (is_some (applied_version m.version db.recorded)) database_error
          (ok (record { schema = schema; recorded = db.recorded ++ record_of m ∷ [] })) h3 in
      let out : Database D = record {
        schema = schema;
        recorded = db.recorded ++ record_of m ∷ [];
      } in
      let e : out ≡ db' = cc h4 in
      record {
        kept = λ r p. absurd (cc p);
        added = λ p. (ground (arith, new), ap (λ x. x.recorded) (sym e));
      }

  -- What a run of migrations leaves in the table, from what was applied before.
  pub record Grown (applied : List Recorded) (ms : List Migration) (before after : List Recorded)
      : Type 0 where
    pub old :
        (v : ℕ) (r : Recorded)
        → applied_version v before ≡ some r
        → applied_version v after ≡ some r
    pub done : (m : Migration) → In m ms → Done applied after m
    pub all_of :
        (r : Recorded) → In r after → In r before ⊎ ((m : Migration) × In m ms × (r ≡ record_of m))

  Step-Grown :
      (applied : List Recorded) (m : Migration) (ms : List Migration)
      (before middle after : List Recorded)
      → Step (applied_version m.version applied) m before middle
      → Grown applied ms middle after
      → Grown applied (m ∷ ms) before after
  Step-Grown applied m ms before middle after step grown =
      elim (Option-cases (applied_version m.version applied)) [
        | inl p ↦
            let (new, e) = step.added p in
            record {
              old = λ v r q.
                  grown.old v r
                    (rw (e, applied_version-append v r before (record_of m ∷ []) q) refl);
              done =
                  In-cons (Done applied after) m ms
                    (inr (
                      grown.old m.version (record_of m)
                        (rw (e, applied_version-new (record_of m) before new) refl)))
                    grown.done;
              all_of = λ r i. elim (grown.all_of r i) [
                | inl j ↦ elim (In-append before r (record_of m) (subst (λ xs. In r xs) e j)) [
                  | inl k ↦ inl k
                  | inr q ↦ inr (m, here refl, q)
                ]
                | inr (n, k, q) ↦ inr (n, there k, q)
              ];
            }
        | inr (r, p) ↦
            let (same, e) = step.kept r p in
            record {
              old = λ v s q. grown.old v s (rw e q);
              done = In-cons (Done applied after) m ms (inl (r, p, same)) grown.done;
              all_of = λ s i. elim (grown.all_of s i) [
                | inl j ↦ inl (subst (λ xs. In s xs) e j)
                | inr (n, k, q) ↦ inr (n, there k, q)
              ];
            }
      ]

  pub apply_all-Grown :
      (fails : Trip → Bool) (applied : List Recorded) (ms : List Migration) (db db' : Database D)
      → apply_all run_sql fails applied ms db ≡ ok db'
      → Grown applied ms db.recorded db'.recorded
  unfolding apply_all
  apply_all-Grown fails applied [] db db' h =
      let e : db ≡ db' = cc h in
      record {
        old = λ v r q. subst (λ (x : Database D). applied_version v x.recorded ≡ some r) e q;
        done = λ m i. elim i [ ];
        all_of = λ r i. inl (subst (λ (x : Database D). In r x.recorded) (sym e) i);
      }
  apply_all-Grown fails applied (m ∷ ms) db db' h =
      let (middle, h1, h2) =
        bind-ok (apply_migration run_sql fails (applied_version m.version applied) m db)
          (λ x. apply_all run_sql fails applied ms x) h in
      Step-Grown applied m ms db.recorded middle.recorded db'.recorded
        (apply_migration-Step fails (applied_version m.version applied) m db middle h1)
        (apply_all-Grown fails applied ms middle db' h2)

  pub apply_all-again :
      (fails : Trip → Bool) (applied : List Recorded) (ms : List Migration) (db : Database D)
      → ((m : Migration) → In m ms → applied_version m.version applied ≡ some (record_of m))
      → apply_all run_sql fails applied ms db ≡ ok db
  unfolding apply_all
  apply_all-again fails applied [] db h = refl
  apply_all-again fails applied (m ∷ ms) db h =
      rw (h m (here refl), (str_eq_iff m.checksum m.checksum).1 refl)
        (apply_all-again fails applied ms db (λ n i. h n (there i)))
