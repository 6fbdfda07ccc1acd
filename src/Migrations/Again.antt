-- ===== src/Migrations/Again.antt =====
-- Runs of the migrations of pkg/storage/migrations.go that succeed, and the runs after them.
use progo_a2a.Prelude.{
  ℕ, String, ◌≡◌, refl, ap, arith, Bool, false, ◌||◌, Option, some, List, str_eq, str_eq_iff, ◌==◌,
  Bool-cases, Option-cases, inl, inr, Result, ok, err, ◌>>=◌, then-ok, passed, In, find-In,
}
use progo_a2a.Ledger.Repository.Monad.{Wire, answered, refused, lost}
use progo_a2a.Migrations.{
  Migration, Recorded, MigrationError, Entry, check_versions, load_migrations, Database, record_of,
  applied_version, known_version, check_name, check_recorded, Trip, begin, lock, create_table,
  query, apply_all, in_transaction, commit, run_migrations, database_error,
}
use progo_a2a.Migrations.Applied.{
  load_migrations-check_versions, known_version-In, check_recorded-In, In-check_recorded, Grown,
  apply_all-Grown, apply_all-again,
}

-- What is recorded has the name of the migration of its version.
recorded-name : (r : Recorded) (m : Migration) → check_name r (some m) ≡ ok tt → r.name ≡ m.name
recorded-name r m h = elim (Bool-cases (str_eq r.name m.name)) [
  | inl p ↦ (str_eq_iff r.name m.name).0 p
  | inr p ↦ absurd (cc (rw p at h))
]

-- What passes the test of the recorded migrations has a migration of its version and its name.
known_of_checked :
    (ms : List Migration) (recorded : List Recorded)
    → check_recorded ms recorded ≡ ok tt
    → (r : Recorded) → In r recorded
    → (m : Migration) × In m ms × (r.version ≡ m.version) × (r.name ≡ m.name)
known_of_checked ms recorded h r i = elim (Option-cases (known_version r.version ms)) [
  | inl p ↦ absurd (cc (rw p at (check_recorded-In ms recorded r h i)))
  | inr (m, p) ↦
      let (j, e) = find-In (λ (x : Migration). x.version == r.version) ms m p in
      (m, j, ground (arith, e), recorded-name r m (rw p at (check_recorded-In ms recorded r h i)))
]

recorded-In :
    (v : ℕ) (recorded : List Recorded) (r : Recorded)
    → applied_version v recorded ≡ some r
    → In r recorded × (r.version ≡ v)
recorded-In v recorded r h =
    let (i, p) = find-In (λ (x : Recorded). x.version == v) recorded r h in (i, ground (arith, p))

module _ {D : Type 0} (run_sql : String → D → Option D) (ms : List Migration)
    (ordered : check_versions 1 ms ≡ ok tt) (applied after : List Recorded)
    (checked : check_recorded ms applied ≡ ok tt)
    (grown : Grown run_sql applied ms applied after) where
  grown-record_of : (m : Migration) → In m ms → applied_version m.version after ≡ some (record_of m)
  grown-record_of m i = elim (grown.done m i) [
    | inl (r, p, same) ↦
        let (j, e) = recorded-In m.version applied r p in
        let known : known_version r.version ms ≡ some m =
          rw e (known_version-In 1 ms m ordered i) in
        let name = recorded-name r m (rw known at (check_recorded-In ms applied r checked j)) in
        let whole : r ≡ record_of m =
          λ i. record { version = e i; name = name i; checksum = same i } in
        rw whole at (grown.old m.version r p)
    | inr p ↦ p
  ]

  grown-check_recorded : check_recorded ms after ≡ ok tt
  grown-check_recorded = In-check_recorded ms after (λ r i. elim (grown.all_of r i) [
    | inl j ↦ check_recorded-In ms applied r checked j
    | inr (m, j, e) ↦
        rw (e, known_version-In 1 ms m ordered j, (str_eq_iff m.name m.name).1 refl) refl
  ])

-- The table has the migrations that the program has, each with its name and its checksum.
pub record Migrated {D : Type 0} (run_sql : String → D → Option D)
    (loaded : Result MigrationError (List Migration)) (db : Database D) : Type 0 where
  pub all : List Migration
  pub loads : loaded ≡ ok all
  pub each : (m : Migration) → In m all → applied_version m.version db.recorded ≡ some (record_of m)
  pub only :
      (r : Recorded)
      → In r db.recorded
      → (m : Migration) × In m all × (r.version ≡ m.version) × (r.name ≡ m.name)
  pub again : run_migrations run_sql (λ _. false) answered loaded db ≡ (ok tt, db)

module _ {D : Type 0} (run_sql : String → D → Option D) where
  transaction-Migrated :
      (fails : Trip → Bool) (ms : List Migration) (loaded : Result MigrationError (List Migration))
      (db db' : Database D)
      → loaded ≡ ok ms
      → check_versions 1 ms ≡ ok tt
      → in_transaction run_sql fails ms db ≡ ok db'
      → Migrated run_sql loaded db'
  unfolding in_transaction run_migrations
  transaction-Migrated fails ms loaded db db' e ordered h =
      let (_, h1) =
        passed (fails begin || fails lock || fails create_table || fails query) database_error
          (check_recorded ms db.recorded >>= λ _. apply_all run_sql fails db.recorded ms db) h in
      let (checked, h2) =
        then-ok (check_recorded ms db.recorded) (apply_all run_sql fails db.recorded ms db) h1 in
      let grown = apply_all-Grown run_sql fails db.recorded ms db db' h2 in
      let each = grown-record_of run_sql ms ordered db.recorded db'.recorded checked grown in
      let only = grown-check_recorded run_sql ms ordered db.recorded db'.recorded checked grown in
      record {
        all = ms;
        loads = e;
        each = each;
        only = known_of_checked ms db'.recorded only;
        again = rw (e, only, apply_all-again run_sql (λ _. false) db'.recorded ms db' each) refl;
      }

  loaded-Migrated :
      (fails : Trip → Bool) (wire : Wire) (loaded : Result MigrationError (List Migration))
      (db db' : Database D)
      → ((ms : List Migration) → loaded ≡ ok ms → check_versions 1 ms ≡ ok tt)
      → run_migrations run_sql fails wire loaded db ≡ (ok tt, db')
      → Migrated run_sql loaded db'
  unfolding run_migrations
  loaded-Migrated fails wire (err e) db db' ordered h = absurd (cc (ap (λ x. x.0) h))
  loaded-Migrated fails wire (ok ms) db db' ordered h =
      transaction-Migrated fails ms (ok ms) db db' refl (ordered ms refl) (committed wire _ h)
    where
      committed :
          (wire : Wire) (out : Result MigrationError (Database D))
          → commit run_sql fails wire out db ≡ (ok tt, db')
          → out ≡ ok db'
      committed wire (err e) h = absurd (cc (ap (λ x. x.0) h))
      committed answered (ok d) h = ap (λ x. ok x.1) h
      committed refused (ok d) h = absurd (cc (ap (λ x. x.0) h))
      committed lost (ok d) h = absurd (cc (ap (λ x. x.0) h))

  -- After a run of the migrations that succeeds, from any table, whatever trips fail: every migration of the program is
  -- recorded with its name and the checksum of its file; all that is recorded has the version and the name of a migration
  -- of the program; and a run after it, without failures, succeeds and changes nothing: no migration is executed twice.
  pub run_migrations-Migrated :
      (sha256 : String → String) (directory root : Option (List Entry)) (fails : Trip → Bool)
      (wire : Wire) (db db' : Database D)
      → run_migrations run_sql fails wire (load_migrations sha256 directory root) db ≡ (ok tt, db')
      → Migrated run_sql (load_migrations sha256 directory root) db'
  run_migrations-Migrated sha256 directory root fails wire db db' h =
      loaded-Migrated fails wire (load_migrations sha256 directory root) db db'
        (λ ms e. load_migrations-check_versions sha256 directory root ms e) h
