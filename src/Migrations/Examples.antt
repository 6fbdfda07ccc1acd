-- ===== src/Migrations/Examples.antt =====
-- The migrations of pkg/storage/migrations.go at a directory of two files.
use progo_a2a.Prelude.{
  String, ◌≡◌, refl, false, Option, none, some, List, [], ◌∷◌, ◌++◌, str_eq, if◌then◌else◌, ok, err,
}
use progo_a2a.Ledger.Repository.Monad.{answered}
use progo_a2a.Migrations.{
  Entry, Database, load_migrations, run_migrations, duplicate_version, non_monotonic,
  checksum_mismatch, invalid_version,
}
use progo_a2a.Migrations.Again.{Migrated, run_migrations-Migrated}

-- The statements that have been executed.
abbrev log_sql : String → List String → Option (List String)
log_sql sql log = if str_eq sql "bad" then none else some (log ++ sql ∷ [])

abbrev file : String → String → Entry
file name content = record { name = name; is_dir = false; content = some content }

abbrev two_files : Option (List Entry)
two_files = some (file "002_jobs.sql" "b" ∷ file "README.md" "" ∷ file "001_results.sql" "a" ∷ [])

abbrev hash : String → String
hash s = s

abbrev first_recorded : Database (List String)
first_recorded = record {
  schema = "a" ∷ [];
  recorded = record { version = 1; name = "001_results.sql"; checksum = "a" } ∷ [];
}

abbrev both_recorded : Database (List String)
both_recorded = record {
  schema = "a" ∷ "b" ∷ [];
  recorded =
      record { version = 1; name = "001_results.sql"; checksum = "a" }
      ∷ record { version = 2; name = "002_jobs.sql"; checksum = "b" }
      ∷ [];
}

-- The second migration alone is executed.
second_run :
    run_migrations log_sql
      (λ _. false)
      answered
      (load_migrations hash two_files none)
      first_recorded
    ≡ (ok tt, both_recorded)
unfolding load_migrations run_migrations
second_run = refl

run_migrations-Migrated_example :
    Migrated log_sql (load_migrations hash two_files none) both_recorded
run_migrations-Migrated_example =
    run_migrations-Migrated log_sql hash two_files none (λ _. false) answered first_recorded
      both_recorded second_run

changed_file :
    (run_migrations log_sql
      (λ _. false)
      answered
      (load_migrations hash (some (file "001_results.sql" "c" ∷ [])) none)
      first_recorded).0
    ≡ err checksum_mismatch
unfolding load_migrations run_migrations
changed_file = refl

gap :
    load_migrations hash none (some (file "1_a.sql" "" ∷ file "3_b.sql" "" ∷ []))
    ≡ err non_monotonic
unfolding load_migrations
gap = refl

twice :
    load_migrations hash none (some (file "1_a.sql" "" ∷ file "01_b.sql" "" ∷ []))
    ≡ err duplicate_version
unfolding load_migrations
twice = refl

no_version : load_migrations hash none (some (file "v1_a.sql" "" ∷ [])) ≡ err invalid_version
unfolding load_migrations
no_version = refl
