-- ===== src/Migrations.antt =====
-- pkg/storage/migrations.go: the migrations of the schema, and their run in one transaction under a lock of the
-- database, which lets one run at a time go on. SHA-256 and the statements of a migration are parameters.
pub mod Applied
pub mod Again
mod Examples
use Prim.Native.Char.{code}
use progo_a2a.Prelude.{
  ℕ, zero, suc, ◌+◌, ◌*◌, ◌-◌, ◌^◌, String, Bool, true, false, ◌&&◌, ◌||◌, not, Option, none, some,
  List, [], ◌∷◌, ◌++◌, find, str_eq, is_empty, is_blank, leb, ltb, ◌==◌, if◌then◌else◌, Result, ok,
  err, ◌>>=◌, fail_if, of_option, is_some,
}
use progo_a2a.Ledger.Repository.Monad.{Wire, answered, refused, lost}

pub record Migration : Type 0 where
  pub version : ℕ
  pub name : String
  pub checksum : String
  pub sql : String

-- A row of `schema_migrations`.
pub record Recorded : Type 0 where
  pub version : ℕ
  pub name : String
  pub checksum : String

-- The invalid definitions, the mismatches, and an error of the database or of a trip to it.
pub data MigrationError : Type 0 where
  unreadable_directory invalid_name invalid_version duplicate_version unreadable_file :
      MigrationError
  no_migrations non_monotonic : MigrationError
  version_too_new name_mismatch checksum_mismatch database_error : MigrationError

-- An entry of a directory, with what `fs.ReadFile` reads.
pub record Entry : Type 0 where
  pub name : String
  pub is_dir : Bool
  pub content : Option String

-- `strings.HasSuffix(name, ".sql")` and `strings.TrimSuffix(name, ".sql")`
unfoldable pub before_suffix : String → Option String
before_suffix String.[] = none
before_suffix (String.◌∷◌ c s) =
    let rest = before_suffix s in
    if str_eq (String.◌∷◌ c s) ".sql"
    then some ""
    else elim rest [ none ↦ none | some t ↦ some (String.◌∷◌ c t) ]

-- `strings.SplitN(name, "_", 2)`, where there is a `_`.
unfoldable pub split_name : String → Option (String × String)
split_name String.[] = none
split_name (String.◌∷◌ c s) =
    let rest = split_name s in
    if code c == 95
    then some ("", s)
    else elim rest [ none ↦ none | some p ↦ some (String.◌∷◌ c p.0, p.1) ]

-- `strconv.Atoi` of a version, where it is positive. The number holds the digits before.
unfoldable pub digits_value : ℕ → String → Option ℕ
digits_value n String.[] = if ltb 0 n && ltb n (2 ^ 63) then some n else none
digits_value n (String.◌∷◌ c s) =
    let rest = digits_value (n * 10 + (code c - 48)) s in
    if leb 48 (code c) && leb (code c) 57 then rest else none

unfoldable pub version_of : String → Option ℕ
unfolding digits_value
version_of String.[] = none
version_of (String.◌∷◌ c s) =
    if code c == 43 then digits_value 0 s else digits_value 0 (String.◌∷◌ c s)

abbrev pub has_version : ℕ → List Migration → Bool
has_version v ms = is_some (find (λ (m : Migration). m.version == v) ms)

unfoldable pub insert_version : Migration → List Migration → List Migration
insert_version m [] = m ∷ []
insert_version m (n ∷ ms) =
    let rest = insert_version m ms in if ltb n.version m.version then n ∷ rest else m ∷ n ∷ ms

unfoldable pub sort_versions : List Migration → List Migration
unfolding insert_version
sort_versions [] = []
sort_versions (m ∷ ms) = insert_version m (sort_versions ms)

unfoldable pub check_versions : ℕ → List Migration → Result MigrationError Unit
check_versions expected [] = ok tt
check_versions expected (m ∷ ms) =
    if m.version == expected then check_versions (suc expected) ms else err non_monotonic

abbrev pub some_migrations : List Migration → Result MigrationError Unit
some_migrations [] = err no_migrations
some_migrations (_ ∷ _) = ok tt

-- The rest of `LoadMigrations`, from `len(migrations) == 0`.
abbrev pub accept_migrations : List Migration → Result MigrationError (List Migration)
accept_migrations found = some_migrations found >>= λ _.
    check_versions 1 (sort_versions found) >>= λ _. ok (sort_versions found)

module _ (sha256 : String → String) where
  -- The parts of a name: the version and, before its suffix, a logical name that is not blank.
  abbrev pub checked_parts : Option (String × String) → Result MigrationError (String × String)
  checked_parts none = err invalid_name
  checked_parts (some (v, rest)) = if is_empty v then err invalid_name else ok (v, rest)

  abbrev pub logical_name : String → String
  logical_name rest = elim (before_suffix rest) [ none ↦ rest | some t ↦ t ]

  unfoldable pub read_migration : List Migration → Entry → Result MigrationError Migration
  unfolding split_name before_suffix version_of is_blank
  read_migration seen e = checked_parts (split_name e.name) >>= λ p.
      fail_if (is_blank (logical_name p.1)) invalid_name >>= λ _.
      of_option invalid_version (version_of p.0) >>= λ v.
      fail_if (has_version v seen) duplicate_version >>= λ _.
      of_option unreadable_file e.content >>= λ content.
      ok (record { version = v; name = e.name; checksum = sha256 content; sql = content })

  unfoldable pub read_entries : List Migration → List Entry → Result MigrationError (List Migration)
  unfolding read_migration before_suffix
  read_entries seen [] = ok seen
  read_entries seen (e ∷ entries) =
      if e.is_dir || not (is_some (before_suffix e.name))
      then read_entries seen entries
      else read_migration seen e >>= λ m. read_entries (seen ++ m ∷ []) entries

  -- `LoadMigrations`, with what `fs.ReadDir` reads in `migrations` and in the root.
  unfoldable pub load_migrations :
      Option (List Entry) → Option (List Entry) → Result MigrationError (List Migration)
  unfolding read_entries sort_versions check_versions
  load_migrations directory root =
      of_option unreadable_directory (if is_some directory then directory else root) >>= λ entries.
      read_entries [] entries >>= accept_migrations

-- The trips to the database, before the commit.
pub data Trip : Type 0 where
  begin lock create_table query : Trip
  execute record_version : ℕ → Trip

-- What the statements of the migrations work on, and the table `schema_migrations`.
pub record Database (D : Type 0) : Type 0 where
  pub schema : D
  pub recorded : List Recorded

abbrev pub record_of : Migration → Recorded
record_of m = record { version = m.version; name = m.name; checksum = m.checksum }

-- `applied[v]` and `known[v]`
abbrev pub applied_version : ℕ → List Recorded → Option Recorded
applied_version v recorded = find (λ (r : Recorded). r.version == v) recorded

abbrev pub known_version : ℕ → List Migration → Option Migration
known_version v ms = find (λ (m : Migration). m.version == v) ms

-- What is recorded has to be known, under its name.
abbrev pub check_name : Recorded → Option Migration → Result MigrationError Unit
check_name r none = err version_too_new
check_name r (some m) = fail_if (not (str_eq r.name m.name)) name_mismatch

unfoldable pub check_recorded : List Migration → List Recorded → Result MigrationError Unit
check_recorded ms [] = ok tt
check_recorded ms (r ∷ recorded) =
    let rest = check_recorded ms recorded in check_name r (known_version r.version ms) >>= λ _. rest

-- A transaction that runs the statements of the migrations. The function says which trips fail.
module _ {D : Type 0} (run_sql : String → D → Option D) (fails : Trip → Bool) where
  -- `INSERT INTO schema_migrations`, whose primary key is the version.
  abbrev pub insert_record : Migration → D → List Recorded → Result MigrationError (Database D)
  insert_record m schema recorded =
      fail_if (fails (record_version m.version)) database_error >>= λ _.
      fail_if (is_some (applied_version m.version recorded)) database_error >>= λ _.
      ok (record { schema = schema; recorded = recorded ++ record_of m ∷ [] })

  abbrev pub apply_migration :
      Option Recorded → Migration → Database D → Result MigrationError (Database D)
  apply_migration (some r) m db =
      fail_if (not (str_eq r.checksum m.checksum)) checksum_mismatch >>= λ _. ok db
  apply_migration none m db = fail_if (fails (execute m.version)) database_error >>= λ _.
      of_option database_error (run_sql m.sql db.schema) >>= λ schema.
      insert_record m schema db.recorded

  unfoldable pub apply_all :
      List Recorded → List Migration → Database D → Result MigrationError (Database D)
  apply_all applied [] db = ok db
  apply_all applied (m ∷ ms) db =
      apply_migration (applied_version m.version applied) m db >>= λ db'. apply_all applied ms db'

  unfoldable pub in_transaction : List Migration → Database D → Result MigrationError (Database D)
  unfolding check_recorded apply_all
  in_transaction ms db =
      fail_if (fails begin || fails lock || fails create_table || fails query) database_error
      >>= λ _. check_recorded ms db.recorded >>= λ _. apply_all db.recorded ms db

  -- An error rolls the transaction back. The answer to a commit can be lost.
  abbrev pub commit :
      Wire
      → Result MigrationError (Database D)
      → Database D
      → Result MigrationError Unit × Database D
  commit wire (err e) db = (err e, db)
  commit answered (ok db') db = (ok tt, db')
  commit refused (ok db') db = (err database_error, db)
  commit lost (ok db') db = (err database_error, db')

  -- `runMigrations`, with the result of `LoadMigrations`.
  unfoldable pub run_migrations :
      Wire
      → Result MigrationError (List Migration)
      → Database D
      → Result MigrationError Unit × Database D
  unfolding in_transaction
  run_migrations wire loaded db = commit wire (loaded >>= λ ms. in_transaction ms db) db
