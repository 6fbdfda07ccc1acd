-- ===== src/Ledger.antt =====
-- The durable job ledger: pkg/storage/job_repository.go, pkg/storage/postgres_jobs.go and the table
-- of pkg/storage/migrations/002_create_durable_jobs.sql. `Row` has the table, `Statements` the SQL
-- text of each method as a function on rows, `Repository` the methods; the other children prove.
pub mod Row
pub mod Statements
pub mod Constraints
pub mod Repository
pub mod Transition
pub mod Action
pub mod Keys
pub mod Evolution
pub mod Table
pub mod Checked
pub mod History
pub mod Lookup
pub mod Fencing
pub mod Outcomes
pub mod Unheld
pub mod Stale
pub mod Open
pub mod Create
pub mod Acquire
pub mod Batch
pub mod Reclaim
mod Examples
