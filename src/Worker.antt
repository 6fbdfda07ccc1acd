-- ===== src/Worker.antt =====
-- pkg/worker: the engine that leases jobs and executes them.
pub mod Guards
pub mod Executor
pub mod Execution
pub mod Slots
pub mod Renewal
pub mod Processing
mod Examples
