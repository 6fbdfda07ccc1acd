-- ===== src/Server.antt =====
-- pkg/server: the access of clients to agents, and the handlers of tasks.
pub mod Access
pub mod Authentication
pub mod Tasks
pub mod Replies
pub mod Agents
pub mod Streams
pub mod Closing
pub mod Gauge
pub mod Wrapping
mod Examples
