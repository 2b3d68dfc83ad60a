-- ===== src/Queue.antt =====
-- The agent's durable queue: agent/internal/queue.
pub mod Types
pub mod Monad
pub mod Sql
pub mod Keeps
pub mod Outcomes
pub mod Rows
pub mod Tasks
pub mod Lifecycle
pub mod Files
pub mod Aborts
pub mod Reports
pub mod Changes
pub mod Tracking
pub mod Eviction
pub mod Dedup
pub mod Restart
pub mod Acks
pub mod Samples
mod Tests
