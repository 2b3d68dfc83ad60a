-- ===== src/Executor.antt =====
-- The agent's worker pool: agent/internal/executor.
pub mod Types
pub mod Abandon
pub mod Failure
pub mod Process
pub mod Recovery
pub mod Delays
pub mod Releases
pub mod Untouched
pub mod Capacity
pub mod Termination
pub mod Gate
pub mod Resurrection
pub mod Failing
pub mod NoLoss
pub mod Once
mod Tests
