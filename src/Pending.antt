-- ===== src/Pending.antt =====
-- Requests that wait for an agent: controlplane/internal/dirstore and controlplane/internal/dryrun.
pub mod Store
pub mod Owner
pub mod Deliver
mod Tests
