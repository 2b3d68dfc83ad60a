-- ===== src/Registry.antt =====
-- The connections of agents: controlplane/internal/grpcserver/registry.go.
pub mod Conns
pub mod Schedule
pub mod Fifo
pub mod Lawful
pub mod Membership
pub mod Invariant
pub mod Later
pub mod Revoke
mod Tests
