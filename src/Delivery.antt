-- ===== src/Delivery.antt =====
-- The delivery of events: controlplane/internal/event.
pub mod Types
pub mod Engine
pub mod Dispatch
pub mod Rows
pub mod Bounded
pub mod Attempts
pub mod Advance
mod Tests
