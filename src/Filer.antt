-- ===== src/Filer.antt =====
-- Filer metadata events: controlplane/internal/storage/seaweedfs.
pub mod Paths
pub mod Split
pub mod Translate
mod Tests
pub mod Scope
pub mod Heartbeat
pub mod Cursor
pub mod Host
pub mod Subscribe
pub mod Keeps
pub mod Handled
pub mod Complete
pub mod Stream
pub mod LogName
pub mod Run
pub mod Restart
