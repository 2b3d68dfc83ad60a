-- ===== src/Uploader.antt =====
-- The agent's uploader: agent/internal/uploader.
pub mod Types
pub mod Etags
pub mod Multipart
pub mod Laws
pub mod Parts
pub mod Remote
pub mod Faithful
pub mod File
pub mod Reports
pub mod Discard
mod Tests
