-- ===== src/Indexer.antt =====
-- The ledger of files: controlplane/internal/indexer, and the sinks of
-- controlplane/internal/storageevent/sink.go.
pub mod Types
pub mod Ledger
pub mod Tags
pub mod PathVars
pub mod Classify
pub mod Effects
pub mod Upload
pub mod Storage
pub mod Sink
pub mod Newest
pub mod TagKeeps
pub mod Keeps
pub mod Writes
pub mod History
pub mod Outcomes
pub mod Marks
pub mod Reports
pub mod Removals
pub mod Sinks
pub mod ReadBack
pub mod Sunk
pub mod Handled
pub mod Explicit
pub mod Accounted
pub mod Logged
pub mod Results
pub mod Accounts
mod Tests
pub mod Total
pub mod Answering
pub mod Liveness
