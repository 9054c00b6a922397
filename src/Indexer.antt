-- ===== src/Indexer.antt =====
-- packages/backend/src/indexer: the execution indexer.
pub mod Planner
pub mod Fetch
pub mod Rows
pub mod Tables
pub mod Persist
pub mod Failures
pub mod Events
pub mod Tick
mod Tests
