-- ===== src/Engine.antt =====
-- The crate engine-core (crates/engine-core/src), one module for each of its files, and the tables
-- of migrations/0001_init.sql that its statements read and write.
pub mod Types
pub mod Events
pub mod Wire
pub mod Database
pub mod Hold
pub mod Confirm
pub mod Cancel
pub mod Release
pub mod Reaper
pub mod Snapshot
pub mod Invariant
pub mod Backing
pub mod System
pub mod Lifecycle
pub mod Interleaved
mod Examples
