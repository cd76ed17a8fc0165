-- ===== src/Engine/Lifecycle.antt =====
-- Histories of one hold: what a release, a confirmation or a cancellation makes of it.
pub mod Count
pub mod HoldRelease
pub mod CancelConfirm
pub mod Consumed
pub mod Reap
pub mod Backlog
