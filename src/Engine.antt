-- ===== src/Engine.antt =====
-- gamecollect/engine.py beyond its merges: what it writes for a match, and what it keeps of the
-- matches it follows.
pub mod Rows
pub mod Reconcile
pub mod Tracking
pub mod GiveUp
pub mod Apply
pub mod Stored
pub mod Poll
mod Tests
