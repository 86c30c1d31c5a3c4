-- ===== src/Store.antt =====
-- src/store: the committed state and the plan of a reconcile, the schedule of the watcher, and merges.
pub mod State
pub mod Watcher
pub mod Merge
