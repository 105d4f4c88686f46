-- ===== src/Pool.antt =====
-- internal/store: one environment of the pool, its workspace, its snapshots and their rows in the
-- index, when any call may fail and the daemon may die at any step.
pub mod Disk
pub mod Calls
pub mod Snapshots
pub mod Safety
pub mod Reconcile
