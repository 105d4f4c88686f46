-- ===== src/Pool/Safety.antt =====
-- Wherever a restore stops, no workspace is lost.
pub mod Deletes
pub mod Calm
pub mod Steps
pub mod Restore
pub mod Success
