-- ===== src/Watch.antt =====
-- internal/watch: what the kernel reports of the files that a box writes.
pub mod Slices
pub mod Event
pub mod Tree
