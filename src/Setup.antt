-- ===== src/Setup.antt =====
-- What golden snapshots are built from and who builds them (internal/setup).
pub mod Builder
pub mod Words
pub mod Files
pub mod Compose
pub mod Frameworks
pub mod Guess
pub mod Key
