-- ===== src/Backup.antt =====
-- internal/backup: what leaves the node, encrypted.
pub mod Chunks
pub mod Crypt
pub mod Bucket
pub mod Send
pub mod Once
pub mod Restore
