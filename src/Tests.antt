-- ===== src/Tests.antt =====
-- Runs of the models at concrete inputs, and the theorems applied to them.
mod IdTests
mod ActorTests
mod WatchTests
mod JobTests
mod PoolTests
mod HibernateTests
mod BackupTests
mod RestoreTests
mod SetupTests
mod PreviewTests
mod RunscTests
mod GoldenTests
mod InitTests
