-- ===== src/Hibernate.antt =====
-- internal/hibernate: Claude, stopped between turns and started again where it was.
pub mod Stream
pub mod Run
pub mod Output
