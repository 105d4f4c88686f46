-- ===== src/Actor.antt =====
-- internal/actor: the actor of one environment, which makes its changes one at a time, counts the
-- commands that run in its box, and puts the box to sleep when it has been idle.
pub mod State
pub mod Idle
pub mod Wake
pub mod Exec
pub mod Changes
pub mod Loop
