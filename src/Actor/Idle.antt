-- ===== src/Actor/Idle.antt =====
-- When a box goes to sleep, and what stops it (internal/actor/idle.go; stopBox of actor.go).
pub mod Deadline
use fern.Prelude.{
  ℕ, ◌+◌, Bool, true, false, ◌&&◌, ◌||◌, not, Option, none, some, List, [], ◌∷◌, ◌++◌, map, ltb,
  ◌==◌, if◌then◌else◌, is_empty,
}
use fern.Actor.State.{
  Config, Actor, Turn, Step, step, Effect, stop_box, cancel, count_lease, stop_watch, LeaseEnd,
  used, wasted, Error, ok, err,
}

-- endLease
unfoldable pub end_lease : LeaseEnd → Actor → Actor
end_lease r a = record a { lease = 0; prewoken = false }

unfoldable pub end_lease_effects : LeaseEnd → Actor → List Effect
end_lease_effects r a = if a.prewoken then count_lease r ∷ [] else []

unfoldable pub later : ℕ → ℕ → ℕ
later a b = if ltb b a then a else b

-- deadline: a lease is for a box with nothing left to do.
unfoldable pub deadline : Config → Actor → ℕ
unfolding later
deadline g a =
    if not (a.lease == 0) && is_empty a.jobs
    then a.lease
    else later (a.closed + g.idle.agent) (a.opened + g.idle.human)

-- armIdle. The timer fires at the deadline, at once if that has passed.
unfoldable pub arm_idle : Config → Actor → Actor
unfolding deadline
arm_idle g a =
    if not a.awake || not (is_empty a.execs) || g.idle.agent == 0 || g.idle.human == 0
    then record a { timer = none }
    else record a { timer = some (deadline g a) }

abbrev stop_watching : Actor → List Effect
stop_watching a = if a.watching then stop_watch ∷ [] else []

stopped : Actor → List Effect → Option Error → Step (Unit {0})
unfolding end_lease end_lease_effects
stopped a es (some e) = step a es (err e)
stopped a es none =
    step (record (end_lease wasted a) { awake = false; execs = []; jobs = [] })
      (es ++ (end_lease_effects wasted a ++ (map cancel a.execs ++ map cancel a.jobs))) (ok tt)

-- stopBox
unfoldable pub stop : Turn → Actor → Step (Unit {0})
unfolding stopped
stop o a =
    stopped (record a { addr = []; watching = false }) (stop_watching a ++ stop_box a.id ∷ [])
      o.sleep

-- After a stop that failed the clock starts again.
abbrev sleep_again : Turn → Step (Unit {0}) → Step (Unit {0})
sleep_again o s = elim s.result [
  | ok _ ↦ s
  | err e ↦ step (record s.actor { closed = o.done }) s.effects (ok tt)
]

-- sleepIfIdle
unfoldable pub sleep_if_idle : Config → Turn → Actor → Step (Unit {0})
unfolding deadline stop
sleep_if_idle g o a =
    if not a.awake || not (is_empty a.execs) || ltb o.now (deadline g a)
    then step a [] (ok tt)
    else sleep_again o (stop o a)
