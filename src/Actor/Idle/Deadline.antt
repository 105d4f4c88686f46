-- ===== src/Actor/Idle/Deadline.antt =====
-- A box sleeps when it should, and never under a command.
use fern.Prelude.{ℕ, ◌+◌, ◌≤◌, ◌≡◌, ◌≢◌, ◌⊎◌, Bool, true, false, none, some, List, [], ◌∷◌, arith}
use fern.Actor.State.{Config, Actor, Turn, Effect, stop_box}
use fern.Actor.Idle.{arm_idle, sleep_if_idle}

-- The driver is asked to stop a box.
abbrev pub stops : List Effect → Bool
stops [] = false
stops (stop_box id ∷ es) = true
stops (_ ∷ es) = stops es

-- The lease of a box with nothing left to do is over.
abbrev pub LeaseOver : Actor → ℕ → Type 0
LeaseOver a now = (a.lease ≢ 0) × (a.jobs ≡ []) × (a.lease ≤ now)

-- Both idle times have passed.
abbrev pub IdleOver : Config → Actor → ℕ → Type 0
IdleOver g a now = (a.closed + g.idle.agent ≤ now) × (a.opened + g.idle.human ≤ now)

-- sleepIfIdle asks the driver to stop the box only if it is awake and no command runs in it, and
-- either the lease of a box without jobs is over, or both idle times have passed.
pub sleep_if_idle_sound :
    (g : Config) (o : Turn) (a : Actor)
    → stops (sleep_if_idle g o a).effects ≡ true
    → (a.awake ≡ true) × (a.execs ≡ []) × (LeaseOver a o.now ⊎ IdleOver g a o.now)
unfolding sleep_if_idle
sleep_if_idle_sound g o a h = ground arith

-- An idle timer that armIdle has set puts the box to sleep: at any time from the one it is set
-- for, if the driver stops the box, sleepIfIdle leaves it asleep, at no known address, with no
-- command, no job and no lease.
pub arm_idle-sleep_if_idle :
    (g : Config) (o : Turn) (a : Actor) (d : ℕ)
    → (arm_idle g a).timer ≡ some d
    → d ≤ o.now
    → o.sleep ≡ none
    → let b = (sleep_if_idle g o (arm_idle g a)).actor in
      (b.awake ≡ false) × (b.addr ≡ []) × (b.execs ≡ []) × (b.jobs ≡ []) × (b.lease ≡ 0)
unfolding arm_idle sleep_if_idle
arm_idle-sleep_if_idle g o a d h l e = ground arith

-- armIdle leaves the timer unset only for a box that is asleep or runs a command, or where an idle
-- time is zero.
arm_idle-unset :
    (g : Config) (a : Actor)
    → (arm_idle g a).timer ≡ none
    → (a.awake ≡ false) ⊎ ((a.execs ≢ []) ⊎ ((g.idle.agent ≡ 0) ⊎ (g.idle.human ≡ 0)))
unfolding arm_idle
arm_idle-unset g a h = ground arith
