-- ===== src/Actor/Loop.antt =====
-- The loop of an actor: one message at a time, the idle timer set before each (run and handle of
-- internal/actor/actor.go).
pub mod Invariant
use fern.Prelude.{
  ℕ, Bool, true, false, ◌&&◌, ◌||◌, not, Option, none, some, List, [], ◌∷◌, Bytes, if◌then◌else◌,
  is_empty,
}
use fern.Actor.State.{Config, Actor, Turn, Step, step, Result, ok, err}
use fern.Actor.Idle
use fern.Actor.Wake
use fern.Actor.Exec
use fern.Actor.Exec.{ExecKind}
use fern.Actor.Changes

-- What an actor may be sent, and the firing of its timer.
pub data Message : Type 0 where
  exec : ExecKind → Bytes → Message
  end_exec : ℕ → Bool → ℕ → Message
  touch wake_up prewake stop_agent sleep delete timer : Message
  restore delete_snapshot : Bytes → Message
  snapshot : Bytes → Bool → Message

-- The actor after the message.
unfoldable pub handle : Config → Turn → Message → Actor → Actor
handle g o (exec kind stale) a = (Exec.exec g o kind stale a).actor
handle g o (end_exec n s d) a = Exec.end_exec o n s d a
handle g o touch a = (Exec.touch o a).actor
handle g o wake_up a = (Changes.wake_up g o a).actor
handle g o prewake a = (Changes.prewake g o a).actor
handle g o stop_agent a = (Changes.stop_if_awake o a).actor
handle g o sleep a = (Changes.sleep o a).actor
handle g o delete a = (Changes.delete o a).actor
handle g o timer a = (Idle.sleep_if_idle g o a).actor
handle g o (restore snap) a = (Changes.restore o snap a).actor
handle g o (delete_snapshot snap) a = (Changes.delete_snapshot o snap a).actor
handle g o (snapshot snap replace) a = (Changes.snapshot o snap replace a).actor

-- The actor that `start` makes of an ID and the crashes of the one before, at the time `now`.
unfoldable pub start : Bytes → Bool → ℕ → List ℕ → Actor
start id awake now crashes = record {
  id = id;
  addr = [];
  awake = awake;
  execs = [];
  jobs = [];
  next = 0;
  opened = if awake then now else 0;
  closed = if awake then now else 0;
  lease = 0;
  prewoken = false;
  timer = none;
  watching = false;
  crashes = crashes;
}

-- The iterations of the loop, each with what the world answers in it.
unfoldable pub run : Config → List (Turn × Message) → Actor → Actor
unfolding handle Idle.arm_idle
run g [] a = Idle.arm_idle g a
run g ((o, m) ∷ ms) a = run g ms (handle g o m (Idle.arm_idle g a))

-- An actor with none of this left ends, unless a message waits.
unfoldable pub goes_on : Actor → Bool
goes_on a = a.awake || not (is_empty a.execs) || not (is_empty a.jobs)
