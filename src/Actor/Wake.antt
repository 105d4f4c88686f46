-- ===== src/Actor/Wake.antt =====
-- Waking a box, and refusing to wake one that keeps crashing (wake and recent of
-- internal/actor/actor.go; watch of watch.go).
pub mod Crashes
pub mod Stuck
use fern.Prelude.{
  ℕ, ◌-◌, ◌*◌, Bool, true, false, ◌&&◌, ◌||◌, not, List, [], ◌∷◌, ◌++◌, Bytes, leb, if◌then◌else◌,
  equal, is_empty, length,
}
use fern.Ids.{is_builder, is_agent_box, env_of_box}
use fern.Actor.State.{
  Config, Actor, Turn, Step, step, Effect, start_watch, announce, Result, ok, err, crashing, Env,
  box_of,
}
use fern.Actor.State

abbrev pub second : ℕ
second = 1000000000

abbrev pub crash_limit : ℕ
crash_limit = 3

abbrev pub crash_window : ℕ
crash_window = 5 * (60 * second)

-- recent: the times within crashWindow of `now`. A time ahead of the clock counts as within.
unfoldable pub recent : ℕ → List ℕ → List ℕ
recent now [] = []
recent now (t ∷ ts) =
    let rest = recent now ts in if leb crash_window (now - t) then rest else t ∷ rest

abbrev pub announces : Config → Turn → Actor → List Effect
announces g o a =
    if g.woken && equal (env_of_box a.id) a.id && not (is_builder a.id) && o.room
    then announce a.id ∷ []
    else []

abbrev pub watches : Config → Actor → Bool
watches g a =
    g.watcher && g.agents && not (is_agent_box a.id) && not (is_builder a.id) && not a.watching

-- What follows the driver's answer.
unfoldable pub woken : Config → Turn → Actor → Env → List Effect → Result Bytes → Step Env
woken g o a env es (err e) = step (record a { crashes = a.crashes ++ o.done ∷ [] }) es (err e)
woken g o a env es (ok addr) =
    step (record a { addr = addr; watching = watches g a || a.watching })
      (es ++ (announces g o a ++ (if watches g a then start_watch ∷ [] else []))) (ok env)

abbrev pub touched : Turn → Actor → Actor
touched o a = if not a.awake then record a { awake = true; opened = o.now; closed = o.now } else a

-- The box is asleep, or what it was known as does not answer.
unfoldable pub wake_down : Config → Turn → Actor → Env → Step Env
wake_down g o a env =
    let a' = record a { crashes = recent o.now a.crashes } in
    if leb crash_limit (length a'.crashes)
    then step a' [] (err crashing)
    else woken g o (touched o (record a' { addr = [] })) env
        (State.wake_box (box_of g a.id env) ∷ []) o.wake

unfoldable pub wake_env : Config → Turn → Bytes → Actor → Result Env → Step Env
wake_env g o stale a (err e) = step a [] (err e)
wake_env g o stale a (ok env) =
    if not (is_empty a.addr) && not (equal a.addr stale)
    then step a [] (ok env)
    else if not (is_empty stale)
    then wake_down g o (record a { crashes = a.crashes ++ o.now ∷ [] }) env
    else wake_down g o a env

-- wake: the environment once its box is up, unless it is known to be up elsewhere than at `stale`.
unfoldable pub wake : Config → Turn → Bytes → Actor → Step Env
wake g o stale a = wake_env g o stale a o.get
