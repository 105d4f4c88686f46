-- ===== src/Tests/ActorTests.antt =====
-- internal/actor, at a box that is woken, used and put to sleep.
use fern.Prelude.{
  ◌<◌, ℕ, suc, ◌+◌, ◌*◌, ◌≡◌, ◌≤◌, ◌⊎◌, refl, true, false, none, some, List, [], ◌∷◌, ◌++◌, arith,
  Bytes, codes, length, All, equal,
}
use fern.Text.{has_prefix}
use fern.Actor.State
use fern.Actor.State.{Config, Actor, Turn, Env, Error, ok, err, crashing, failed, not_found}
use fern.Actor.Idle.{arm_idle, deadline, stop, sleep_if_idle}
use fern.Actor.Idle.Deadline.{
  LeaseOver, IdleOver, stops, sleep_if_idle_sound, arm_idle-sleep_if_idle,
}
use fern.Actor.Wake.{wake, recent, wake_env, wake_down, woken, second, crash_limit}
use fern.Actor.Wake.Crashes
use fern.Actor.Wake.Crashes.{wakes, counted, tries, FailsWithin, tries-le}
use fern.Actor.Wake.Stuck.{wake_up-stuck}
use fern.Actor.Exec.{Exec, command, exec, end_exec, has, count_in}
use fern.Actor.Exec.Counting.{exec-end_exec}
use fern.Actor.Changes
use fern.Actor.Changes.{wake_up, restore, delete, forks, fork_numbers, max_forks, delete_forks}
use fern.Actor.Changes.Disk.{swaps, deletes, IsStopped, ForksGone, restore-stops, delete-stops}
use fern.Actor.Changes.Forks.{Lowest, fork_numbers_lem}
use fern.Actor.Loop.{Message, start, run}
use fern.Actor.Loop.Invariant.{IsSound, start-IsSound, start-run-IsSound}

abbrev config : Config
config = record {
  idle = record { agent = 30 * second; human = 1200 * second; prewake = 120 * second };
  agents = true;
  watcher = true;
  woken = true;
}

abbrev demo : Env
demo = record {
  id = codes "demo";
  workspace = codes "/w";
  claude = codes "/c";
  git = [];
  box_token = codes "t";
}

-- Everything goes well, at second `n`.
abbrev fine : ℕ → Turn
fine n = record {
  now = n * second;
  done = n * second + 1;
  get = ok demo;
  wake = ok (codes "box");
  sleep = none;
  room = true;
  has_snapshot = ok true;
  envs = ok (codes "demo" ∷ codes "demo-fork-2" ∷ []);
  agent_stopped = none;
  fork_deleted = λ n. none;
  changed = λ c. none;
}

abbrev broken : ℕ → Turn
broken n = record (fine n) { wake = err (failed 1) }

abbrev asleep : Actor
asleep = start (codes "demo") false 0 []

abbrev up : Actor
up = record asleep { addr = codes "box"; awake = true; opened = second; closed = second }

abbrev script : List (Turn × Message)
script =
    (fine 1, Message.prewake)
    ∷ (fine 2, Message.exec command [])
    ∷ (fine 3, Message.end_exec 1 true 0)
    ∷ (fine 4, Message.timer)
    ∷ []

script_sleeps : (run config script asleep).awake ≡ false
unfolding run start Changes.prewake wake wake_env wake_down woken recent equal exec end_exec
    State.box_of has sleep_if_idle
script_sleeps = refl

start-run-IsSound_example : IsSound (run config script asleep)
start-run-IsSound_example = start-run-IsSound config script (codes "demo") false 0 []

idle_times_over : stops (sleep_if_idle config (fine 2000) up).effects ≡ true
unfolding sleep_if_idle start
idle_times_over = refl

sleep_if_idle_sound_example :
    (up.awake ≡ true)
    × (up.execs ≡ [])
    × (LeaseOver up (fine 2000).now ⊎ IdleOver config up (fine 2000).now)
sleep_if_idle_sound_example = sleep_if_idle_sound config (fine 2000) up idle_times_over

up_armed : (arm_idle config up).timer ≡ some (1201 * second)
unfolding arm_idle start
up_armed = refl

arm_idle-sleep_if_idle_example :
    let b = (sleep_if_idle config (fine 1201) (arm_idle config up)).actor in
    (b.awake ≡ false) × (b.addr ≡ []) × (b.execs ≡ []) × (b.jobs ≡ []) × (b.lease ≡ 0)
arm_idle-sleep_if_idle_example =
    arm_idle-sleep_if_idle config (fine 1201) up (1201 * second) up_armed (omega arith) refl

abbrev serving : Actor
serving = record up { execs = 1 ∷ []; next = 1 }

serving_unarmed : (arm_idle config serving).timer ≡ none
unfolding arm_idle start
serving_unarmed = refl

-- Two crashes in the last minute.
abbrev shaky : Actor
shaky = record up { crashes = 10 * second ∷ 20 * second ∷ [] }

three_counted : crash_limit ≤ length (counted (fine 30) (codes "box") shaky)
unfolding recent
three_counted = omega arith

not_elsewhere : Crashes.is_up (codes "box") shaky ≡ false
unfolding equal
not_elsewhere = refl

two_counted : suc (length (counted (broken 30) [] asleep)) ≤ crash_limit
unfolding recent start
two_counted = omega arith

asleep_down : Crashes.is_up [] asleep ≡ false
unfolding start equal
asleep_down = refl

broken_fails : (n : ℕ) → n ≤ 100 → FailsWithin 0 (broken n)
broken_fails n h = record {
  from = omega arith;
  order = omega arith;
  within = omega arith;
  error = failed 1;
  fails = refl;
}

abbrev attempts : List Turn
attempts = broken 1 ∷ broken 2 ∷ broken 3 ∷ broken 4 ∷ broken 5 ∷ []

attempts_fail : All (FailsWithin 0) attempts
attempts_fail =
    let f = broken_fails in
    (
      f 1 (omega arith),
      (f 2 (omega arith), (f 3 (omega arith), (f 4 (omega arith), (f 5 (omega arith), tt)))),
    )

asleep_no_addr : asleep.addr ≡ []
unfolding start
asleep_no_addr = refl

asleep_no_crashes : Crashes.since 0 asleep.crashes ≡ 0
unfolding start
asleep_no_crashes = refl

tries-le_example : tries config attempts asleep ≤ crash_limit
tries-le_example = tries-le config 0 attempts asleep attempts_fail asleep_no_addr asleep_no_crashes

wake_up-stuck_example :
    let dead = (wake config (fine 30) (codes "box") shaky).actor in
    ((wake config (fine 30) (codes "box") shaky).result ≡ err crashing)
    × (dead.addr ≡ shaky.addr)
    × ((wake config (fine 40) [] dead).result ≡ ok demo)
    × ((wake config (fine 40) [] dead).effects ≡ [])
    × ((wake_up config (fine 40) dead).result ≡ ok tt)
    × (wakes (wake_up config (fine 40) dead).effects ≡ 0)
wake_up-stuck_example =
    wake_up-stuck config (fine 30) (fine 40) shaky demo demo refl refl (λ e. cc) three_counted

abbrev opened : Exec
opened = record { addr = codes "box"; token = codes "t"; number = 1 }

asleep-IsSound : IsSound asleep
asleep-IsSound = start-IsSound (codes "demo") false 0 []

asleep_opens : (exec config (fine 5) command [] asleep).result ≡ ok opened
unfolding exec wake wake_env wake_down woken start recent equal count_in
asleep_opens = refl

exec-end_exec_example :
    let b = (exec config (fine 5) command [] asleep).actor in
    let c = end_exec (fine 9) 1 true 0 b in
    (c.execs ≡ asleep.execs)
    × (c.jobs ≡ asleep.jobs)
    × (has 1 (b.execs ++ b.jobs) ≡ true)
    × ((fine 5).done + config.idle.human ≤ deadline config b)
exec-end_exec_example =
    exec-end_exec config (fine 5) (fine 9) command [] asleep opened true 0 asleep-IsSound
      asleep_opens

restore-swaps : swaps (restore (fine 6) (codes "turn-1") serving).effects ≡ true
unfolding restore stop start
restore-swaps = refl

restore-stops_example :
    ((fine 6).has_snapshot ≡ ok true)
    × ((fine 6).sleep ≡ none)
    × ((fine 6).agent_stopped ≡ none)
    × IsStopped (restore (fine 6) (codes "turn-1") serving).actor
restore-stops_example = restore-stops (fine 6) (codes "turn-1") serving restore-swaps

abbrev typo : Turn
typo = record (fine 6) { has_snapshot = ok false }

delete-deletes : deletes (delete (fine 7) serving).effects ≡ true
unfolding delete stop forks delete_forks start equal has_prefix
delete-deletes = refl

delete-stops_example :
    (es : List Bytes) × ((fine 7).envs ≡ ok es)
    × ForksGone (fine 7) (forks serving.id es)
    × ((fine 7).sleep ≡ none)
    × ((fine 7).agent_stopped ≡ none)
    × IsStopped (delete (fine 7) serving).actor
delete-stops_example = delete-stops (fine 7) serving delete-deletes

abbrev asked : ℕ
asked = 3

abbrev forked : List ℕ
forked = 2 ∷ 4 ∷ []

fork_numbers_lem_example :
    (((asked ≡ 0) ⊎ (max_forks < length forked + asked))
      × (fork_numbers asked forked ≡ err State.too_many_forks))
    ⊎ ((1 ≤ asked)
        × (length forked + asked ≤ max_forks)
        × ((ns : List ℕ) × (fork_numbers asked forked ≡ ok ns)
            × (length ns ≡ asked)
            × Lowest forked 1 ns
            × All (λ x. x ≤ max_forks) ns))
fork_numbers_lem_example = fork_numbers_lem asked forked

fork_numbers_run : fork_numbers 3 (2 ∷ 4 ∷ []) ≡ ok (1 ∷ 3 ∷ 5 ∷ [])
unfolding fork_numbers
fork_numbers_run = refl
