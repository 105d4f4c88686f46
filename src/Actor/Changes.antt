-- ===== src/Actor/Changes.antt =====
-- The changes of an environment that its actor makes (internal/actor/changes.go; prewake of
-- idle.go).
pub mod Disk
pub mod Forks
use fern.Prelude.{
  ℕ, zero, suc, ◌+◌, Bool, true, false, ◌||◌, not, Option, none, some, List, [], ◌∷◌, Bytes, ltb,
  leb, ◌==◌, if◌then◌else◌, equal, is_empty, length,
}
use fern.Ids.{fork_of, is_agent_box}
use fern.Actor.State.{
  Config, Actor, Turn, Step, step, and_then, result_of, used, Error, not_found, too_many_forks,
  Result, ok, err, Env, Change, take_snapshot, drop_snapshot, swap_disk, prune, delete_env, change,
  delete_fork,
}
use fern.Actor.State
use fern.Actor.Idle.{end_lease, end_lease_effects, stop}
use fern.Actor.Wake.{wake}
use fern.Actor.Exec.{has}

-- A call of the store that changes the disk.
disk : Turn → Change → Actor → Step (Unit {0})
disk o c a = step a (change c ∷ []) (result_of (o.changed c))

-- stopAgent, seen from the environment's own actor.
agent_stop : Turn → Actor → Step (Unit {0})
agent_stop o a = step a (State.stop_agent ∷ []) (result_of o.agent_stopped)

-- stopAgent, on the agent box's actor.
unfoldable pub stop_if_awake : Turn → Actor → Step (Unit {0})
stop_if_awake o a = if not a.awake then step a [] (ok tt) else stop o a

-- The environment must be in the index.
abbrev known : Turn → Actor → Step Env
known o a = step a [] o.get

-- Sleep
unfoldable pub sleep : Turn → Actor → Step (Unit {0})
unfolding agent_stop
sleep o a = and_then (known o a) λ a _.
    and_then (stop o a) λ a _. if not (is_agent_box a.id) then agent_stop o a else step a [] (ok tt)

abbrev has_it : Actor → Bool → Step (Unit {0})
has_it a true = step a [] (ok tt)
has_it a false = step a [] (err not_found)

-- Restore: the snapshot is looked for before the box is stopped.
unfoldable pub restore : Turn → Bytes → Actor → Step (Unit {0})
unfolding agent_stop disk
restore o snap a = and_then (step a [] o.has_snapshot) λ a there.
    and_then (has_it a there)
      λ a _. and_then (stop o a) λ a _. and_then (agent_stop o a) λ a _. disk o (swap_disk snap) a

-- Snapshot; an error of the prune is only logged.
unfoldable pub snapshot : Turn → Bytes → Bool → Actor → Step (Unit {0})
unfolding disk
snapshot o snap replace a =
    and_then (if replace then disk o (drop_snapshot snap) a else step a [] (ok tt))
      λ a _. and_then (disk o (take_snapshot snap) a) λ a _. step a (change prune ∷ []) (ok tt)

-- DeleteSnapshot
unfoldable pub delete_snapshot : Turn → Bytes → Actor → Step (Unit {0})
unfolding disk
delete_snapshot o snap a = disk o (drop_snapshot snap) a

unfoldable pub woken_up : Turn → Actor → Step (Unit {0})
unfolding end_lease end_lease_effects
woken_up o a =
    step (record (end_lease used a) { opened = o.done; closed = o.done }) (end_lease_effects used a)
      (ok tt)

-- Wake, for a person: a box that kept crashing is tried again.
unfoldable pub wake_up : Config → Turn → Actor → Step (Unit {0})
unfolding woken_up
wake_up g o a = and_then (wake g o [] (record a { crashes = [] })) λ a _. woken_up o a

pub data Prewoken : Type 0 where
  already fresh : Prewoken

prewake_answer : Config → Turn → Step Env → Result Env → Step Prewoken
prewake_answer g o s (ok _) =
    step (record s.actor { lease = o.done + g.idle.prewake; prewoken = true }) s.effects (ok fresh)
prewake_answer g o s (err e) =
    if not s.actor.awake
    then step (record s.actor { lease = 0 }) s.effects (err e)
    else step s.actor s.effects (err e)

-- prewake: the lease is set before the wake, which may fail half-way.
unfoldable pub prewake : Config → Turn → Actor → Step Prewoken
unfolding prewake_answer
prewake g o a =
    if a.awake
    then step a [] (ok already)
    else let s = wake g o [] (record a { lease = o.now + g.idle.prewake }) in
      prewake_answer g o s s.result

abbrev own_fork : Bytes → Option (Bytes × ℕ) → List ℕ → List ℕ
own_fork id none rest = rest
own_fork id (some (parent, n)) rest = if equal parent id then n ∷ rest else rest

-- forks: the numbers of the forks of `id` among the environments.
unfoldable pub forks : Bytes → List Bytes → List ℕ
unfolding fork_of equal
forks id [] = []
forks id (e ∷ es) = own_fork id (fork_of e) (forks id es)

-- The forks of an environment are deleted one after the other, and one that is gone is no error.
unfoldable pub delete_forks : Turn → List ℕ → Actor → Step (Unit {0})
delete_forks o [] a = step a [] (ok tt)
delete_forks o (n ∷ ns) a =
    let rest = delete_forks o ns a in
    elim (o.fork_deleted n) [
      | none ↦ State.prepend (delete_fork n ∷ []) rest
      | some Error.not_found ↦ State.prepend (delete_fork n ∷ []) rest
      | some e ↦ step a (delete_fork n ∷ []) (err e)
    ]

-- Delete
unfoldable pub delete : Turn → Actor → Step (Unit {0})
unfolding agent_stop disk
delete o a = and_then (known o a) λ a _. and_then (step a [] o.envs) λ a envs.
    and_then (delete_forks o (forks a.id envs) a)
      λ a _. and_then (stop o a) λ a _. and_then (agent_stop o a) λ a _. disk o delete_env a

abbrev pub max_forks : ℕ
max_forks = 8

-- The loop of Fork, from number `n`: the numbers that are free, until there are `count`.
unfoldable pub free_numbers : ℕ → List ℕ → ℕ → ℕ → List ℕ
unfolding has
free_numbers fuel taken n zero = []
free_numbers zero taken n (suc count) = []
free_numbers (suc fuel) taken n (suc count) =
    let skipped = free_numbers fuel taken (n + 1) (suc count) in
    let picked = free_numbers fuel taken (n + 1) count in
    if has n taken then skipped else n ∷ picked

-- Fork, up to the creation of the forks: the numbers that they get.
unfoldable pub fork_numbers : ℕ → List ℕ → Result (List ℕ)
unfolding free_numbers
fork_numbers count taken =
    if ltb count 1 || ltb max_forks count
    then err too_many_forks
    else if ltb max_forks (length taken + count)
    then err too_many_forks
    else ok (free_numbers (length taken + count) taken 1 count)
