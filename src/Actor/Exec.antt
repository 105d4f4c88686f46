-- ===== src/Actor/Exec.antt =====
-- Commands, counted while they run (internal/actor/exec.go), and the touch of a box that Claude's
-- edits are passed on to (touch of watch.go).
pub mod Counting
use fern.Prelude.{
  ℕ, suc, ◌+◌, Bool, true, false, ◌&&◌, ◌||◌, not, Option, none, some, List, [], ◌∷◌, ◌++◌, Bytes,
  ◌==◌, if◌then◌else◌, is_empty,
}
use fern.Actor.State.{
  Config, Actor, Turn, Step, step, prepend, and_then, used, Result, ok, err, Env,
}
use fern.Actor.Idle.{end_lease, end_lease_effects}
use fern.Actor.Wake.{wake}

pub data ExecKind : Type 0 where
  command job preview : ExecKind

-- Exec: the box's address and token, and the command's number.
pub record Exec : Type 0 where
  pub addr : Bytes
  pub token : Bytes
  pub number : ℕ

unfoldable pub has : ℕ → List ℕ → Bool
has n [] = false
has n (x ∷ xs) = x == n || has n xs

-- delete(m, n)
unfoldable pub without : ℕ → List ℕ → List ℕ
without n [] = []
without n (x ∷ xs) = let rest = without n xs in if x == n then rest else x ∷ rest

-- The command is one of the kind's, under number `n`.
unfoldable pub count_in : ExecKind → ℕ → Actor → Actor
count_in job n a = record a { next = n; jobs = a.jobs ++ n ∷ [] }
count_in command n a = record a { next = n; execs = a.execs ++ n ∷ [] }
count_in preview n a = record a { next = n; execs = a.execs ++ n ∷ [] }

unfoldable pub opened_exec : Turn → ExecKind → Actor → Env → Step Exec
unfolding count_in end_lease end_lease_effects
opened_exec o kind a env =
    let n = a.next + 1 in
    step (record (count_in kind n (end_lease used a)) { opened = o.done })
      (end_lease_effects used a) (ok (record { addr = a.addr; token = env.box_token; number = n }))

-- exec, for Exec, Job and Preview.
unfoldable pub exec : Config → Turn → ExecKind → Bytes → Actor → Step Exec
unfolding opened_exec
exec g o kind stale a = and_then (wake g o stale a) (opened_exec o kind)

ended : Turn → Bool → ℕ → Actor → Actor
ended o sleep d a =
    if sleep && is_empty a.execs
    then record a { closed = o.now; lease = o.now + d }
    else record a { closed = o.now }

-- endExec: command `n` is over; with `sleep`, the box sleeps after `d` if nothing else runs. One
-- that a stop cancelled is not counted any more.
unfoldable pub end_exec : Turn → ℕ → Bool → ℕ → Actor → Actor
unfolding has without ended
end_exec o n sleep d a =
    if has n a.jobs
    then record a { jobs = without n a.jobs }
    else if has n a.execs
    then ended o sleep d (record a { execs = without n a.execs })
    else a

touched_env : Turn → Actor → Result Env → Step (Option (Bytes × Bytes))
touched_env o a (err e) = step a [] (err e)
touched_env o a (ok env) = step (record a { opened = o.now }) [] (ok (some (a.addr, env.box_token)))

-- touch: the address to send the paths to, of a box that is known to be up.
unfoldable pub touch : Turn → Actor → Step (Option (Bytes × Bytes))
unfolding touched_env
touch o a = if is_empty a.addr then step a [] (ok none) else touched_env o a o.get
