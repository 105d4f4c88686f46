-- ===== src/Actor/Loop/Invariant.antt =====
-- What holds of an actor between two messages.
use fern.Prelude.{
  ℕ, ◌+◌, ◌≤◌, ◌≡◌, refl, ◌⊎◌, inl, inr, Bool, true, false, List, [], ◌∷◌, ◌++◌, arith, Bytes, All,
}
use fern.Actor.State.{Config, Actor, Turn, Step, resume, Effect, Result, ok, err, Env, Result-cases}
use fern.Actor.Idle.{arm_idle, stop, sleep_if_idle}
use fern.Actor.Wake.{wake, wake_env, wake_down, woken}
use fern.Actor.Exec.{without, ExecKind, opened_exec, exec, end_exec, touch}
use fern.Actor.Changes.{
  wake_up, prewake, stop_if_awake, sleep, delete, woken_up, forks, delete_forks, restore,
  delete_snapshot, snapshot,
}
use fern.Actor.Loop.{Message, handle, start, run}

-- Nothing is left of a box that is asleep.
pub record IsAtRest (a : Actor) : Type 0 where
  pub no_addr : a.addr ≡ []
  pub no_execs : a.execs ≡ []
  pub no_jobs : a.jobs ≡ []
  pub no_lease : a.lease ≡ 0
  pub not_prewoken : a.prewoken ≡ false
  pub no_watch : a.watching ≡ false

abbrev pub Numbered : ℕ → List ℕ → Type 0
Numbered n xs = All (λ x. x ≤ n) xs

pub record IsSound (a : Actor) : Type 0 where
  pub rest : (a.awake ≡ true) ⊎ IsAtRest a
  pub lease_idle : (a.prewoken ≡ false) ⊎ ((a.execs ≡ []) × (a.jobs ≡ []))
  pub exec_numbers : Numbered a.next a.execs
  pub job_numbers : Numbered a.next a.jobs

Numbered-suc : (n : ℕ) (xs : List ℕ) → Numbered n xs → Numbered (n + 1) xs
Numbered-suc n [] h = tt
Numbered-suc n (x ∷ xs) h = (omega arith, Numbered-suc n xs h.1)

Numbered-concat : (n : ℕ) (xs : List ℕ) → Numbered n xs → Numbered (n + 1) (xs ++ (n + 1) ∷ [])
Numbered-concat n [] h = omega arith
Numbered-concat n (x ∷ xs) h = (omega arith, Numbered-concat n xs h.1)

Numbered-without : (n k : ℕ) (xs : List ℕ) → Numbered n xs → Numbered n (without k xs)
unfolding without
Numbered-without n k [] h = tt
Numbered-without n k (x ∷ xs) h = ground (arith, Numbered-without n k xs h.1)

stop-IsSound : (o : Turn) (a : Actor) → IsSound a → IsSound (stop o a).actor
unfolding stop
stop-IsSound o a s = ground arith

arm_idle-IsSound : (g : Config) (a : Actor) → IsSound a → IsSound (arm_idle g a)
unfolding arm_idle
arm_idle-IsSound g a s = ground arith

sleep_if_idle-IsSound :
    (g : Config) (o : Turn) (a : Actor) → IsSound a → IsSound (sleep_if_idle g o a).actor
unfolding sleep_if_idle
sleep_if_idle-IsSound g o a s = ground arith

module _ (g : Config) (o : Turn) (stale : Bytes) (a : Actor) where
  pub wake-IsSound : IsSound a → IsSound (wake g o stale a).actor
  unfolding wake wake_env wake_down woken
  wake-IsSound s = ground arith

  -- A wake that succeeds leaves the actor awake.
  pub wake-awake :
      {env : Env}
      → IsSound a
      → (wake g o stale a).result ≡ ok env
      → (wake g o stale a).actor.awake ≡ true
  unfolding wake wake_env wake_down woken
  wake-awake s h = ground arith

resume-IsSound {ℓ κ} :
    {A : Type ℓ} {B : Type κ} (a : Actor) (es : List Effect) (r : Result A) (f : Actor → A → Step B)
    → IsSound a
    → ((v : A) → r ≡ ok v → IsSound (f a v).actor)
    → IsSound (resume a es r f).actor
resume-IsSound a es (ok v) f s h = h v refl
resume-IsSound a es (err e) f s h = s

opened_exec-IsSound :
    (o : Turn) (kind : ExecKind) (a : Actor) (env : Env)
    → IsSound a
    → a.awake ≡ true
    → IsSound (opened_exec o kind a env).actor
unfolding opened_exec
opened_exec-IsSound o kind a env s up = ground (
  arith,
  Numbered-suc a.next a.execs,
  Numbered-suc a.next a.jobs,
  Numbered-concat a.next a.execs,
  Numbered-concat a.next a.jobs,
)

exec-IsSound :
    (g : Config) (o : Turn) (kind : ExecKind) (stale : Bytes) (a : Actor)
    → IsSound a
    → IsSound (exec g o kind stale a).actor
unfolding exec
exec-IsSound g o kind stale a s =
    resume-IsSound _ _ _ (opened_exec o kind) (wake-IsSound g o stale a s) λ env e.
      opened_exec-IsSound o kind _ env (wake-IsSound g o stale a s) (wake-awake g o stale a s e)

end_exec-IsSound :
    (o : Turn) (n : ℕ) (b : Bool) (d : ℕ) (a : Actor) → IsSound a → IsSound (end_exec o n b d a)
unfolding end_exec
end_exec-IsSound o n b d a s =
    ground (arith, Numbered-without a.next n a.execs, Numbered-without a.next n a.jobs)

touch-IsSound : (o : Turn) (a : Actor) → IsSound a → IsSound (touch o a).actor
unfolding touch
touch-IsSound o a s = ground arith

woken_up-IsSound :
    (o : Turn) (a : Actor) → IsSound a → a.awake ≡ true → IsSound (woken_up o a).actor
unfolding woken_up
woken_up-IsSound o a s up = ground arith

wake_up-IsSound : (g : Config) (o : Turn) (a : Actor) → IsSound a → IsSound (wake_up g o a).actor
unfolding wake_up
wake_up-IsSound g o a s =
    let tried = record a { crashes = [] } in
    let t : IsSound tried = ground arith in
    let w = wake-IsSound g o [] tried t in
    resume-IsSound _ _ _ (λ a _. woken_up o a) w
      λ env e. woken_up-IsSound o _ w (wake-awake g o [] tried t e)

prewake-IsSound : (g : Config) (o : Turn) (a : Actor) → IsSound a → IsSound (prewake g o a).actor
unfolding prewake wake wake_env wake_down woken
prewake-IsSound g o a s = ground arith

stop_if_awake-IsSound : (o : Turn) (a : Actor) → IsSound a → IsSound (stop_if_awake o a).actor
unfolding stop_if_awake stop
stop_if_awake-IsSound o a s = ground arith

sleep-IsSound : (o : Turn) (a : Actor) → IsSound a → IsSound (sleep o a).actor
unfolding sleep stop
sleep-IsSound o a s = ground arith

restore-IsSound :
    (o : Turn) (snap : Bytes) (a : Actor) → IsSound a → IsSound (restore o snap a).actor
unfolding restore stop
restore-IsSound o snap a s = ground arith

snapshot-IsSound :
    (o : Turn) (snap : Bytes) (again : Bool) (a : Actor)
    → IsSound a
    → IsSound (snapshot o snap again a).actor
unfolding snapshot
snapshot-IsSound o snap again a s = ground arith

delete_forks-actor : (o : Turn) (ns : List ℕ) (a : Actor) → (delete_forks o ns a).actor ≡ a
unfolding delete_forks
delete_forks-actor o [] a = refl
delete_forks-actor o (n ∷ ns) a = ground (arith, delete_forks-actor o ns a)

delete-IsSound : (o : Turn) (a : Actor) → IsSound a → IsSound (delete o a).actor
unfolding delete stop
delete-IsSound o a s = elim (Result-cases o.envs) [
  | inl (es, e) ↦ rw e (ground (arith, delete_forks-actor o (forks a.id es) a))
  | inr (r, e) ↦ rw e (ground arith)
]

handle-IsSound :
    (g : Config) (o : Turn) (m : Message) (a : Actor) → IsSound a → IsSound (handle g o m a)
unfolding handle
handle-IsSound g o (Message.exec kind stale) a s = exec-IsSound g o kind stale a s
handle-IsSound g o (Message.end_exec n b d) a s = end_exec-IsSound o n b d a s
handle-IsSound g o Message.touch a s = touch-IsSound o a s
handle-IsSound g o Message.wake_up a s = wake_up-IsSound g o a s
handle-IsSound g o Message.prewake a s = prewake-IsSound g o a s
handle-IsSound g o Message.stop_agent a s = stop_if_awake-IsSound o a s
handle-IsSound g o Message.sleep a s = sleep-IsSound o a s
handle-IsSound g o Message.delete a s = delete-IsSound o a s
handle-IsSound g o Message.timer a s = sleep_if_idle-IsSound g o a s
handle-IsSound g o (Message.restore snap) a s = restore-IsSound o snap a s
handle-IsSound g o (Message.delete_snapshot snap) a s = unfold delete_snapshot in s
handle-IsSound g o (Message.snapshot snap again) a s = snapshot-IsSound o snap again a s

pub start-IsSound :
    (id : Bytes) (awake : Bool) (now : ℕ) (crashes : List ℕ) → IsSound (start id awake now crashes)
unfolding start
start-IsSound id awake now crashes = ground arith

run-IsSound :
    (g : Config) (ms : List (Turn × Message)) (a : Actor) → IsSound a → IsSound (run g ms a)
unfolding run
run-IsSound g [] a s = arm_idle-IsSound g a s
run-IsSound g ((o, m) ∷ ms) a s =
    run-IsSound g ms _ (handle-IsSound g o m _ (arm_idle-IsSound g a s))

-- Whatever messages an actor gets, and whatever the store, the driver and the clock answer: while
-- its box is not awake it has no address, no command, no job, no lease and no watch; a pre-wake
-- that is still to be counted has no command and no job beside it; and no command or job has a
-- number above the last one given, so that the next number is new.
pub start-run-IsSound :
    (g : Config) (ms : List (Turn × Message)) (id : Bytes) (awake : Bool) (now : ℕ)
    (crashes : List ℕ)
    → IsSound (run g ms (start id awake now crashes))
start-run-IsSound g ms id awake now crashes =
    run-IsSound g ms _ (start-IsSound id awake now crashes)
