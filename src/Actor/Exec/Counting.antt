-- ===== src/Actor/Exec/Counting.antt =====
-- A command is counted from its start to its end, under a number of its own.
use fern.Prelude.{
  ℕ, ◌+◌, ◌≤◌, ◌≡◌, refl, ◌∙◌, Bool, true, false, ◌||◌, List, [], ◌∷◌, ◌++◌, arith, Bytes,
}
use fern.Actor.State.{Config, Actor, Turn, Step, resume, Effect, Result, ok, err, Env}
use fern.Actor.Idle.{deadline}
use fern.Actor.Wake.{wake, wake_env, wake_down, woken}
use fern.Actor.Exec.{
  has, without, count_in, ExecKind, command, job, preview, Exec, opened_exec, exec, end_exec,
}
use fern.Actor.Loop.Invariant.{IsSound, Numbered, wake-IsSound}

has-above : (n : ℕ) (xs : List ℕ) → Numbered n xs → has (n + 1) xs ≡ false
unfolding has
has-above n [] h = refl
has-above n (x ∷ xs) h = ground (arith, has-above n xs h.1)

has-concat : (n : ℕ) (xs : List ℕ) → has n (xs ++ n ∷ []) ≡ true
unfolding has
has-concat n [] = ground arith
has-concat n (x ∷ xs) = ground (arith, has-concat n xs)

without-concat : (n : ℕ) (xs : List ℕ) → Numbered n xs → without (n + 1) (xs ++ (n + 1) ∷ []) ≡ xs
unfolding without
without-concat n [] h = ground arith
without-concat n (x ∷ xs) h = ground (arith, without-concat n xs h.1)

-- A wake counts nothing.
wake-counts_nothing :
    (g : Config) (o : Turn) (stale : Bytes) (a : Actor)
    → let b = (wake g o stale a).actor in
      (b.execs ≡ a.execs) × (b.jobs ≡ a.jobs) × (b.next ≡ a.next)
unfolding wake wake_env wake_down woken
wake-counts_nothing g o stale a = ground arith

end_exec-opened_exec :
    (o o' : Turn) (kind : ExecKind) (sleep : Bool) (d : ℕ) (a : Actor) (env : Env)
    → Numbered a.next a.execs
    → Numbered a.next a.jobs
    → let b = end_exec o' (a.next + 1) sleep d (opened_exec o kind a env).actor in
      (b.execs ≡ a.execs) × (b.jobs ≡ a.jobs)
unfolding end_exec opened_exec count_in
end_exec-opened_exec o o' command sleep d a env x j = ground (
  arith,
  has-above a.next a.jobs j,
  has-concat (a.next + 1) a.execs,
  without-concat a.next a.execs x,
)
end_exec-opened_exec o o' job sleep d a env x j =
    ground (arith, has-concat (a.next + 1) a.jobs, without-concat a.next a.jobs j)
end_exec-opened_exec o o' preview sleep d a env x j = ground (
  arith,
  has-above a.next a.jobs j,
  has-concat (a.next + 1) a.execs,
  without-concat a.next a.execs x,
)

has-append : (n : ℕ) (xs ys : List ℕ) → has n (xs ++ ys) ≡ (has n xs || has n ys)
unfolding has
has-append n [] ys = refl
has-append n (x ∷ xs) ys = ground (arith, has-append n xs ys)

opened_exec-counted :
    (g : Config) (o : Turn) (kind : ExecKind) (a : Actor) (env : Env) (ex : Exec)
    → (opened_exec o kind a env).result ≡ ok ex
    → let b = (opened_exec o kind a env).actor in
      (ex.number ≡ a.next + 1)
      × (has (a.next + 1) (b.execs ++ b.jobs) ≡ true)
      × (o.done + g.idle.human ≤ deadline g b)
unfolding opened_exec count_in deadline
opened_exec-counted g o job a env ex h =
    let n = a.next + 1 in
    ground (arith, has-append n a.execs (a.jobs ++ n ∷ []), has-concat n a.jobs)
opened_exec-counted g o _ a env ex h =
    let n = a.next + 1 in
    ground (arith, has-append n (a.execs ++ n ∷ []) a.jobs, has-concat n a.execs)

resume-ok {ℓ κ} :
    {A : Type ℓ} {B : Type κ} (a : Actor) (es : List Effect) (r : Result A) (f : Actor → A → Step B)
    {b : B}
    → (resume a es r f).result ≡ ok b
    → (v : A) × ((f a v).result ≡ ok b) × ((resume a es r f).actor ≡ (f a v).actor)
resume-ok a es (ok v) f h = (v, h, refl)
resume-ok a es (err e) f h = absurd (cc)

-- A command that started is counted, and when it ends, whatever the times and however it ends,
-- exactly it is no longer: the commands and the jobs are those from before it. From its start its
-- box may stay awake for the human idle time, whatever lease there was.
pub exec-end_exec :
    (g : Config) (o o' : Turn) (kind : ExecKind) (stale : Bytes) (a : Actor) (ex : Exec)
    (sleep : Bool) (d : ℕ)
    → IsSound a
    → (exec g o kind stale a).result ≡ ok ex
    → let b = (exec g o kind stale a).actor in
      let c = end_exec o' ex.number sleep d b in
      (c.execs ≡ a.execs)
      × (c.jobs ≡ a.jobs)
      × (has ex.number (b.execs ++ b.jobs) ≡ true)
      × (o.done + g.idle.human ≤ deadline g b)
unfolding exec
exec-end_exec g o o' kind stale a ex sleep d s h =
    let w = wake g o stale a in
    let (x, j, n) = wake-counts_nothing g o stale a in
    let t = wake-IsSound g o stale a s in
    let (env, e, same) = resume-ok w.actor w.effects w.result (opened_exec o kind) h in
    let (number, there, up) = opened_exec-counted g o kind w.actor env ex e in
    let (p, q) = end_exec-opened_exec o o' kind sleep d w.actor env t.exec_numbers t.job_numbers in
    rw same (rw number (p ∙ x, q ∙ j, there, up))
