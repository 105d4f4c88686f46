-- ===== src/Actor/Changes/Disk.antt =====
-- The disk of an environment is changed only under a box that is stopped.
use fern.Prelude.{
  ℕ, All, map, ◌⊎◌, inl, inr, Option-cases, ◌≡◌, ◌≢◌, refl, Bool, true, false, none, some, List, [],
  ◌∷◌, ◌++◌, arith, Bytes,
}
use fern.Actor.State.{
  Config, Actor, Turn, Effect, Step, and_then, Result-cases, Error, cancel, change, swap_disk,
  delete_env, Result, ok, err, Env, not_found,
}
use fern.Actor.State
use fern.Actor.Idle.{stop}
use fern.Actor.Changes.{agent_stop, disk, restore, delete, delete_forks, forks}

abbrev pub swaps : List Effect → Bool
swaps [] = false
swaps (change (swap_disk s) ∷ es) = true
swaps (_ ∷ es) = swaps es

-- Nothing of the box is left.
pub record IsStopped (a : Actor) : Type 0 where
  pub asleep : a.awake ≡ false
  pub no_addr : a.addr ≡ []
  pub no_execs : a.execs ≡ []
  pub no_jobs : a.jobs ≡ []

swaps-append : (xs ys : List Effect) → swaps xs ≡ false → swaps (xs ++ ys) ≡ swaps ys
swaps-append [] ys h = refl
swaps-append (change (swap_disk s) ∷ xs) ys h = cc
swaps-append (x ∷ xs) ys h = ground (arith, swaps-append xs ys)

swaps-cancel : (xs : List ℕ) → swaps (map cancel xs) ≡ false
swaps-cancel [] = refl
swaps-cancel (x ∷ xs) = swaps-cancel xs

stop-swaps : (o : Turn) (a : Actor) → swaps (stop o a).effects ≡ false
unfolding stop
stop-swaps o a = ground (
  arith,
  swaps-cancel a.execs,
  swaps-cancel a.jobs,
  swaps-append (map cancel a.execs) (map cancel a.jobs),
)

stop-result :
    (o : Turn) (a : Actor)
    → ((o.sleep ≡ none) × ((stop o a).result ≡ ok tt) × IsStopped (stop o a).actor)
      ⊎ ((e : Error) × (o.sleep ≡ some e) × ((stop o a).result ≡ err e))
unfolding stop
stop-result o a = elim (Option-cases o.sleep) [
  | inl e ↦ inl (e, ground arith, ground arith)
  | inr (x, e) ↦ inr (x, e, ground arith)
]

-- Restore asks the store to swap the disk only if the snapshot is there, the driver has stopped
-- the box and the agent box is stopped, and the actor then has no command, job or address.
pub restore-stops :
    (o : Turn) (snap : Bytes) (a : Actor)
    → swaps (restore o snap a).effects ≡ true
    → (o.has_snapshot ≡ ok true)
      × (o.sleep ≡ none)
      × (o.agent_stopped ≡ none)
      × IsStopped (restore o snap a).actor
unfolding restore
restore-stops o snap a h = elim (stop-result o a) [
  | inl (e, r, d) ↦
      ground (arith, stop-swaps o a, swaps-append (stop o a).effects (State.stop_agent ∷ []))
  | inr (x, e, r) ↦ ground (arith, stop-swaps o a)
]

-- A restore to a snapshot that is missing, or not known to be there, costs nothing: the actor is
-- as it was, with its commands, and nothing is done.
restore-missing :
    (o : Turn) (snap : Bytes) (a : Actor)
    → o.has_snapshot ≢ ok true
    → ((restore o snap a).effects ≡ []) × ((restore o snap a).actor ≡ a)
unfolding restore
restore-missing o snap a n = ground arith

-- Deletes of the environment's disk.
abbrev pub deletes : List Effect → Bool
deletes [] = false
deletes (change delete_env ∷ es) = true
deletes (_ ∷ es) = deletes es

deletes-append : (xs ys : List Effect) → deletes xs ≡ false → deletes (xs ++ ys) ≡ deletes ys
deletes-append [] ys h = refl
deletes-append (change delete_env ∷ xs) ys h = cc
deletes-append (change (swap_disk s) ∷ xs) ys h = ground (arith, deletes-append xs ys)
deletes-append (x ∷ xs) ys h = ground (arith, deletes-append xs ys)

deletes-cancel : (xs : List ℕ) → deletes (map cancel xs) ≡ false
deletes-cancel [] = refl
deletes-cancel (x ∷ xs) = deletes-cancel xs

stop-deletes : (o : Turn) (a : Actor) → deletes (stop o a).effects ≡ false
unfolding stop
stop-deletes o a = ground (
  arith,
  deletes-cancel a.execs,
  deletes-cancel a.jobs,
  deletes-append (map cancel a.execs) (map cancel a.jobs),
)

-- The errors that the deletes of the forks may return.
abbrev pub ForksGone : Turn → List ℕ → Type 0
ForksGone o ns = All (λ n. (o.fork_deleted n ≡ none) ⊎ (o.fork_deleted n ≡ some not_found)) ns

delete_forks-deletes :
    (o : Turn) (ns : List ℕ) (a : Actor) → deletes (delete_forks o ns a).effects ≡ false
unfolding delete_forks
delete_forks-deletes o [] a = refl
delete_forks-deletes o (n ∷ ns) a = ground (arith, delete_forks-deletes o ns a)

delete_forks-actor : (o : Turn) (ns : List ℕ) (a : Actor) → (delete_forks o ns a).actor ≡ a
unfolding delete_forks
delete_forks-actor o [] a = refl
delete_forks-actor o (n ∷ ns) a = ground (arith, delete_forks-actor o ns a)

delete_forks-gone :
    (o : Turn) (ns : List ℕ) (a : Actor) → (delete_forks o ns a).result ≡ ok tt → ForksGone o ns
unfolding delete_forks
delete_forks-gone o [] a h = tt
delete_forks-gone o (n ∷ ns) a h = ground (arith, delete_forks-gone o ns a)

-- What `delete` does once it knows the environments.
delete_rest : Turn → List ℕ → Actor → Step (Unit {0})
delete_rest o ns a =
    and_then (delete_forks o ns a)
      λ a _. and_then (stop o a) λ a _. and_then (agent_stop o a) λ a _. disk o delete_env a

delete_rest-stops :
    (o : Turn) (ns : List ℕ) (a : Actor)
    → deletes (delete_rest o ns a).effects ≡ true
    → ForksGone o ns
      × (o.sleep ≡ none)
      × (o.agent_stopped ≡ none)
      × IsStopped (delete_rest o ns a).actor
unfolding delete_rest agent_stop disk
delete_rest-stops o ns a h = elim (stop-result o a) [
  | inl (e, r, d) ↦ ground (
    arith,
    delete_forks-actor o ns a,
    delete_forks-deletes o ns a,
    delete_forks-gone o ns a,
    stop-deletes o a,
    deletes-append (stop o a).effects (State.stop_agent ∷ []),
    deletes-append (delete_forks o ns a).effects (stop o a).effects,
    deletes-append (delete_forks o ns a).effects ((stop o a).effects ++ (State.stop_agent ∷ [])),
  )
  | inr (x, e, r) ↦ ground (
    arith,
    delete_forks-actor o ns a,
    delete_forks-deletes o ns a,
    stop-deletes o a,
    deletes-append (delete_forks o ns a).effects (stop o a).effects,
  )
]

delete-eq-delete_rest :
    (o : Turn) (a : Actor) (env : Env) (es : List Bytes)
    → o.get ≡ ok env
    → o.envs ≡ ok es
    → delete o a ≡ delete_rest o (forks a.id es) a
unfolding delete delete_rest agent_stop disk
delete-eq-delete_rest o a env es e f = rw (e, f) refl

-- Delete asks the store to delete the environment only if it knows its forks and each of them is
-- deleted or was gone, the driver has stopped the box, and the agent box is stopped.
pub delete-stops :
    (o : Turn) (a : Actor)
    → deletes (delete o a).effects ≡ true
    → (es : List Bytes) × (o.envs ≡ ok es)
      × ForksGone o (forks a.id es)
      × (o.sleep ≡ none)
      × (o.agent_stopped ≡ none)
      × IsStopped (delete o a).actor
unfolding delete
delete-stops o a h = elim (Result-cases o.get) [
  | inr (x, e) ↦ absurd (ground arith)
  | inl (env, e) ↦ elim (Result-cases o.envs) [
    | inr (x, f) ↦ absurd (ground arith)
    | inl (es, f) ↦
        let same = delete-eq-delete_rest o a env es e f in
        let (gone, asleep, agent, stopped) = delete_rest-stops o (forks a.id es) a (rw same at h) in
        (es, f, gone, asleep, agent, rw same stopped)
  ]
]
