-- ===== src/Backup/Once/Changes.antt =====
-- What others do to the node, and what a backup does to it.
use fern.Prelude.{
  ℕ, suc, ◌≤◌, ◌<◌, ◌≡◌, refl, ◌∙◌, subst, inl, inr, Bool-cases, Option, none, some, List, [], ◌∷◌,
  Bytes, if◌then◌else◌, equal, ◌==◌, arith,
}
use fern.Sets.{value_of, store, value_of-store}
use fern.Backup.Bucket.{
  Name, taken_at, Taken, Env, SendStream, State, stream_at, snap_at, without_snap, without_env,
  Change, writes, drops, makes, deletes, with_env, changed, changed_all,
}
use fern.Backup.Send.{dropped_from, found_in, drop_snap, taken_of, env_snapshot}
use fern.Backup.Once.Sound.{
  IsTaken, IsSound, Keeps, Becomes, AreTaken, become-IsSound, become-IsCurrent, fewer-IsSound,
  fewer-IsCurrent, snap_at-without_snap, value_of-without_env,
}

abbrev pub kept_env : State → (Env → Env) → Bytes → Env → State
kept_env s f id e = record s { envs = store id (f e) s.envs }

abbrev moved : State → State
moved s = record s { clock = suc s.clock }

pub same-Keeps :
    (s v : State)
    → IsSound s
    → v.bucket ≡ s.bucket
    → v.now ≡ s.now
    → s.clock ≤ v.clock
    → v.envs ≡ s.envs
    → Keeps s v
same-Keeps s v h b n c e =
    let sub : (k : Bytes) (x : Env) → value_of k v.envs ≡ some x → value_of k s.envs ≡ some x =
      λ k x i. subst (λ es. value_of k es ≡ some x) e i in
    (b, n, fewer-IsSound s v h b (omega arith) c sub, fewer-IsCurrent s v h b (omega arith) c sub)

-- A write moves the generation past every backup's.
written-Keeps :
    (s : State) (id : Bytes) (e : Env) (t : ℕ)
    → IsSound s
    → value_of id s.envs ≡ some e
    → Keeps s (kept_env (moved s) (λ e. record e { tree = t; generation = suc s.clock }) id e)
written-Keeps s id e t h i =
    let e' = record e { tree = t; generation = suc s.clock } in
    let v = record (moved s) { envs = store id e' s.envs } in
    let b : Becomes s v id e' = λ k. value_of-store id k e' s.envs in
    (
      refl,
      refl,
      become-IsSound s v h refl (omega arith) (omega arith) id e' b (omega arith) (λ n x j.
          let (p, q, r, u) = h.snaps id e n x i j in
          (p, omega arith, λ k. absurd (omega (arith, k, q)), u)),
      become-IsCurrent s v h refl (omega arith) (omega arith) id e' b
          λ g u c k. absurd (omega (arith, c.0, k)),
    )

pub dropped-Keeps :
    (s : State) (id : Bytes) (e : Env) (a : Name)
    → IsSound s
    → value_of id s.envs ≡ some e
    → Keeps s (kept_env s (λ e. record e { snaps = without_snap a e.snaps }) id e)
dropped-Keeps s id e a h i =
    let e' = record e { snaps = without_snap a e.snaps } in
    let v = record s { envs = store id e' s.envs } in
    let b : Becomes s v id e' = λ k. value_of-store id k e' s.envs in
    (
      refl,
      refl,
      become-IsSound s v h refl (omega arith) (omega arith) id e' b (h.past id e i)
          (λ n x j. h.snaps id e n x i (snap_at-without_snap (taken_at n) a x e.snaps j)),
      become-IsCurrent s v h refl (omega arith) (omega arith) id e' b λ g u c. c.1 e i,
    )

abbrev made : State → Bytes → Env → State
made s id e = record (moved s) { envs = store id e (without_env id s.envs) }

made-Keeps :
    (s : State) (id : Bytes) (t : ℕ) (p : Option Bytes)
    → IsSound s
    → Keeps s (made s id (record { tree = t; generation = suc s.clock; path = p; snaps = [] }))
unfolding snap_at
made-Keeps s id t p h =
    let e : Env = record { tree = t; generation = suc s.clock; path = p; snaps = [] } in
    let v = made s id e in
    let b : Becomes s v id e = λ k. value_of-store id k e (without_env id s.envs) ∙ others k in
    (
      refl,
      refl,
      become-IsSound s v h refl (omega arith) (omega arith) id e b (omega arith)
          (λ n x j. absurd (ground (arith, j))),
      become-IsCurrent s v h refl (omega arith) (omega arith) id e b
          λ g u c k. absurd (omega (arith, c.0, k)),
    )
  where
    others :
        (k : Bytes)
        → (if equal k id
            then some (record { tree = t; generation = suc s.clock; path = p; snaps = [] })
            else value_of k (without_env id s.envs))
          ≡ (if equal k id
              then some (record { tree = t; generation = suc s.clock; path = p; snaps = [] })
              else value_of k s.envs)
    others k = elim (Bool-cases (equal k id)) [
      | inl y ↦ rw y refl
      | inr n ↦ rw n (value_of-without_env k id s.envs ∙ rw n refl)
    ]

deleted-Keeps :
    (s : State) (id : Bytes) → IsSound s → Keeps s (record s { envs = without_env id s.envs })
deleted-Keeps s id h =
    let v = record s { envs = without_env id s.envs } in
    (
      refl,
      refl,
      fewer-IsSound s v h refl (omega arith) (omega arith) left,
      fewer-IsCurrent s v h refl (omega arith) (omega arith) left,
    )
  where
    left :
        (k : Bytes) (e : Env)
        → value_of k (without_env id s.envs) ≡ some e
        → value_of k s.envs ≡ some e
    left k e i = ground (arith, value_of-without_env k id s.envs, i)

pub changed-Keeps : (c : Change) (s : State) → IsSound s → Keeps s (changed c s)
unfolding changed
changed-Keeps (writes id t) s h = written (value_of id s.envs) refl
  where
    written :
        (o : Option Env)
        → value_of id s.envs ≡ o
        → Keeps s (with_env id (λ e. record e { tree = t; generation = suc s.clock }) o (moved s))
    written none i = same-Keeps s (moved s) h refl refl (omega arith) refl
    written (some e) i = written-Keeps s id e t h i
changed-Keeps (drops id a) s h = dropped (value_of id s.envs) refl
  where
    dropped :
        (o : Option Env)
        → value_of id s.envs ≡ o
        → Keeps s (with_env id (λ e. record e { snaps = without_snap a e.snaps }) o s)
    dropped none i = same-Keeps s s h refl refl (omega arith) refl
    dropped (some e) i = dropped-Keeps s id e a h i
changed-Keeps (makes id t p) s h = made-Keeps s id t p h
changed-Keeps (deletes id) s h = deleted-Keeps s id h

Keeps-trans : (s v w : State) → Keeps s v → Keeps v w → Keeps s w
Keeps-trans s v w (a, b, c, d) (a', b', c', d') =
    (a' ∙ a, b' ∙ b, c', λ id g t h. d' id g t (d id g t h))

pub changed_all-Keeps : (cs : List Change) (s : State) → IsSound s → Keeps s (changed_all cs s)
unfolding changed_all
changed_all-Keeps [] s h = same-Keeps s s h refl refl (omega arith) refl
changed_all-Keeps (c ∷ cs) s h =
    let k = changed-Keeps c s h in
    Keeps-trans s (changed c s) (changed_all cs (changed c s)) k
      (changed_all-Keeps cs (changed c s) k.2)

pub drop_snap-Keeps : (id : Bytes) (a : Name) (s : State) → IsSound s → Keeps s (drop_snap id a s).1
drop_snap-Keeps id a s h = dropped (value_of id s.envs) refl
  where
    with_snap :
        (e : Env)
        → value_of id s.envs ≡ some e
        → (x : Option Taken) → Keeps s (dropped_from id a s (some e) x).1
    with_snap e i none = same-Keeps s s h refl refl (omega arith) refl
    with_snap e i (some x) = dropped-Keeps s id e a h i

    dropped :
        (o : Option Env) → value_of id s.envs ≡ o → Keeps s (dropped_from id a s o (found_in a o)).1
    dropped none i = same-Keeps s s h refl refl (omega arith) refl
    dropped (some e) i = with_snap e i (snap_at a e.snaps)

-- A name that no stream has yet, and a time that has been.
abbrev pub IsFresh : State → Bytes → ℕ → Type 0
IsFresh s id n = (n < s.now) × (stream_at id n s.bucket.streams ≡ none)

abbrev snapped_env : State → ℕ → Env → Env
snapped_env s n e = record e {
  generation = suc s.clock;
  snaps = (taken_at n, record { tree = e.tree; created = suc s.clock }) ∷ e.snaps;
}

abbrev snapped : State → Bytes → ℕ → Env → State
snapped s id n e = record (moved s) { envs = store id (snapped_env s n e) s.envs }

snapped-AreTaken :
    (s : State) (id : Bytes) (n : ℕ) (e : Env)
    → IsSound s
    → IsFresh s id n
    → value_of id s.envs ≡ some e
    → AreTaken (snapped s id n e) id (snapped_env s n e)
unfolding snap_at
snapped-AreTaken s id n e h (past, fresh) i k x l = elim (Bool-cases (k == n)) [
  | inl y ↦
      let f : some (record { tree = e.tree; created = suc s.clock }) ≡ some x = rw y at l in
      let same : record { tree = e.tree; created = suc s.clock } ≡ x = ground (arith, f) in
      let kn : k ≡ n = ground (arith, y) in
      subst (IsTaken (snapped s id n e) id (snapped_env s n e) k) same
        (omega arith, omega arith, λ _. refl, λ z o. absurd (unsent k kn z o))
  | inr m ↦
      let (p, q, r, u) = h.snaps id e k x i (rw m at l) in
      (p, omega arith, λ g. absurd (omega (arith, g, q)), u)
]
  where
    unsent : (k : ℕ) → k ≡ n → (z : SendStream) → stream_at id k s.bucket.streams ≡ some z → ⊥
    unsent k kn z o =
        let f : stream_at id n s.bucket.streams ≡ some z =
          subst (λ j. stream_at id j s.bucket.streams ≡ some z) kn o in
        ground (arith, f, fresh)

taken-Keeps :
    (s : State) (id : Bytes) (n : ℕ) (e : Env)
    → IsSound s
    → IsFresh s id n
    → value_of id s.envs ≡ some e
    → (o : Option Taken) → Keeps s (taken_of id n s e o).1
taken-Keeps s id n e h f i (some x) = same-Keeps s s h refl refl (omega arith) refl
taken-Keeps s id n e h f i none =
    let v = snapped s id n e in
    let b : Becomes s v id (snapped_env s n e) =
      λ k. value_of-store id k (snapped_env s n e) s.envs in
    (
      refl,
      refl,
      become-IsSound s v h refl (omega arith) (omega arith) id (snapped_env s n e) b (omega arith)
          (snapped-AreTaken s id n e h f i),
      become-IsCurrent s v h refl (omega arith) (omega arith) id (snapped_env s n e) b
          λ g u c k. absurd (omega (arith, c.0, k)),
    )

pub env_snapshot-Keeps :
    (id : Bytes) (n : ℕ) (s : State)
    → IsSound s
    → IsFresh s id n
    → Keeps s (env_snapshot id n s (value_of id s.envs)).1
env_snapshot-Keeps id n s h f = there (value_of id s.envs) refl
  where
    there : (o : Option Env) → value_of id s.envs ≡ o → Keeps s (env_snapshot id n s o).1
    there none i = same-Keeps s s h refl refl (omega arith) refl
    there (some e) i = taken-Keeps s id n e h f i (snap_at (taken_at n) e.snaps)
