-- ===== src/Backup/Once/Node.antt =====
-- The calls of a backup that are about the node: its snapshots and its clock.
use fern.Prelude.{
  ℕ, suc, ◌<◌, ◌≡◌, refl, inl, inr, Bool-cases, true, false, Option, Option-cases, none, some, List,
  [], ◌∷◌, Bytes, arith,
}
use fern.Sets.{value_of}
use fern.Backup.Bucket.{
  Name, taken_at, stray, kept, EnvBackup, Manifest, Bucket, State, Fate, done, stream_at,
}
use fern.Backup.Send.{
  generation_of, names_of, seen, names, delete_snap, drop_snap, leftovers, is_parent, take_snap,
  env_snapshot,
}
use fern.Backup.Once.Changes.{drop_snap-Keeps, env_snapshot-Keeps, IsFresh, same-Keeps}
use fern.Backup.Once.Ends.{IsManifest, Holds, After, result, After-bind, node-After}

module _ (ks : List (Bytes × EnvBackup)) (B : Bucket → ℕ → Type 0) (E : State → Type 0)
    (on_error : (v : State) → Holds ks B v → E v) (id : Bytes) where
  pub generation_of-After :
      (s : State) (fs : List Fate)
      → Holds ks B s
      → After (λ _ v. Holds ks B v) E (generation_of id s fs)
  unfolding generation_of
  generation_of-After s fs h =
      node-After (λ v. (seen (λ e. e.generation) (value_of id v.envs), v)) ks B E s fs h
        (λ v i. same-Keeps v v i.0 refl refl (omega arith) refl) on_error

  pub names_of-After :
      (s : State) (fs : List Fate) → Holds ks B s → After (λ _ v. Holds ks B v) E (names_of id s fs)
  unfolding names_of
  names_of-After s fs h =
      node-After (λ v. (seen (λ e. names e.snaps) (value_of id v.envs), v)) ks B E s fs h
        (λ v i. same-Keeps v v i.0 refl refl (omega arith) refl) on_error

  pub delete_snap-After :
      (a : Name) (s : State) (fs : List Fate)
      → Holds ks B s
      → After (λ _ v. Holds ks B v) E (delete_snap id a s fs)
  unfolding delete_snap
  delete_snap-After a s fs h =
      node-After (drop_snap id a) ks B E s fs h (λ v i. drop_snap-Keeps id a v i.0) on_error

  pub leftovers-After :
      (parent : Option ℕ) (left : List Name) (s : State) (fs : List Fate)
      → Holds ks B s
      → After (λ _ v. Holds ks B v) E (leftovers id parent left s fs)
  unfolding leftovers
  leftovers-After parent [] s fs h = result false s fs h
  leftovers-After parent (kept a ∷ rest) s fs h = leftovers-After parent rest s fs h
  leftovers-After parent (stray a ∷ rest) s fs h =
      After-bind (delete_snap id (stray a) s fs) (λ _. leftovers id parent rest)
        (delete_snap-After (stray a) s fs h) λ _ v gs i. leftovers-After parent rest v gs i
  leftovers-After parent (taken_at n ∷ rest) s fs h =
      elim (Bool-cases (is_parent (taken_at n) parent)) [
        | inl y ↦ rw y (
            After-bind (leftovers id parent rest s fs) (λ _ v gs. done true v gs)
              (leftovers-After parent rest s fs h) λ _ v gs i. result true v gs i)
        | inr y ↦ rw y (
            After-bind (delete_snap id (taken_at n) s fs) (λ _. leftovers id parent rest)
              (delete_snap-After (taken_at n) s fs h)
              λ _ v gs i. leftovers-After parent rest v gs i)
      ]

  -- The snapshot's time is not a stream's yet.
  pub take_snap-After :
      (n : ℕ) (s : State) (fs : List Fate)
      → ((b : Bucket) (now : ℕ) → B b now → (n < now) × (stream_at id n b.streams ≡ none))
      → Holds ks B s
      → After (λ _ v. Holds ks B v) E (take_snap id n s fs)
  unfolding take_snap
  take_snap-After n s fs fresh h =
      node-After (λ v. env_snapshot id n v (value_of id v.envs)) ks B E s fs h
        (λ v i. env_snapshot-Keeps id n v i.0 (fresh v.bucket v.now i.3)) on_error

abbrev next_time : State → State
next_time s = record s { now = suc s.now }

-- The clock is read: its time is not a stream's yet.
pub tick-Holds :
    (s : State) (ks : List (Bytes × EnvBackup)) (B C : Bucket → ℕ → Type 0) (id : Bytes)
    → (IsFresh (record s { now = suc s.now }) id s.now → B s.bucket s.now → C s.bucket (suc s.now))
    → Holds ks B s
    → Holds ks C (record s { now = suc s.now })
tick-Holds s ks B C id f (h, l, m, b) = (
  record {
    old = λ j n y i. omega (arith, h.old j n y i);
    past = h.past;
    snaps = λ j e n x i k. let (p, q, r, u) = h.snaps j e n x i k in (omega arith, q, r, u);
  },
  l,
  manifest s.bucket.manifest m,
  f (omega arith, fresh) b,
)
  where
    manifest : (o : Option Manifest) → IsManifest s o → IsManifest (next_time s) o
    manifest none i = tt
    manifest (some o) i = i

    fresh : stream_at id s.now s.bucket.streams ≡ none
    fresh = elim (Option-cases (stream_at id s.now s.bucket.streams)) [
      | inl n ↦ n
      | inr (y, i) ↦ absurd (omega (arith, h.old id s.now y i))
    ]
