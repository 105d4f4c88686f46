-- ===== src/Backup/Once/Manifests.antt =====
-- The manifest as the environments are backed up (save, and the loop of Once, of
-- internal/backup/backup.go), wherever the calls end.
use fern.Prelude.{
  ℕ, ◌≡◌, refl, sym, subst, ◌⊎◌, inl, inr, Bool, Bool-cases, true, false, Option, none, some, List,
  [], ◌∷◌, Bytes, equal, equal_iff, arith,
}
use fern.Sets.{value_of, store, listed}
use fern.Ids.{is_builder}
use fern.Backup.Bucket.{EnvBackup, Manifest, Bucket, State, Fate, done, Io, try, go_on}
use fern.Backup.Send.{env_backup}
use fern.Backup.Once.{backup_of, with_backup, save, after_env, each_env, only_live}
use fern.Backup.Once.Sound.{IsBackup}
use fern.Backup.Once.Ends.{
  HasArchive, AreBackups, Holds, Holds-weaken, IsSafe, After, result, After-bind, After-caught,
  call-After, Archived,
}
use fern.Backup.Once.Workspace.{env_backup-After}

value_of-IsBackup :
    (id : Bytes) (es : List (Bytes × EnvBackup)) (v : State)
    → AreBackups v es
    → ((backup_of (value_of id es)).chain ≡ []) ⊎ IsBackup v id (backup_of (value_of id es))
unfolding value_of
value_of-IsBackup id [] v h = inl refl
value_of-IsBackup id ((i, eb) ∷ es) v (h, k) = elim (Bool-cases (equal id i)) [
  | inl y ↦ rw y (inr (subst (λ i. IsBackup v i eb) (sym ((equal_iff id i).0 y)) h))
  | inr n ↦ rw n (value_of-IsBackup id es v k)
]

store-AreBackups :
    (id : Bytes) (eb : EnvBackup) (es : List (Bytes × EnvBackup)) (v : State)
    → IsBackup v id eb
    → AreBackups v es
    → AreBackups v (store id eb es)
unfolding store
store-AreBackups id eb [] v h k = (h, tt)
store-AreBackups id eb ((i, e) ∷ es) v h (k, l) = elim (Bool-cases (equal id i)) [
  | inl y ↦ rw y (h, l)
  | inr n ↦ rw n (k, store-AreBackups id eb es v h l)
]

pub only_live-AreBackups :
    (live : List Bytes) (es : List (Bytes × EnvBackup)) (v : State)
    → AreBackups v es
    → AreBackups v (only_live live es)
unfolding only_live
only_live-AreBackups live [] v h = tt
only_live-AreBackups live ((i, eb) ∷ es) v (h, k) = elim (Bool-cases (listed i live)) [
  | inl y ↦ rw y (h, only_live-AreBackups live es v k)
  | inr n ↦ rw n (only_live-AreBackups live es v k)
]

module _ (backed : Bool) where
  -- The bucket's manifest is `m`, and its archive is there.
  abbrev pub Saved : Manifest → Bucket → ℕ → Type 0
  Saved m b now =
      (b.manifest ≡ some m)
      × HasArchive b m.archive
      × (backed ≡ true → (n : ℕ) × (m.archive ≡ some n))

  pub Saved-Archived :
      (m : Manifest) (b : Bucket) (now : ℕ) → Saved m b now → Archived backed m.archive b now
  Saved-Archived m b now (e, a, f) = (a, λ q. let (n, g) = f q in (m, n, e, g), f)

  abbrev pub Good : Manifest → State → Type 0
  Good m s = Holds m.envs (Archived backed m.archive) s

  pub Good-IsSafe : (s : State) (m : Manifest) → Good m s → IsSafe backed s
  Good-IsSafe s m (h, l, o, b) = (h, tt, o, b.1)

  pub Saved-IsSafe :
      (s : State) (m : Manifest) (es : List (Bytes × EnvBackup))
      → Holds es (Saved m) s
      → IsSafe backed s
  Saved-IsSafe s m es (h, l, o, b) = (h, tt, o, (Saved-Archived m s.bucket s.now b).1)

  pub save-After :
      (m : Manifest) (s : State) (fs : List Fate)
      → Good m s
      → After (λ _ v. Holds m.envs (Saved m) v) (IsSafe backed) (save m s fs)
  unfolding save
  save-After m s fs h =
      call-After (λ v. (tt, record v { bucket = record v.bucket { manifest = some m } })) m.envs
        (Archived backed m.archive) s fs h
        λ v i.
          let j : Holds m.envs (Saved m)
              (record v { bucket = record v.bucket { manifest = some m } }) =
            (
              record { old = i.0.old; past = i.0.past; snaps = i.0.snaps },
              i.1,
              (i.1, i.3.0),
              (refl, i.3.0, i.3.2),
            ) in
          (
            Good-IsSafe v m i,
            Saved-IsSafe (record v { bucket = record v.bucket { manifest = some m } }) m m.envs j,
            j,
          )

  with_backup-Good :
      (m : Manifest) (id : Bytes) (eb : EnvBackup) (v : State)
      → Holds ((id, eb) ∷ m.envs) (Archived backed m.archive) v
      → Good (with_backup id eb m) v
  with_backup-Good m id eb v (h, (k, l), o, b) = (h, store-AreBackups id eb m.envs v k l, o, b)

  -- One environment, and then the rest.
  next-After :
      (id : Bytes) (path : Option Bytes) (m : Manifest) (next : Manifest → Io (Manifest × Bool))
      → ((m : Manifest) (s : State) (fs : List Fate)
          → Good m s
          → After (λ r v. Good r.0 v) (IsSafe backed) (next m s fs))
      → (s : State) (fs : List Fate) → Good m s
      → After
          (λ r v. Good r.0 v)
          (IsSafe backed)
          (go_on
            (try (env_backup id path (backup_of (value_of id m.envs))) s fs)
            (after_env id m next))
  next-After id path m next rest s fs h =
      After-bind {Q = Tried} (try (env_backup id path eb) s fs) (after_env id m next)
        (After-caught (env_backup id path eb s fs)
          (env_backup-After backed m.envs m.archive id path eb
            (λ v k. value_of-IsBackup id m.envs v k) s fs h)
          (λ e v i. (
            λ f. absurd (ground (arith, f)),
            λ e' f.
                subst (λ e. Good (with_backup id e m) v) (ground (arith, f))
                  (with_backup-Good m id e v i),
          ))
          (λ v i. (λ _. i, λ e f. absurd (ground (arith, f)))) (λ v i. Good-IsSafe v m i))
        after
    where
      eb : EnvBackup
      eb = backup_of (value_of id m.envs)

      Tried : Option EnvBackup → State → Type 0
      Tried o v =
          (o ≡ none → Good m v) × ((e : EnvBackup) → o ≡ some e → Good (with_backup id e m) v)

      after :
          (o : Option EnvBackup) (v : State) (gs : List Fate)
          → Tried o v
          → After (λ r v. Good r.0 v) (IsSafe backed) (after_env id m next o v gs)
      after none v gs (f, g) =
          After-bind (next m v gs) (λ r w hs. done (r.0, true) w hs) (rest m v gs (f refl))
            λ r w hs i. result (r.0, true) w hs i
      after (some e) v gs (f, g) =
          After-bind (save (with_backup id e m) v gs) (λ _. next (with_backup id e m))
            (save-After (with_backup id e m) v gs (g e refl))
            λ _ w hs i. rest (with_backup id e m) w hs (
              Holds-weaken w (with_backup id e m).envs (Saved (with_backup id e m))
                (Archived backed m.archive) (Saved-Archived (with_backup id e m) w.bucket w.now) i)

  pub each_env-After :
      (es : List (Bytes × Option Bytes)) (m : Manifest) (s : State) (fs : List Fate)
      → Good m s
      → After (λ r v. Good r.0 v) (IsSafe backed) (each_env es m s fs)
  unfolding each_env
  each_env-After [] m s fs h = result (m, false) s fs h
  each_env-After ((id, path) ∷ es) m s fs h = elim (Bool-cases (is_builder id)) [
    | inl y ↦ rw y (each_env-After es m s fs h)
    | inr y ↦ rw y (next-After id path m (each_env es) (λ m s fs. each_env-After es m s fs) s fs h)
  ]
