-- ===== src/Backup/Restore/History.antt =====
-- Restoring after any history of a node: what others do, and backups whose calls fail or that die.
use fern.Prelude.{
  ℕ, ◌≡◌, refl, sym, ap, ◌∙◌, subst, inl, inr, Bool, Bool-cases, true, false, ◌||◌, Option, none,
  some, List, [], ◌∷◌, Bytes, if◌then◌else◌, equal, equal_iff, arith,
}
use fern.Sets.{value_of}
use fern.Backup.Bucket.{
  Env, EnvBackup, Manifest, State, Change, changed, Fate, Outcome, done, failed, died, stream_at,
}
use fern.Backup.Once.{manifest_or_empty, once, has_number}
use fern.Backup.Once.Changes.{changed-Keeps}
use fern.Backup.Once.Ends.{
  HasArchive, AreBackups, IsManifest, Holds-Keeps, Kept, IsSafe, After, result, error, crash,
}
use fern.Backup.Once.Whole.{once-After}
use fern.Backup.Restore.{
  no_backup_there, outside, Placed, halted, placed, Restored, stops, restored, each_workspace,
  with_state, restore_from, restore_pool,
}
use fern.Backup.Restore.Sound.{
  AreRestored, has_outside, Places, all_placed, not_local, each_workspace-Places,
}

-- Where a backup ends, or dies.
abbrev pub left_by : {A : Type 0} → Outcome A → State
left_by (done a s fs) = s
left_by (failed s fs) = s
left_by (died s) = s

abbrev pub ended_well : {A : Type 0} → Outcome A → Bool
ended_well (done a s fs) = true
ended_well (failed s fs) = false
ended_well (died s) = false

abbrev pub new_node : ℕ → ℕ → State
new_node clock now = record {
  bucket = record { manifest = none; archives = []; streams = []; others = [] };
  envs = [];
  clock = clock;
  now = now;
}

-- What a node comes to, and whether a backup of it has ended without an error.
pub data Reached : Bool → State → Type 0 where
  first : (clock now : ℕ) → Reached false (new_node clock now)
  change :
      {backed : Bool} {s : State} (c : Change) → Reached backed s → Reached backed (changed c s)
  backup :
      {backed : Bool} {s : State} (fs : List Fate)
      → Reached backed s
      → Reached (backed || ended_well (once s fs)) (left_by (once s fs))

new_node-IsSafe : (clock now : ℕ) → IsSafe false (new_node clock now)
unfolding value_of stream_at
new_node-IsSafe clock now = (
  record {
    old = λ i n y h. absurd (ground (arith, h));
    past = λ i e h. absurd (ground (arith, h));
    snaps = λ i e n x h k. absurd (ground (arith, h));
  },
  tt,
  tt,
  λ e. absurd (ground (arith, e)),
)

ended-IsSafe :
    (backed : Bool) (o : Outcome (Unit {0}))
    → After (λ _ v. IsSafe true v) (IsSafe backed) o
    → IsSafe (backed || ended_well o) (left_by o)
ended-IsSafe true (done a s fs) (result _ _ _ h) = h
ended-IsSafe false (done a s fs) (result _ _ _ h) = h
ended-IsSafe true (failed s fs) (error _ _ h) = h
ended-IsSafe false (failed s fs) (error _ _ h) = h
ended-IsSafe true (died s) (crash _ h) = h
ended-IsSafe false (died s) (crash _ h) = h

Reached-IsSafe : (backed : Bool) (s : State) → Reached backed s → IsSafe backed s
Reached-IsSafe _ _ (first clock now) = new_node-IsSafe clock now
Reached-IsSafe backed _ (change {s = s} c r) =
    let h = Reached-IsSafe backed s r in
    Holds-Keeps s (changed c s) [] (Kept backed) (changed-Keeps c s h.0) h
Reached-IsSafe _ _ (backup {backed = b} {s = s} fs r) =
    ended-IsSafe b (once s fs) (once-After b s fs (Reached-IsSafe b s r))

abbrev pub workspaces : List (Bytes × EnvBackup) → List (Bytes × Bytes)
workspaces [] = []
workspaces ((id, eb) ∷ es) = (id, eb.workspace) ∷ workspaces es

abbrev pub places : List (Bytes × Bytes × ℕ) → List (Bytes × Bytes)
places [] = []
places ((id, path, t) ∷ ws) = (id, path) ∷ places ws

AreRestored-places :
    (s : State) (ws : List (Bytes × Bytes × ℕ)) (es : List (Bytes × EnvBackup))
    → AreRestored s ws es
    → places ws ≡ workspaces es
AreRestored-places s [] [] h = refl
AreRestored-places s [] (e ∷ es) h = absurd h
AreRestored-places s (w ∷ ws) [] h = absurd h
AreRestored-places s ((i, p, t) ∷ ws) ((id, eb) ∷ es) (a, b, c, h) =
    rw (a, b, AreRestored-places s ws es h) refl

-- Where an environment's workspace is, and its files.
abbrev pub placed_for : Bytes → List (Bytes × Bytes × ℕ) → Option (Bytes × ℕ)
placed_for id [] = none
placed_for id ((i, path, t) ∷ ws) = if equal id i then some (path, t) else placed_for id ws

AreRestored-current :
    (s : State) (ws : List (Bytes × Bytes × ℕ)) (es : List (Bytes × EnvBackup)) (id : Bytes)
    (eb : EnvBackup) (e : Env)
    → AreRestored s ws es
    → value_of id es ≡ some eb
    → value_of id s.envs ≡ some e
    → e.generation ≡ eb.generation
    → placed_for id ws ≡ some (eb.workspace, e.tree)
unfolding value_of
AreRestored-current s [] [] id eb e h i j g = absurd (ground (arith, i))
AreRestored-current s [] (x ∷ es) id eb e h i j g = absurd h
AreRestored-current s (w ∷ ws) [] id eb e h i j g = absurd h
AreRestored-current s ((k, p, t) ∷ ws) ((k', eb') ∷ es) id eb e (a, b, (_, c), h) i j g =
    elim (Bool-cases (equal id k')) [
      | inl y ↦
          let same : some eb' ≡ some eb = rw y at i in
          let eb_same : eb' ≡ eb = ground (arith, same) in
          let there : value_of k' s.envs ≡ some e =
            subst (λ k. value_of k s.envs ≡ some e) ((equal_iff id k').0 y) j in
          let tree : e.tree ≡ t = c e there (g ∙ sym (ap (λ b. b.generation) eb_same)) in
          rw (a, y, b, eb_same, tree) refl
      | inr n ↦ rw (a, n) (AreRestored-current s ws es id eb e h (rw n at i) j g)
    ]

-- What the restore of a bucket gives: that there is no backup, before the first one has ended well; or
-- that a workspace of the manifest is not in the pool; or the manifest's workspaces and its archive.
pub data Gives (is_local : Bytes → Bool) (backed : Bool) (s : State) : Restored → Type 0 where
  none_yet : backed ≡ false → Gives is_local backed s (stops no_backup_there)
  outside_of :
      (m : Manifest) (id : Bytes)
      → s.bucket.manifest ≡ some m
      → has_outside is_local id m.envs ≡ true
      → Gives is_local backed s (stops (outside id))
  whole :
      (m : Manifest) (n : ℕ) (ws : List (Bytes × Bytes × ℕ))
      → s.bucket.manifest ≡ some m
      → m.archive ≡ some n
      → places ws ≡ workspaces m.envs
      → Gives is_local backed s (restored ws n)

placed-Gives :
    (is_local : Bytes → Bool) (backed : Bool) (s : State) (m : Manifest) (n : ℕ) (p : Placed)
    → s.bucket.manifest ≡ some m
    → m.archive ≡ some n
    → Places is_local s m.envs p
    → Gives is_local backed s (with_state is_local n true p)
placed-Gives is_local backed s m n (placed ws) i a (all_placed _ h) =
    whole m n ws i a (AreRestored-places s ws m.envs h)
placed-Gives is_local backed s m n (halted e) i a (not_local id h) = outside_of m id i h

-- After any history, whatever failed and wherever the daemon died, a restore into an empty pool gives
-- all of the manifest's workspaces, at their paths, and its archive, unless it finds one of those paths
-- to be out of the pool; it says that there is no backup only as long as no backup has ended without
-- an error.
pub restore_pool-Reached :
    (is_local : Bytes → Bool) (backed : Bool) (s : State)
    → Reached backed s
    → Gives is_local backed s (restore_pool is_local false s.bucket)
unfolding restore_pool
restore_pool-Reached is_local backed s r = given s.bucket.manifest refl
  where
    safe : IsSafe backed s
    safe = Reached-IsSafe backed s r

    not_yet : (backed ≡ true → ⊥) → backed ≡ false
    not_yet n = elim (Bool-cases backed) [ inl y ↦ absurd (n y) | inr z ↦ z ]

    archived :
        (m : Manifest) (a : Option ℕ)
        → s.bucket.manifest ≡ some m
        → m.archive ≡ a
        → AreBackups s m.envs
        → HasArchive s.bucket a
        → Gives is_local backed s (restore_from is_local s.bucket m a)
    archived m none i e h k =
        none_yet (not_yet λ q. let (o, n, j, k) = safe.3 q in ground (arith, i, j, e, k))
    archived m (some n) i e h k = rw k (
        placed-Gives is_local backed s m n (each_workspace is_local s.bucket m.envs) i e
          (each_workspace-Places is_local s m.envs h))

    given :
        (o : Option Manifest)
        → s.bucket.manifest ≡ o
        → Gives is_local backed s
            (restore_from is_local s.bucket (manifest_or_empty o) (manifest_or_empty o).archive)
    given none i = none_yet (not_yet λ q. let (m, n, j, k) = safe.3 q in ground (arith, i, j))
    given (some m) i =
        let (h, k) : IsManifest s (some m) = subst (IsManifest s) i safe.2 in
        archived m m.archive i refl h k

-- After any history, in what a restore gives: a workspace whose generation still is that of the
-- manifest's backup of it is at that backup's path, with just the files that it has now.
pub restored_current :
    (is_local : Bytes → Bool) (backed : Bool) (s : State) (m : Manifest) (id : Bytes)
    (eb : EnvBackup) (e : Env) (ws : List (Bytes × Bytes × ℕ)) (n : ℕ)
    → Reached backed s
    → s.bucket.manifest ≡ some m
    → value_of id m.envs ≡ some eb
    → value_of id s.envs ≡ some e
    → e.generation ≡ eb.generation
    → restore_pool is_local false s.bucket ≡ restored ws n
    → placed_for id ws ≡ some (eb.workspace, e.tree)
unfolding restore_pool
restored_current is_local backed s m id eb e ws n r i j k g h = archived m.archive (
    subst
      (λ o.
        restore_from is_local s.bucket (manifest_or_empty o) (manifest_or_empty o).archive
        ≡ restored ws n)
      i h)
  where
    from :
        (p : Placed) (q : ℕ) (b : Bool)
        → Places is_local s m.envs p
        → with_state is_local q b p ≡ restored ws n
        → placed_for id ws ≡ some (eb.workspace, e.tree)
    from (placed vs) q true (all_placed _ x) f =
        subst (λ vs. placed_for id vs ≡ some (eb.workspace, e.tree)) (ground (arith, f))
          (AreRestored-current s vs m.envs id eb e x j k g)
    from (placed vs) q false x f = absurd (ground (arith, f))
    from (halted t) q b x f = absurd (ground (arith, f))

    archived :
        (a : Option ℕ)
        → restore_from is_local s.bucket m a ≡ restored ws n
        → placed_for id ws ≡ some (eb.workspace, e.tree)
    archived none f = absurd (ground (arith, f))
    archived (some q) f =
        from (each_workspace is_local s.bucket m.envs) q (has_number q s.bucket.archives)
          (each_workspace-Places is_local s m.envs
            (subst (IsManifest s) i (Reached-IsSafe backed s r).2).0)
          f
