-- ===== src/Pool/Safety/Restore.antt =====
-- A restore, at each of its steps: wherever it stops, no workspace is lost.
use fern.Prelude.{
  ℕ, ◌≡◌, refl, sym, ◌∙◌, subst, Bool, true, false, ◌⊎◌, Option, none, some, List, [], ◌∷◌, Bytes,
  if◌then◌else◌, equal, equal_iff, equal_refl, All, arith, inl, inr, ◌-◌,
}
use fern.Ids.{snap_id_pattern}
use fern.Pool.Disk.{
  Node, workspace, live_new, snap, Disk, bad_id, unknown, World, Outcome, fail, ◌>>=◌, ◌>>◌, look,
  entry, node_at, cleared, placed,
}
use fern.Pool.Snapshots.{
  lstat, snapshot_subvolume, swap, delete_subvolumes, get_env, kept_or_taken, snapshot_at,
  snapshots_before, prune_pre_restores, Clock, pre_restore, restore_to, restore_env, has_row,
  pre_restore_keep,
}
use fern.Pool.Calls.{error, After, After-bind, After-weaken, look-After}
use fern.Pool.Safety.Deletes.{
  Kept, Bears, look-Kept, query-Kept, get_env-Kept, delete_subvolumes-Kept, remove_snapshots-Kept,
}
use fern.Pool.Safety.Steps.{
  copy, entry-without_other, entry-without_none, snapshot_subvolume-After, exchange-After,
  snapshots_before-All,
}

module _ (id stamp : Bytes) (old n : Node) where
  abbrev pub Untouched : Disk → Type 0
  Untouched d = (d.live ≡ some old) × (entry id d.snaps ≡ some n)

  -- The workspace is a copy of the snapshot, and the one it replaced is kept as a snapshot.
  abbrev pub Replaced : Disk → Type 0
  Replaced d =
      (d.live ≡ some (copy n))
      × (entry id d.snaps ≡ some n)
      × (entry stamp d.snaps ≡ some (copy old))

  -- No workspace is lost.
  abbrev pub IsSafe : Disk → Type 0
  IsSafe d = Untouched d ⊎ Replaced d

  abbrev pub Fresh : Disk → Type 0
  Fresh d = Untouched d × (entry stamp d.snaps ≡ none)

  abbrev pub Copied : Disk → Type 0
  Copied d = Fresh d × (d.restored ≡ some (copy n))

  abbrev pub Saved : Disk → Type 0
  Saved d = Untouched d × (entry stamp d.snaps ≡ some (copy old)) × (d.restored ≡ some (copy n))

  Fresh-Bears : (x : Bytes) → equal id x ≡ false → Bears Fresh (snap x)
  unfolding cleared
  Fresh-Bears x e d ((a, b), c) =
      ((a, entry-without_other id x d.snaps e ∙ b), entry-without_none stamp x d.snaps c)

  All-Bears :
      (xs : List Bytes) → All (λ x. equal id x ≡ false) xs → All (λ x. Bears Fresh (snap x)) xs
  All-Bears [] h = tt
  All-Bears (x ∷ xs) h = (Fresh-Bears x h.0, All-Bears xs h.1)

  pub prune_pre_restores-Kept :
      (now : ℕ) (w : World) → Fresh w.disk → Kept Fresh (prune_pre_restores now id w)
  unfolding prune_pre_restores
  prune_pre_restores-Kept now w h =
      After-bind {Q = λ xs v. All (λ x. equal id x ≡ false) xs × Fresh v.disk} _ _
        (look-After (λ w. snapshots_before (now - pre_restore_keep) id w.rows) w
          (λ fs. (snapshots_before-All (now - pre_restore_keep) id w.rows, h)) λ fs. h)
        λ xs v k. remove_snapshots-Kept Fresh xs v (All-Bears xs k.0) k.1

  Fresh-names : (d : Disk) → Fresh d → equal id stamp ≡ false
  Fresh-names d ((a, b), c) = ground (arith, equal_iff id stamp)

  placed-Copied :
      (s : Node) (d v : Disk)
      → Fresh d
      → entry id d.snaps ≡ some s
      → v ≡ placed live_new (copy s) d
      → Copied v
  unfolding placed
  placed-Copied s d v h e q = ground arith

  placed-Saved :
      (s : Node) (d v : Disk)
      → Copied d
      → d.live ≡ some s
      → v ≡ placed (snap stamp) (copy s) d
      → Saved v
  unfolding placed entry
  placed-Saved s d v h e q = ground (arith, Fresh-names d h.0, equal_refl stamp)

  pub snapshot_subvolume-Copied :
      (w : World)
      → Fresh w.disk
      → After (λ _ v. Copied v.disk) (λ v. IsSafe v.disk) (snapshot_subvolume (snap id) live_new w)
  unfolding node_at
  snapshot_subvolume-Copied w h =
      After-weaken _ (λ _ v k. placed-Copied k.0 w.disk v.disk h k.1 k.2)
        (λ v k. inl (subst Untouched (sym k) h.0)) (snapshot_subvolume-After (snap id) live_new w)

  kept_or_taken-Saved :
      (created : ℕ) (m : Option Node) (w : World)
      → m ≡ none
      → Copied w.disk
      → After (λ _ v. Saved v.disk) (λ v. IsSafe v.disk) (kept_or_taken created stamp m w)
  unfolding node_at
  kept_or_taken-Saved created (some m) w e h = absurd (cc)
  kept_or_taken-Saved created none w e h =
      After-bind {Q = λ _ v. Saved v.disk} _ _
        (After-weaken _ (λ _ v k. placed-Saved k.0 w.disk v.disk h k.1 k.2)
          (λ v k. inl (subst Untouched (sym k) h.0.0))
          (snapshot_subvolume-After workspace (snap stamp) w))
        λ _ v k. After-weaken _ (λ _ u j. j) (λ u j. inl j.0) (query-Kept Saved _ v k)

  pub snapshot_at-Saved :
      (created : ℕ) (w : World)
      → Copied w.disk
      → After (λ _ v. Saved v.disk) (λ v. IsSafe v.disk) (snapshot_at created stamp w)
  unfolding snapshot_at lstat node_at
  snapshot_at-Saved created w h =
      After-bind {Q = λ m v. (m ≡ none) × Copied v.disk} _ _
        (look-After (λ w. node_at (snap stamp) w.disk) w (λ fs. (h.0.1, h)) λ fs. inl h.0.0)
        λ m v k. kept_or_taken-Saved created m v k.0 k.1

  exchanged :
      (d v : Disk) → Saved d → v ≡ record d { live = d.restored; restored = d.live } → Replaced v
  exchanged d v h q = ground arith

  pub swap-Replaced :
      (w : World) → Saved w.disk → After (λ _ v. Replaced v.disk) (λ v. IsSafe v.disk) (swap w)
  unfolding swap
  swap-Replaced w h =
      After-bind {Q = λ d v. Saved d × (v.disk ≡ d)} _ _
        (look-After (λ w. w.disk) w (λ fs. (h, refl)) λ fs. inl h.0)
        λ d v k.
          After-weaken _ (λ _ u j. exchanged d u.disk k.0 j)
            (λ u j. inl (subst Untouched (sym (j ∙ k.1)) k.0.0))
            (exchange-After d.restored d.live d v)

  pub Fresh-live_new : Bears Fresh live_new
  unfolding cleared
  Fresh-live_new d h = h

  pub Replaced-live_new : Bears Replaced live_new
  unfolding cleared
  Replaced-live_new d h = h

  copied :
      (c : Clock) (w : World)
      → Fresh w.disk
      → After
          (λ _ v. Copied v.disk)
          (λ v. IsSafe v.disk)
          ((prune_pre_restores c.started id
              >> delete_subvolumes (live_new ∷ [])
              >> snapshot_subvolume (snap id) live_new)
            w)
  copied c w h =
      After-bind {Q = λ _ v. Fresh v.disk} _ _
        (After-weaken _ (λ _ v k. k) (λ v k. inl k.0)
          (After-bind {Q = λ _ v. Fresh v.disk} _ _ (prune_pre_restores-Kept c.started w h)
            λ _ v k. delete_subvolumes-Kept Fresh (live_new ∷ []) v (Fresh-live_new, tt) k))
        λ _ v k. snapshot_subvolume-Copied v k

  restore_to-IsSafe :
      (c : Clock) (w : World)
      → pre_restore c ≡ stamp
      → Fresh w.disk
      → After (λ _ v. Replaced v.disk) (λ v. IsSafe v.disk) (restore_to c id w)
  unfolding restore_to
  restore_to-IsSafe c w e h =
      After-bind {Q = λ _ v. Replaced v.disk} _ _
        (After-bind {Q = λ _ v. Saved v.disk} _ _
          (After-bind {Q = λ _ v. Copied v.disk} _ _ (copied c w h)
            λ _ v k. rw e (snapshot_at-Saved c.kept v k))
          λ _ v k. swap-Replaced v k)
        λ _ v k.
          After-weaken _ (λ _ u j. j) (λ u j. inr j)
            (delete_subvolumes-Kept Replaced (live_new ∷ []) v (Replaced-live_new, tt) k)

-- A restore of a snapshot that is on the disk, at a time whose pre-restore snapshot is not: if it
-- ends without an error, the workspace is a copy of the snapshot, and the workspace before it is
-- kept as the pre-restore snapshot; wherever it fails or the daemon dies, either that holds
-- or the workspace is still the one before. The snapshot is there in each case.
pub restore_env-IsSafe :
    (c : Clock) (id : Bytes) (old n : Node) (w : World)
    → w.disk.live ≡ some old
    → entry id w.disk.snaps ≡ some n
    → entry (pre_restore c) w.disk.snaps ≡ none
    → After
        (λ _ v. Replaced id (pre_restore c) old n v.disk)
        (λ v. IsSafe id (pre_restore c) old n v.disk)
        (restore_env c id w)
unfolding restore_env
restore_env-IsSafe c id old n w a b f = named (snap_id_pattern id)
  where
    Ends : Outcome (Unit {0}) → Type 0
    Ends =
        After (λ _ v. Replaced id (pre_restore c) old n v.disk)
          (λ v. IsSafe id (pre_restore c) old n v.disk)

    listed :
        (there : Bool) (v : World)
        → Fresh id (pre_restore c) old n v.disk
        → Ends ((if there then restore_to c id else fail unknown) v)
    listed true v k = restore_to-IsSafe id (pre_restore c) old n c v refl k
    listed false v k = error unknown v (inl k.0)

    named :
        (ok : Bool)
        → Ends (
            (if ok
                then (get_env >> look (λ w. has_row id w.rows) >>= λ there.
                    if there then restore_to c id else fail unknown)
                else fail bad_id)
              w)
    named false = error bad_id w (inl (a, b))
    named true =
        After-bind {Q = λ _ v. Fresh id (pre_restore c) old n v.disk} _ _
          (After-weaken _ (λ _ v k. k) (λ v k. inl k.0)
            (After-bind {Q = λ _ v. Fresh id (pre_restore c) old n v.disk} _ _
              (get_env-Kept (Fresh id (pre_restore c) old n) w ((a, b), f))
              λ _ v k. look-Kept (Fresh id (pre_restore c) old n) (λ w. has_row id w.rows) v k))
          λ there v k. listed there v k
