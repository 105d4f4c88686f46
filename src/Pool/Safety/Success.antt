-- ===== src/Pool/Safety/Success.antt =====
-- A restore ends without an error when nothing goes wrong.
use fern.Prelude.{
  ℕ, ◌≡◌, refl, ap, ◌∙◌, true, ◌⊎◌, Option, none, some, List, [], ◌∷◌, Bytes, All, arith, inl, inr,
  ◌-◌,
}
use fern.Ids.{snap_id_pattern}
use fern.Pool.Disk.{
  Node, Place, workspace, live_new, snap, Disk, Row, World, Outcome, done, failed, ◌>>◌, save_disk,
  entry, node_at, cleared, died,
}
use fern.Pool.Snapshots.{
  lstat, snapshot_subvolume, swap, delete_subvolumes, copy_to, snapshot_at, replace_row,
  snapshots_before, prune_pre_restores, Clock, pre_restore, restore_to, restore_env, has_row,
  pre_restore_keep,
}
use fern.Pool.Calls.{result, error, crash, After, After-bind, After-weaken}
use fern.Pool.Safety.Deletes.{Kept, Bears, look-Kept, delete_subvolumes-Kept, remove_snapshots-Kept}
use fern.Pool.Safety.Calm.{
  Calm, Never, look-Calm, query-Calm, get_env-Calm, is_subvolume, Cleared, delete_subvolumes-Calm,
  remove_snapshots-Calm,
}
use fern.Pool.Safety.Steps.{copy}
use fern.Pool.Safety.Restore.{
  Replaced, Fresh, Copied, Saved, prune_pre_restores-Kept, snapshot_subvolume-Copied,
  snapshot_at-Saved, swap-Replaced, Fresh-live_new, Replaced-live_new,
}

-- What holds however the calls end, holds where they end without an error.
both {ℓ} :
    {A : Type ℓ} {Q R : A → World → Type 0} {S : World → Type 0} (o : Outcome A)
    → After Q S o
    → After R Never o
    → After (λ a v. Q a v × R a v) Never o
both (done a w) (result _ _ h) (result _ _ k) = result a w (h, k)
both (failed e w) h (error _ _ k) = elim k [ ]
both (died w) h (crash _ k) = elim k [ ]

abbrev pub Named : List Row → Type 0
Named rs = All (λ r. snap_id_pattern r.id ≡ true) rs

snapshots_before-Named :
    (before : ℕ) (keep : Bytes) (rs : List Row)
    → Named rs
    → All (λ id. snap_id_pattern id ≡ true) (snapshots_before before keep rs)
unfolding snapshots_before
snapshots_before-Named before keep [] h = tt
snapshots_before-Named before keep (r ∷ rs) h =
    ground (arith, snapshots_before-Named before keep rs h.1)

prune-Calm :
    (now : ℕ) (keep : Bytes) (w : World)
    → Calm w
    → Named w.rows
    → After (λ _ v. Calm v) Never (prune_pre_restores now keep w)
unfolding prune_pre_restores
prune-Calm now keep w c h =
    After-bind {Q = λ xs v. All (λ id. snap_id_pattern id ≡ true) xs × Calm v} _ _
      (look-Calm (λ w. snapshots_before (now - pre_restore_keep) keep w.rows) w c
        (snapshots_before-Named (now - pre_restore_keep) keep w.rows h, c))
      λ xs v k. remove_snapshots-Calm xs v k.0 k.1

-- Nothing stands at live.new, or a subvolume that a restore left.
abbrev pub Leftover : Disk → Type 0
Leftover d = (d.restored ≡ none) ⊎ (is_subvolume d.restored ≡ true)

All-any : (xs : List Bytes) → All (λ id. Bears Leftover (snap id)) xs
unfolding cleared
All-any [] = tt
All-any (x ∷ xs) = ((λ d h. h), All-any xs)

prune-Leftover :
    (now : ℕ) (keep : Bytes) (w : World)
    → Leftover w.disk
    → Kept Leftover (prune_pre_restores now keep w)
unfolding prune_pre_restores
prune-Leftover now keep w h =
    After-bind _ _
      (look-Kept Leftover (λ w. snapshots_before (now - pre_restore_keep) keep w.rows) w h)
      λ xs v k. remove_snapshots-Kept Leftover xs v (All-any xs) k

live_new-Cleared : (d e : Disk) → Leftover d → Cleared live_new d e → e.restored ≡ none
unfolding cleared node_at
live_new-Cleared d e (inl h) (inl k) = ground arith
live_new-Cleared d e (inl h) (inr k) = ground arith
live_new-Cleared d e (inr h) (inl k) = ground arith
live_new-Cleared d e (inr h) (inr k) = absurd (cc)

copy_to-Calm :
    (dst : Place) (s : Node) (m : Option Node) (d : Disk) (w : World)
    → Calm w
    → m ≡ none
    → s.subvolume ≡ true
    → After (λ _ v. Calm v) Never (copy_to dst (some s) m d w)
unfolding save_disk
copy_to-Calm dst s (some m) d w c e h = absurd (cc)
copy_to-Calm dst s none d w c e h = rw h (result tt _ c)

snapshot_subvolume-Calm :
    (src dst : Place) (s : Node) (w : World)
    → Calm w
    → node_at src w.disk ≡ some s
    → node_at dst w.disk ≡ none
    → s.subvolume ≡ true
    → After (λ _ v. Calm v) Never (snapshot_subvolume src dst w)
unfolding snapshot_subvolume
snapshot_subvolume-Calm src dst s w c e f h =
    After-bind {Q = λ d v. (d ≡ w.disk) × (v ≡ w)} _ _ (look-Calm (λ w. w.disk) w c (refl, refl))
      λ d v (q, r). rw (q, r, e) (copy_to-Calm dst s (node_at dst w.disk) w.disk w c f h)

swap-Calm :
    (a b : Node) (w : World)
    → Calm w
    → w.disk.restored ≡ some a
    → w.disk.live ≡ some b
    → After (λ _ v. Calm v × (v.disk.restored ≡ some b)) Never (swap w)
unfolding swap save_disk
swap-Calm a b w c e f =
    After-bind {Q = λ d v. (d ≡ w.disk) × (v ≡ w)} _ _ (look-Calm (λ w. w.disk) w c (refl, refl))
      λ d v (q, r). rw (q, r, e, f) (result tt _ (c, refl))

module _ (c : Clock) (id : Bytes) (old n : Node) (old_whole : old.subvolume ≡ true)
    (n_whole : n.subvolume ≡ true) where
  abbrev stamp : Bytes
  stamp = pre_restore c

  snapshot_at-Calm :
      (w : World)
      → Calm w
      → Copied id stamp old n w.disk
      → After (λ _ v. Calm v) Never (snapshot_at c.kept stamp w)
  unfolding snapshot_at lstat node_at
  snapshot_at-Calm w k h =
      After-bind {Q = λ m v. (m ≡ none) × (v ≡ w)} _ _
        (look-Calm (λ w. node_at (snap stamp) w.disk) w k (h.0.1, refl))
        λ m v (e, q).
          rw (e, q)
            (After-bind {Q = λ _ v. Calm v} _ _
              (snapshot_subvolume-Calm workspace (snap stamp) old w k h.0.0.0 h.0.1 old_whole)
              λ _ u j. query-Calm (replace_row c.kept stamp) u j)

  cleared_before :
      (w : World)
      → Calm w
      → Named w.rows
      → Fresh id stamp old n w.disk
      → Leftover w.disk
      → After
          (λ _ v. (Fresh id stamp old n v.disk × (v.disk.restored ≡ none)) × Calm v)
          Never
          ((prune_pre_restores c.started id >> delete_subvolumes (live_new ∷ [])) w)
  cleared_before w k names h l =
      After-bind {Q = λ _ v. Fresh id stamp old n v.disk × (Leftover v.disk × Calm v)} _ _
        (both _ (prune_pre_restores-Kept id stamp old n c.started w h)
          (both _ (prune-Leftover c.started id w l) (prune-Calm c.started id w k names)))
        λ _ v (f, (m, j)).
          After-weaken _ (λ _ u (g, (i, t)). ((g, live_new-Cleared v.disk u.disk m t), i))
            (λ u i. i)
            (both _
              (delete_subvolumes-Kept (Fresh id stamp old n) (live_new ∷ []) v
                (Fresh-live_new id stamp old n, tt) f)
              (delete_subvolumes-Calm live_new v j))

  restore_to-ends :
      (w : World)
      → Calm w
      → Named w.rows
      → Fresh id stamp old n w.disk
      → Leftover w.disk
      → After
          (λ _ v. Replaced id stamp old n v.disk × (v.disk.restored ≡ none))
          Never
          (restore_to c id w)
  unfolding restore_to node_at
  restore_to-ends w k names h l =
      After-bind
        {Q = λ _ v. Replaced id stamp old n v.disk × (Calm v × (v.disk.restored ≡ some old))} _ _
        (After-bind {Q = λ _ v. Saved id stamp old n v.disk × Calm v} _ _
          (After-bind {Q = λ _ v. Copied id stamp old n v.disk × Calm v} _ _
            (After-bind _ _ (cleared_before w k names h l) λ _ v ((f, g), j).
              both _ (snapshot_subvolume-Copied id stamp old n v f)
                (snapshot_subvolume-Calm (snap id) live_new n v j f.0.1 g n_whole))
            λ _ v (f, j).
              both _ (snapshot_at-Saved id stamp old n c.kept v f) (snapshot_at-Calm v j f))
          λ _ v (f, j).
            both _ (swap-Replaced id stamp old n v f) (swap-Calm (copy n) old v j f.2 f.0.0))
        λ _ v (f, (j, g)).
          After-weaken _
            (λ _ u (a, (b, t)).
              (a, live_new-Cleared v.disk u.disk (inr (ap is_subvolume g ∙ old_whole)) t))
            (λ u i. i)
            (both _
              (delete_subvolumes-Kept (Replaced id stamp old n) (live_new ∷ []) v
                (Replaced-live_new id stamp old n, tt) f)
              (delete_subvolumes-Calm live_new v j))

-- A restore in which no call fails and the daemon does not die, of a snapshot that has a row, a
-- valid ID and a subvolume on the disk, while the workspace is a subvolume, live.new is one or
-- free, the rows' IDs are valid and no snapshot has the pre-restore snapshot's name, ends without
-- an error: the workspace is a copy of the snapshot, the one before is kept as the pre-restore
-- snapshot, and nothing is left at live.new.
pub restore_env-Replaced :
    (c : Clock) (id : Bytes) (old n : Node) (w : World)
    → Calm w
    → Named w.rows
    → snap_id_pattern id ≡ true
    → has_row id w.rows ≡ true
    → (w.disk.live ≡ some old) × (old.subvolume ≡ true)
    → (entry id w.disk.snaps ≡ some n) × (n.subvolume ≡ true)
    → entry (pre_restore c) w.disk.snaps ≡ none
    → Leftover w.disk
    → After
        (λ _ v. Replaced id (pre_restore c) old n v.disk × (v.disk.restored ≡ none))
        Never
        (restore_env c id w)
unfolding restore_env
restore_env-Replaced c id old n w k names valid row (a, s) (b, t) f l = rw valid (
    After-bind {Q = λ there v. (there ≡ true) × (v ≡ w)} _ _
      (After-bind _ _ (get_env-Calm w k)
        λ _ v q. rw q (look-Calm (λ w. has_row id w.rows) w k (row, refl)))
      λ there v (e, q). rw (e, q) (restore_to-ends c id old n s t w k names ((a, b), f) l))
