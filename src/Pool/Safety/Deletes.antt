-- ===== src/Pool/Safety/Deletes.antt =====
-- What the deletions of a store's changes leave as it was.
use fern.Prelude.{
  Bool, true, false, Option, none, some, List, [], ◌∷◌, ◌++◌, Bytes, if◌then◌else◌, is_empty, All,
  All-append, inl, inr, Bool-cases,
}
use fern.Ids.{snap_id_pattern}
use fern.Pool.Disk.{
  Node, Place, snap, Disk, Row, no_entry, bad_id, unknown, io, Fate, goes, fails, dies, World,
  Outcome, give, fail, look, save_disk, save_rows, node_at, cleared,
}
use fern.Pool.Snapshots.{
  lstat, delete_subvolume, delete_each, clear_where, delete_recursive, removed, delete_subvolumes,
  query, get_env, remove_snapshot, remove_snapshots, unlink, delete_found,
}
use fern.Pool.Calls.{result, error, crash, After, After-bind, look-After}

module _ (P : Disk → Type 0) where
  -- However the calls end, `P` holds of the disk.
  abbrev pub Kept {ℓ} : {A : Type ℓ} → Outcome A → Type ℓ
  Kept = After (λ _ v. P v.disk) (λ v. P v.disk)

  -- `P` does not mind the loss of what stands at a path.
  abbrev pub Bears : Place → Type 0
  Bears p = (d : Disk) → P d → P (cleared p d)

  pub look-Kept {ℓ} : {A : Type ℓ} (f : World → A) (w : World) → P w.disk → Kept (look f w)
  look-Kept f w h = look-After f w (λ fs. h) λ fs. h

  pub query-Kept : (f : List Row → List Row) (w : World) → P w.disk → Kept (query f w)
  unfolding query save_rows
  query-Kept f w h = After-bind _ _ (look-Kept (λ w. w.rows) w h) λ rs v k. result tt _ k

  pub get_env-Kept : (w : World) → P w.disk → Kept (get_env w)
  unfolding get_env
  get_env-Kept w h = After-bind _ _ (look-Kept (λ w. w.known) w h) λ known v k. found known v k
    where
      found : (b : Bool) (v : World) → P v.disk → Kept {0} ((if b then give tt else fail unknown) v)
      found true v k = result tt _ k
      found false v k = error unknown _ k

  unlink-Kept :
      (p : Place) (n : Option Node) (d : Disk) (w : World)
      → Bears p
      → P d
      → P w.disk
      → Kept (unlink p n d w)
  unfolding save_disk
  unlink-Kept p none d w b h k = error no_entry _ k
  unlink-Kept p (some n) d w b h k = elim (Bool-cases n.nested) [
    | inl t ↦ rw t (result true _ k)
    | inr f ↦ rw f (result false _ (b d h))
  ]

  delete_subvolume-Kept : (p : Place) (w : World) → Bears p → P w.disk → Kept (delete_subvolume p w)
  unfolding delete_subvolume
  delete_subvolume-Kept p w b h =
      After-bind {Q = λ d v. P d × P v.disk} _ _ (look-After (λ w. w.disk) w (λ fs. (h, h)) λ fs. h)
        λ d v k. unlink-Kept p (node_at p d) d v b k.0 k.1

  delete_found-Kept :
      (n : Option Node) (p : Place) (w : World) → Bears p → P w.disk → Kept (delete_found n p w)
  delete_found-Kept none p w b h = result false _ h
  delete_found-Kept (some n) p w b h = elim (Bool-cases n.subvolume) [
    | inl t ↦ rw t (delete_subvolume-Kept p w b h)
    | inr f ↦ rw f (result false _ h)
  ]

  nested_on :
      (left : Bool) (p : Place) (nested : List Place)
      → Bears p
      → All Bears nested
      → All Bears (if left then nested ++ p ∷ [] else nested)
  nested_on true p nested b h = All-append Bears nested (p ∷ []) h (b, tt)
  nested_on false p nested b h = h

  -- What is left for the second try is among what was given.
  delete_each-Kept :
      (ps nested : List Place) (w : World)
      → All Bears ps
      → All Bears nested
      → P w.disk
      → After (λ left v. All Bears left × P v.disk) (λ v. P v.disk) (delete_each ps nested w)
  unfolding delete_each lstat
  delete_each-Kept [] nested w b c h = result nested _ (c, h)
  delete_each-Kept (p ∷ ps) nested w b c h =
      After-bind _ _ (look-Kept (λ w. node_at p w.disk) w h) λ n u j.
        After-bind _ _ (delete_found-Kept n p u b.0 j)
          λ left v k. delete_each-Kept ps _ v b.1 (nested_on left p nested b.0 c) k

  clear_where-Kept :
      (gone : Place → Bool) (ps : List Place) (d : Disk)
      → All Bears ps
      → P d
      → P (clear_where gone ps d)
  unfolding clear_where
  clear_where-Kept gone [] d b h = h
  clear_where-Kept gone (p ∷ ps) d b h = elim (Bool-cases (gone p)) [
    | inl t ↦ rw t (clear_where-Kept gone ps (cleared p d) b.1 (b.0 d h))
    | inr f ↦ rw f (clear_where-Kept gone ps d b.1 h)
  ]

  delete_recursive-Kept :
      (ps : List Place) (w : World) → All Bears ps → P w.disk → Kept (delete_recursive ps w)
  unfolding delete_recursive save_disk
  delete_recursive-Kept ps w b h = runs w.fates
    where
      runs : (fs : List Fate) → Kept {0} (removed ps w fs)
      runs [] = result tt _ (clear_where-Kept _ ps w.disk b h)
      runs (goes ∷ fs) = result tt _ (clear_where-Kept _ ps w.disk b h)
      runs (fails gone e ∷ fs) = error (io e) _ (clear_where-Kept gone ps w.disk b h)
      runs (dies gone ∷ fs) = crash _ (clear_where-Kept gone ps w.disk b h)

  pub delete_subvolumes-Kept :
      (ps : List Place) (w : World) → All Bears ps → P w.disk → Kept (delete_subvolumes ps w)
  unfolding delete_subvolumes
  delete_subvolumes-Kept ps w b h =
      After-bind _ _ (delete_each-Kept ps [] w b tt h) λ left v k. second left v k.0 k.1
    where
      second :
          (left : List Place) (v : World)
          → All Bears left
          → P v.disk
          → Kept {0} ((if is_empty left then give tt else delete_recursive left) v)
      second [] v c k = result tt _ k
      second (p ∷ ps) v c k = delete_recursive-Kept (p ∷ ps) v c k

  pub remove_snapshot-Kept :
      (id : Bytes) (w : World) → Bears (snap id) → P w.disk → Kept (remove_snapshot id w)
  unfolding remove_snapshot
  remove_snapshot-Kept id w b h = elim (Bool-cases (snap_id_pattern id)) [
    | inl t ↦ rw t (
        After-bind {Q = λ _ v. P v.disk} _ _
          (After-bind {Q = λ _ v. P v.disk} _ _ (get_env-Kept w h)
            λ _ v k. delete_subvolumes-Kept (snap id ∷ []) v (b, tt) k)
          λ _ v k. query-Kept _ v k)
    | inr f ↦ rw f (error bad_id _ h)
  ]

  pub remove_snapshots-Kept :
      (ids : List Bytes) (w : World)
      → All (λ id. Bears (snap id)) ids
      → P w.disk
      → Kept (remove_snapshots ids w)
  unfolding remove_snapshots
  remove_snapshots-Kept [] w b h = result tt _ h
  remove_snapshots-Kept (id ∷ ids) w b h =
      After-bind _ _ (remove_snapshot-Kept id w b.0 h) λ _ v k. remove_snapshots-Kept ids v b.1 k
