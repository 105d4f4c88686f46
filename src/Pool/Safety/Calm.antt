-- ===== src/Pool/Safety/Calm.antt =====
-- Deletions when nothing goes wrong: they end without an error.
use fern.Prelude.{
  ◌≡◌, refl, ap, ◌∙◌, Bool, true, false, ◌⊎◌, Option, none, some, List, [], ◌∷◌, Bytes,
  if◌then◌else◌, is_empty, All, inl, inr,
}
use fern.Ids.{snap_id_pattern}
use fern.Pool.Disk.{
  Node, Place, snap, Disk, Row, Fate, World, give, ◌>>◌, look, read_on, save_disk, save_rows,
  node_at, cleared,
}
use fern.Pool.Snapshots.{
  lstat, unlink, delete_subvolume, delete_found, delete_each, delete_recursive, removed,
  clear_where, delete_subvolumes, drop_row, query, get_env, remove_snapshot, remove_snapshots,
}
use fern.Pool.Calls.{result, After, After-bind, After-weaken}

-- No call fails, the daemon does not die, and the index knows the environment.
abbrev pub Calm : World → Type 0
Calm w = (w.fates ≡ []) × (w.known ≡ true)

abbrev pub Never : World → Type 0
Never w = ⊥

read_on-Calm {ℓ} :
    {A : Type ℓ} {Q : A → World → Type 0} (f : World → A) (w : World) (fs : List Fate)
    → fs ≡ []
    → Q (f w) w
    → After Q Never (read_on f w fs)
read_on-Calm f w [] e h = result (f w) w h
read_on-Calm f w (x ∷ fs) e h = absurd (cc)

pub look-Calm {ℓ} :
    {A : Type ℓ} {Q : A → World → Type 0} (f : World → A) (w : World)
    → Calm w
    → Q (f w) w
    → After Q Never (look f w)
unfolding look
look-Calm f w c h = read_on-Calm f w w.fates c.0 h

pub query-Calm :
    (f : List Row → List Row) (w : World) → Calm w → After (λ _ v. Calm v) Never (query f w)
unfolding query save_rows
query-Calm f w c =
    After-bind {Q = λ _ v. Calm v} _ _ (look-Calm (λ w. w.rows) w c c) λ rs v k. result tt _ k

pub get_env-Calm : (w : World) → Calm w → After (λ _ v. v ≡ w) Never (get_env w)
unfolding get_env
get_env-Calm w c =
    After-bind {Q = λ b v. (b ≡ true) × (v ≡ w)} _ _ (look-Calm (λ w. w.known) w c (c.1, refl))
      λ b v (e, k). rw e (result tt v k)

-- A subvolume stands there.
abbrev pub is_subvolume : Option Node → Bool
is_subvolume none = false
is_subvolume (some n) = n.subvolume

-- The path is cleared, or nothing there was to be.
abbrev pub Cleared : Place → Disk → Disk → Type 0
Cleared p d e = (e ≡ cleared p d) ⊎ ((e ≡ d) × (is_subvolume (node_at p d) ≡ false))

abbrev Tried : Place → Disk → Bool → Disk → Type 0
Tried p d true e = e ≡ d
Tried p d false e = Cleared p d e

unlink-Calm :
    (p : Place) (n : Node) (w : World)
    → Calm w
    → After (λ left v. Calm v × Tried p w.disk left v.disk) Never (unlink p (some n) w.disk w)
unfolding save_disk
unlink-Calm p n w c = unlinks n.nested
  where
    unlinks :
        (b : Bool)
        → After {0}
            (λ left v. Calm v × Tried p w.disk left v.disk)
            Never
            ((if b then give true else (save_disk (cleared p w.disk) >> give false)) w)
    unlinks true = result true w (c, refl)
    unlinks false = result false _ (c, inl refl)

delete_subvolume-Calm :
    (p : Place) (n : Node) (w : World)
    → Calm w
    → node_at p w.disk ≡ some n
    → After (λ left v. Calm v × Tried p w.disk left v.disk) Never (delete_subvolume p w)
unfolding delete_subvolume
delete_subvolume-Calm p n w c e =
    After-bind {Q = λ d v. (d ≡ w.disk) × (v ≡ w)} _ _ (look-Calm (λ w. w.disk) w c (refl, refl))
      λ d v (q, r). rw (q, r, e) (unlink-Calm p n w c)

delete_found-Calm :
    (m : Option Node) (p : Place) (w : World)
    → Calm w
    → node_at p w.disk ≡ m
    → After (λ left v. Calm v × Tried p w.disk left v.disk) Never (delete_found m p w)
delete_found-Calm none p w c e = result false w (c, inr (refl, ap is_subvolume e))
delete_found-Calm (some n) p w c e = finds n.subvolume refl
  where
    finds :
        (b : Bool)
        → n.subvolume ≡ b
        → After {0}
            (λ left v. Calm v × Tried p w.disk left v.disk)
            Never
            ((if b then delete_subvolume p else give false) w)
    finds true q = delete_subvolume-Calm p n w c e
    finds false q = result false w (c, inr (refl, ap is_subvolume e ∙ q))

removed-Calm :
    (p : Place) (w : World) (fs : List Fate)
    → fs ≡ []
    → Calm w
    → After (λ _ v. Calm v × (v.disk ≡ cleared p w.disk)) Never (removed (p ∷ []) w fs)
unfolding save_disk clear_where
removed-Calm p w [] e c = result tt _ (c, refl)
removed-Calm p w (x ∷ fs) e c = absurd (cc)

-- The second try, if the first left the path.
retry-Calm :
    (p : Place) (d : Disk) (left : Bool) (w : World)
    → Calm w
    → Tried p d left w.disk
    → After
        (λ _ v. Calm v × Cleared p d v.disk)
        Never
        ((if is_empty (if left then p ∷ [] else [])
            then give tt
            else delete_recursive (if left then p ∷ [] else []))
          w)
unfolding delete_recursive
retry-Calm p d true w c t =
    After-weaken _ (λ _ v k. (k.0, inl (k.1 ∙ ap (cleared p) t))) (λ v k. k)
      (removed-Calm p w w.fates c.0 c)
retry-Calm p d false w c t = result tt w (c, t)

pub delete_subvolumes-Calm :
    (p : Place) (w : World)
    → Calm w
    → After (λ _ v. Calm v × Cleared p w.disk v.disk) Never (delete_subvolumes (p ∷ []) w)
unfolding delete_subvolumes delete_each lstat
delete_subvolumes-Calm p w c =
    After-bind
      {Q = λ nested v.
        (b : Bool) × (nested ≡ (if b then p ∷ [] else [])) × Calm v × Tried p w.disk b v.disk}
      _ _
      (After-bind {Q = λ m v. (node_at p w.disk ≡ m) × (v ≡ w)} _ _
        (look-Calm (λ w. node_at p w.disk) w c (refl, refl))
        λ m v (e, q). rw q (
          After-bind _ _ (delete_found-Calm m p w c e)
            λ left u k. result _ u (left, refl, k.0, k.1)))
      λ nested v (b, e, c', t). rw e (retry-Calm p w.disk b v c' t)

remove_snapshot-Calm :
    (id : Bytes) (w : World)
    → snap_id_pattern id ≡ true
    → Calm w
    → After (λ _ v. Calm v) Never (remove_snapshot id w)
unfolding remove_snapshot
remove_snapshot-Calm id w e c = rw e (
    After-bind {Q = λ _ v. Calm v} _ _
      (After-bind {Q = λ _ v. Calm v} _ _
        (After-weaken _ (λ _ v q. rw q c) (λ v k. k) (get_env-Calm w c))
        λ _ v k. After-weaken _ (λ _ u j. j.0) (λ u j. j) (delete_subvolumes-Calm (snap id) v k))
      λ _ v k. query-Calm (drop_row id) v k)

pub remove_snapshots-Calm :
    (ids : List Bytes) (w : World)
    → All (λ id. snap_id_pattern id ≡ true) ids
    → Calm w
    → After (λ _ v. Calm v) Never (remove_snapshots ids w)
unfolding remove_snapshots
remove_snapshots-Calm [] w h c = result tt w c
remove_snapshots-Calm (id ∷ ids) w h c =
    After-bind _ _ (remove_snapshot-Calm id w h.0 c) λ _ v k. remove_snapshots-Calm ids v h.1 k
