-- ===== src/Pool/Safety/Steps.antt =====
-- What the calls of a restore leave on the disk.
use fern.Prelude.{
  ℕ, ◌≡◌, refl, sym, ap, ◌∙◌, Bool, true, false, Option, none, some, List, [], ◌∷◌, Bytes,
  if◌then◌else◌, equal, equal_iff, equal_refl, All, arith,
}
use fern.Pool.Disk.{
  Node, Place, Entry, Disk, Row, no_entry, exists, invalid, World, fail, save_disk, entry,
  without_entry, node_at, placed,
}
use fern.Pool.Snapshots.{snapshot_subvolume, copy_to, snapshots_before, exchange}
use fern.Pool.Calls.{result, error, After, After-bind, After-weaken, look-After}

-- A subvolume that snapshots `n`.
abbrev pub copy : Node → Node
copy n = record { subvolume = true; nested = false; tree = n.tree }

pub entry-without_other :
    (id other : Bytes) (es : List Entry)
    → equal id other ≡ false
    → entry id (without_entry other es) ≡ entry id es
unfolding entry without_entry
entry-without_other id other [] h = refl
entry-without_other id other (e ∷ es) h = ground (
  arith,
  entry-without_other id other es h,
  equal_iff id e.name,
  equal_iff other e.name,
  equal_iff id other,
  equal_refl id,
)

pub entry-without_none :
    (id other : Bytes) (es : List Entry)
    → entry id es ≡ none
    → entry id (without_entry other es) ≡ none
unfolding entry without_entry
entry-without_none id other [] h = refl
entry-without_none id other (e ∷ es) h = ground (arith, entry-without_none id other es)

copy_to-After :
    (dst : Place) (n m : Option Node) (d : Disk) (w : World)
    → After
        (λ _ v. (s : Node) × (n ≡ some s) × (v.disk ≡ placed dst (copy s) d))
        (λ v. v.disk ≡ w.disk)
        (copy_to dst n m d w)
unfolding save_disk
copy_to-After dst none m d w = error no_entry w refl
copy_to-After dst (some n) (some m) d w = error exists w refl
copy_to-After dst (some n) none d w = made n.subvolume
  where
    made :
        (b : Bool)
        → After {0}
            (λ _ v. (s : Node) × (some n ≡ some s) × (v.disk ≡ placed dst (copy s) d))
            (λ v. v.disk ≡ w.disk)
            ((if b then save_disk (placed dst (copy n) d) else fail invalid) w)
    made true = result tt _ (n, refl, refl)
    made false = error invalid w refl

-- A snapshot is made whole, or the disk is as it was.
pub snapshot_subvolume-After :
    (src dst : Place) (w : World)
    → After
        (λ _ v. (s : Node) × (node_at src w.disk ≡ some s) × (v.disk ≡ placed dst (copy s) w.disk))
        (λ v. v.disk ≡ w.disk)
        (snapshot_subvolume src dst w)
unfolding snapshot_subvolume
snapshot_subvolume-After src dst w =
    After-bind {Q = λ d v. (d ≡ w.disk) × (v.disk ≡ w.disk)} _ _
      (look-After (λ w. w.disk) w (λ fs. (refl, refl)) λ fs. refl)
      λ d v k.
        After-weaken _
          (λ _ u j. (j.0, ap (node_at src) (sym k.0) ∙ j.1, j.2 ∙ ap (placed dst (copy j.0)) k.0))
          (λ u j. j ∙ k.1) (copy_to-After dst (node_at src d) (node_at dst d) d v)

pub exchange-After :
    (a b : Option Node) (d : Disk) (w : World)
    → After
        (λ _ v. v.disk ≡ record d { live = a; restored = b })
        (λ v. v.disk ≡ w.disk)
        (exchange a b d w)
unfolding save_disk
exchange-After none b d w = error no_entry w refl
exchange-After (some n) none d w = error no_entry w refl
exchange-After (some n) (some m) d w = result tt _ refl

pub snapshots_before-All :
    (before : ℕ) (keep : Bytes) (rs : List Row)
    → All (λ x. equal keep x ≡ false) (snapshots_before before keep rs)
unfolding snapshots_before
snapshots_before-All before keep [] = tt
snapshots_before-All before keep (r ∷ rs) = ground (
  arith,
  snapshots_before-All before keep rs,
  equal_iff keep r.id,
  equal_iff r.id keep,
  equal_refl keep,
)
