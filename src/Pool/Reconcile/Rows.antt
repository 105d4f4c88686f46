-- ===== src/Pool/Reconcile/Rows.antt =====
-- After a reconcile the rows are those of the snapshots on the disk.
use fern.Prelude.{
  ℕ, ◌≡◌, refl, sym, ap, ◌∙◌, Bool, true, false, not, ◌&&◌, ◌||◌, List, [], ◌∷◌, ◌++◌, map, Bytes,
  if◌then◌else◌, equal, equal_iff, equal_refl, arith,
}
use fern.Sets.{listed, unlisted, listed-unlisted}
use fern.Pool.Disk.{Entry, Row, World, give, ◌>>=◌, ◌>>◌, look, save_rows, unknown, fail}
use fern.Pool.Snapshots.{keep_row, drop_row, query, get_env, has_row}
use fern.Pool.Calls.{result, error, After, After-bind, After-weaken, look-After}
use fern.Pool.Reconcile.{
  is_snapshot, Found, scan, index_missing, drop_stale, settle, reconcile_snapshots,
}

-- A snapshot of that name stands in snaps/.
unfoldable pub on_disk : Bytes → List Entry → Bool
on_disk id [] = false
on_disk id (e ∷ es) = (equal id e.name && is_snapshot e) || on_disk id es

scan-stale :
    (id : Bytes) (ix : List Bytes) (es : List Entry)
    → listed id (scan ix es).1 ≡ listed id ix && not (on_disk id es)
unfolding scan on_disk
scan-stale id ix [] = ground arith
scan-stale id ix (e ∷ es) = ground (
  arith,
  scan-stale id ix es,
  scan-stale id (unlisted e.name ix) es,
  listed-unlisted id e.name ix,
  equal_iff id e.name,
)

-- What is added was found on the disk.
scan-missing :
    (id : Bytes) (ix : List Bytes) (es : List Entry)
    → listed id (scan ix es).0 ≡ true
    → on_disk id es ≡ true
unfolding scan on_disk listed
scan-missing id ix [] h = h
scan-missing id ix (e ∷ es) h =
    ground (arith, scan-missing id ix es, scan-missing id (unlisted e.name ix) es)

-- What is on the disk has a row or is added.
scan-found :
    (id : Bytes) (ix : List Bytes) (es : List Entry)
    → on_disk id es ≡ true
    → listed id ix || listed id (scan ix es).0 ≡ true
unfolding scan on_disk listed
scan-found id ix [] h = absurd (cc)
scan-found id ix (e ∷ es) h = ground (
  arith,
  scan-found id ix es,
  scan-found id (unlisted e.name ix) es,
  listed-unlisted id e.name ix,
  equal_iff id e.name,
)

has_row-append :
    (id : Bytes) (xs ys : List Row) → has_row id (xs ++ ys) ≡ has_row id xs || has_row id ys
unfolding has_row
has_row-append id [] ys = refl
has_row-append id (x ∷ xs) ys = ground (arith, has_row-append id xs ys)

has_row-keep_row :
    (id x : Bytes) (created : ℕ) (rs : List Row)
    → has_row id (keep_row created x rs) ≡ has_row id rs || equal id x
unfolding keep_row has_row
has_row-keep_row id x created rs =
    ground
      (arith, has_row-append id rs (record { id = x; created_at = created } ∷ []), equal_iff id x)

has_row-drop_row :
    (id x : Bytes) (rs : List Row) → has_row id (drop_row x rs) ≡ has_row id rs && not (equal id x)
unfolding has_row drop_row
has_row-drop_row id x [] = refl
has_row-drop_row id x (r ∷ rs) = ground (
  arith,
  has_row-drop_row id x rs,
  equal_iff x r.id,
  equal_iff id x,
  equal_iff id r.id,
  equal_refl id,
)

listed-map : (id : Bytes) (rs : List Row) → listed id (map (λ r. r.id) rs) ≡ has_row id rs
unfolding listed has_row
listed-map id [] = refl
listed-map id (r ∷ rs) = ground (arith, listed-map id rs)

-- Neither the disk nor the rows have changed.
abbrev pub Same : World → World → Type 0
Same w v = (v.disk ≡ w.disk) × (v.rows ≡ w.rows)

-- The rows are those of the snapshots on the disk, for one ID.
abbrev pub Agrees : Bytes → World → Type 0
Agrees id w = has_row id w.rows ≡ on_disk id w.disk.snaps

look-Same {ℓ} :
    {A : Type ℓ} (f : World → A) (u w : World)
    → Same u w
    → After (λ _ v. Same u v) (λ v. Same u v) (look f w)
look-Same f u w h = look-After f w (λ fs. h) λ fs. h

index_missing-has_row :
    (id : Bytes) (created : ℕ) (xs : List Bytes) (rs : List Row) (u w : World)
    → Same u w
    → After
        (λ out v. Same u v × (has_row id out ≡ has_row id rs || listed id xs))
        (λ v. Same u v)
        (index_missing created xs rs w)
unfolding index_missing listed
index_missing-has_row id created [] rs u w h = result rs w (h, ground arith)
index_missing-has_row id created (x ∷ xs) rs u w h = After-bind _ _ (look-Same _ u w h) λ _ v k.
    After-weaken _ (λ out z j. (j.0, ground (arith, j.1, has_row-keep_row id x created rs)))
      (λ z j. j) (index_missing-has_row id created xs (keep_row created x rs) u v k)

drop_stale-has_row :
    (id : Bytes) (xs : List Bytes) (rs : List Row) (u w : World)
    → Same u w
    → After
        (λ out v. Same u v × (has_row id out ≡ has_row id rs && not (listed id xs)))
        (λ v. Same u v)
        (drop_stale xs rs w)
unfolding drop_stale listed
drop_stale-has_row id [] rs u w h = result rs w (h, ground arith)
drop_stale-has_row id (x ∷ xs) rs u w h = After-bind _ _ (look-Same _ u w h) λ _ v k.
    After-weaken _ (λ out z j. (j.0, ground (arith, j.1, has_row-drop_row id x rs))) (λ z j. j)
      (drop_stale-has_row id xs (drop_row x rs) u v k)

-- What is kept and dropped after a scan leaves the rows of what is on the disk.
scan-on_disk :
    (id : Bytes) (rs : List Row) (es : List Entry)
    → (has_row id rs || listed id (scan (map (λ r. r.id) rs) es).0)
        && not (listed id (scan (map (λ r. r.id) rs) es).1)
      ≡ on_disk id es
scan-on_disk id rs es = ground (
  arith,
  scan-stale id (map (λ r. r.id) rs) es,
  scan-missing id (map (λ r. r.id) rs) es,
  scan-found id (map (λ r. r.id) rs) es,
  listed-map id rs,
)

commit-Agrees :
    (id : Bytes) (created : ℕ) (rs : List Row) (found : Found) (u w : World)
    → Same u w
    → (has_row id rs || listed id found.0) && not (listed id found.1) ≡ on_disk id u.disk.snaps
    → After
        (λ _ v. (v.disk ≡ u.disk) × Agrees id v)
        (λ v. Same u v)
        ((look (λ _. tt) >> index_missing created found.0 rs >>= λ kept.
            drop_stale found.1 kept >>= λ rows. query (λ _. rows))
          w)
unfolding query save_rows
commit-Agrees id created rs found u w h e =
    After-bind _ _
      (After-bind _ _ (look-Same (λ _. tt) u w h)
        λ _ v k. index_missing-has_row id created found.0 rs u v k)
      λ kept v (k, p). After-bind _ _ (drop_stale-has_row id found.1 kept u v k) λ rows z (j, q).
        After-bind _ _ (look-Same (λ w. w.rows) u z j) λ _ y i. result tt _ (
          i.0,
          q ∙ ap (λ b. b && not (listed id found.1)) p ∙ e ∙ ap (λ d. on_disk id d.snaps) (sym i.0),
        )

settle-Agrees :
    (id : Bytes) (created : ℕ) (rs : List Row) (missing stale : List Bytes) (u w : World)
    → Same u w
    → rs ≡ u.rows
    → (has_row id rs || listed id missing) && not (listed id stale) ≡ on_disk id u.disk.snaps
    → After
        (λ _ v. (v.disk ≡ u.disk) × Agrees id v)
        (λ v. Same u v)
        (settle created rs (missing, stale) w)
unfolding settle listed
settle-Agrees id created rs [] [] u w h r e =
    result tt w (
      h.0,
      ground (arith, h.0, h.1, ap (has_row id) (h.1 ∙ sym r), ap (λ d. on_disk id d.snaps) h.0),
    )
settle-Agrees id created rs [] (y ∷ stale) u w h r e =
    commit-Agrees id created rs ([], y ∷ stale) u w h e
settle-Agrees id created rs (x ∷ missing) stale u w h r e =
    commit-Agrees id created rs (x ∷ missing, stale) u w h e

-- A reconcile leaves the disk as it is. If it ends without an error, then an ID has a row just when
-- a snapshot of that name, a subvolume with a valid one, stands in snaps/; if it fails or the
-- daemon dies before its commit, the rows are the ones before.
pub reconcile_snapshots-Agrees :
    (id : Bytes) (created : ℕ) (w : World)
    → After (λ _ v. (v.disk ≡ w.disk) × Agrees id v) (λ v. Same w v) (reconcile_snapshots created w)
unfolding reconcile_snapshots get_env
reconcile_snapshots-Agrees id created w =
    After-bind {Q = λ rs v. Same w v × (rs ≡ w.rows)} _ _
      (After-bind {Q = λ _ v. Same w v} _ _
        (After-bind _ _ (look-Same (λ w. w.known) w w (refl, refl)) λ known v k. env known v k)
        λ _ v k.
          After-weaken _ (λ rs z j. (j.0, j.1 ∙ k.1)) (λ z j. j)
            (look-After {Q = λ rs z. Same w z × (rs ≡ v.rows)} (λ w. w.rows) v (λ fs. (k, refl))
              λ fs. k))
      λ rs v (k, r).
        After-bind {Q = λ es z. Same w z × (es ≡ w.disk.snaps)} _ _
          (look-After (λ w. w.disk.snaps) v (λ fs. (k, ap (λ d. d.snaps) k.0)) λ fs. k)
          λ es z (j, s).
            settle-Agrees id created rs _ _ w z j r (scan-on_disk id rs es ∙ ap (on_disk id) s)
  where
    env :
        (known : Bool) (v : World)
        → Same w v
        → After {0} (λ _ v. Same w v) (λ v. Same w v) ((if known then give tt else fail unknown) v)
    env true v k = result tt v k
    env false v k = error unknown v k
