-- ===== src/Watch/Tree/Skipped.antt =====
-- What a watch passes on is in no folder that it skips, and waits for no timer that is not set.
use fern.Prelude.{
  ◌≡◌, refl, Bool, Bool-cases, inl, inr, true, false, not, ◌&&◌, ◌||◌, Option, none, some, List, [],
  ◌∷◌, ◌++◌, Bytes, codes, ◌⊎◌, equal, is_empty, All, arith,
}
use fern.Decimal.{ℤ}
use fern.Sets.{value_of}
use fern.Watch.Event.{Event}
use fern.Watch.Tree.{
  skip, Mark, Found, Walked, add, has_bit, fan_delete, fan_moved_from, fan_moved_to, fan_create,
  fan_ondir, fan_modify, fan_q_overflow, Watched, with_walked, of_folder, of_file, in_parent,
  apply_one, apply, Report, Turn, events, fires, report_one, report, watch,
}
use fern.Watch.Tree.Clean.{
  clean, AreMarked, AreClean, clean-append, clean_above-append, forget-AreMarked, value_of-clean,
  add-IsWalked, with_path-AreClean, with_paths-AreClean,
}

abbrev IsWatched : Watched → Type 0
IsWatched w = AreMarked w.dirs × AreClean w.pending

of_folder-IsWatched :
    (mine : Bool) (e : Event) (m : Mark) (f : Found) (parent : List Bytes) (w : Watched)
    → clean parent ≡ true
    → IsWatched w
    → IsWatched (of_folder mine e m f (parent ++ e.name ∷ []) w)
of_folder-IsWatched mine e m f parent w c h =
    elim (Bool-cases (has_bit fan_delete e.mask || has_bit fan_moved_from e.mask)) [
      | inl y ↦ rw y (forget-AreMarked (parent ++ e.name ∷ []) w.dirs h.0, h.1)
      | inr n ↦
          elim (Bool-cases
            ((has_bit fan_create e.mask || has_bit fan_moved_to e.mask) && not (skip e.name))) [
              | inr z ↦ rw (n, z) h
              | inl y ↦
                  let at = parent ++ e.name ∷ [] in
                  let r =
                    add-IsWalked at m f w.dirs (clean-append parent e.name c (ground (arith, y)))
                      h.0 in
                  rw (n, y) (r.0, found mine (add at m f w.dirs) r.1)
            ]
    ]
  where
    found : (b : Bool) (r : Walked) → AreClean r.files → AreClean (with_walked b r w).pending
    found true r k = with_paths-AreClean r.files w.pending k h.1
    found false r k = h.1

of_file-IsWatched :
    (mine : Bool) (e : Event) (parent : List Bytes) (w : Watched)
    → clean parent ≡ true
    → IsWatched w
    → IsWatched (of_file mine e (parent ++ e.name ∷ []) w)
of_file-IsWatched mine e parent w c h =
    elim (Bool-cases (
      mine
      && (has_bit fan_modify e.mask || has_bit fan_create e.mask || has_bit fan_moved_to e.mask))) [
        | inl y ↦ rw y (
          h.0,
          with_path-AreClean (parent ++ e.name ∷ []) w.pending (clean_above-append parent e.name c)
              h.1,
        )
        | inr n ↦ rw n h
      ]

in_parent-IsWatched :
    (mine : Bool) (e : Event) (m : Mark) (f : Found) (w : Watched) (o : Option (List Bytes))
    → ((d : List Bytes) → o ≡ some d → clean d ≡ true)
    → IsWatched w
    → IsWatched (in_parent mine e m f w o)
in_parent-IsWatched mine e m f w none c h = h
in_parent-IsWatched mine e m f w (some d) c h =
    elim (Bool-cases (is_empty e.name || equal e.name (codes "."))) [
      | inl y ↦ rw y h
      | inr n ↦ elim (Bool-cases (has_bit fan_ondir e.mask)) [
        | inl y ↦ rw (n, y) (of_folder-IsWatched mine e m f d w (c d refl) h)
        | inr z ↦ rw (n, z) (of_file-IsWatched mine e d w (c d refl) h)
      ]
    ]

apply_one-IsWatched :
    (mine : Bool) (e : Event) (m : Mark) (f : Found) (w : Watched)
    → IsWatched w
    → IsWatched (apply_one mine e m f w)
unfolding apply_one
apply_one-IsWatched mine e m f w h = elim (Bool-cases (has_bit fan_q_overflow e.mask)) [
  | inl y ↦ rw y h
  | inr n ↦ rw n (
      in_parent-IsWatched mine e m f w (value_of e.handle w.dirs)
        (λ d i. value_of-clean e.handle d w.dirs h.0 i) h)
]

apply-IsWatched :
    (mine : ℤ → Bool) (es : List (Event × Mark × Found)) (w : Watched)
    → IsWatched w
    → IsWatched (apply mine es w)
unfolding apply
apply-IsWatched mine [] w h = h
apply-IsWatched mine ((e, m, f) ∷ es) w h =
    apply-IsWatched mine es (apply_one (mine e.pid) e m f w)
      (apply_one-IsWatched (mine e.pid) e m f w h)

-- The folders that are marked and what is passed on, or will be, are in no folder that is skipped, and
-- what will be has its timer.
pub record IsSound (r : Report) : Type 0 where
  pub marked_clean : AreMarked r.watched.dirs
  pub pending_clean : AreClean r.watched.pending
  pub batches_clean : All (λ b. AreClean b) r.batches
  pub has_timer : (r.timer ≡ true) ⊎ (r.watched.pending ≡ [])

timer_set :
    (t : Bool) (before next : List (List Bytes))
    → (t ≡ true) ⊎ (before ≡ [])
    → ((t || (is_empty before && not (is_empty next))) ≡ true) ⊎ (next ≡ [])
timer_set t before [] h = inr refl
timer_set t before (p ∷ ps) h = ground (arith, h)

report_one-IsSound :
    (mine : ℤ → Bool) (t : Turn) (r : Report) → IsSound r → IsSound (report_one mine t r)
unfolding report_one
report_one-IsSound mine (events es) r h =
    let (d, p) = apply-IsWatched mine es r.watched (h.marked_clean, h.pending_clean) in
    record {
      marked_clean = d;
      pending_clean = p;
      batches_clean = h.batches_clean;
      has_timer = timer_set r.timer r.watched.pending (apply mine es r.watched).pending h.has_timer;
    }
report_one-IsSound mine fires r h = elim (Bool-cases r.timer) [
  | inl y ↦ rw y (record {
    marked_clean = h.marked_clean;
    pending_clean = tt;
    batches_clean = (h.pending_clean, h.batches_clean);
    has_timer = inr refl;
  })
  | inr n ↦ rw n (rw n at h)
]

report_from-IsSound :
    (mine : ℤ → Bool) (ts : List Turn) (r : Report) → IsSound r → IsSound (report mine ts r)
unfolding report
report_from-IsSound mine [] r h = h
report_from-IsSound mine (t ∷ ts) r h =
    report_from-IsSound mine ts (report_one mine t r) (report_one-IsSound mine t r h)

-- Whatever the walks find, the kernel reports and the timer does: a watch that Watch starts has marked
-- no folder that it skips or that is in one, and passes on no file of such a folder; and a change waits
-- only while the timer is set that passes it on.
pub report-IsSound :
    (mine : ℤ → Bool) (m : Mark) (inside : Found) (ts : List Turn)
    → IsSound (report mine ts (watch m inside))
unfolding watch
report-IsSound mine m inside ts = report_from-IsSound mine ts (watch m inside) (record {
  marked_clean = (add-IsWalked [] m inside [] refl tt).0;
  pending_clean = tt;
  batches_clean = tt;
  has_timer = inr refl;
})
