-- ===== src/Watch/Tree/Clean.antt =====
-- Paths that no skipped folder is on, through the walks and the sets of internal/watch/watch.go.
use fern.Prelude.{
  ◌≡◌, refl, subst, Bool, Bool-cases, inl, inr, true, false, not, ◌&&◌, some, List, [], ◌∷◌, ◌++◌,
  Bytes, if◌then◌else◌, equal, All, All-append, arith,
}
use fern.Sets.{value_of, store}
use fern.Watch.Tree.{
  skip, Mark, marked, absent, refused, Found, nothing, file, folder, Walked, noted, walk, add,
  under, forget, has_path, with_path, with_paths,
}

-- No name of the path is one that is skipped.
abbrev pub clean : List Bytes → Bool
clean [] = true
clean (n ∷ d) = not (skip n) && clean d

-- No folder above the path's last name is one that is skipped.
abbrev pub clean_above : List Bytes → Bool
clean_above [] = true
clean_above (n ∷ []) = true
clean_above (n ∷ m ∷ d) = not (skip n) && clean_above (m ∷ d)

abbrev pub AreMarked : List (Bytes × List Bytes) → Type 0
AreMarked dirs = All (λ p. clean p.1 ≡ true) dirs

abbrev pub AreClean : List (List Bytes) → Type 0
AreClean ps = All (λ p. clean_above p ≡ true) ps

pub clean-append :
    (d : List Bytes) (n : Bytes) → clean d ≡ true → skip n ≡ false → clean (d ++ n ∷ []) ≡ true
clean-append [] n h k = ground (arith, k)
clean-append (m ∷ d) n h k = ground (arith, h, k, clean-append d n)

pub clean_above-append :
    (d : List Bytes) (n : Bytes) → clean d ≡ true → clean_above (d ++ n ∷ []) ≡ true
clean_above-append [] n h = refl
clean_above-append (m ∷ []) n h = ground (arith, h)
clean_above-append (m ∷ k ∷ d) n h = ground (arith, h, clean_above-append (k ∷ d) n)

store-AreMarked :
    (k : Bytes) (v : List Bytes) (dirs : List (Bytes × List Bytes))
    → clean v ≡ true
    → AreMarked dirs
    → AreMarked (store k v dirs)
unfolding store
store-AreMarked k v [] h i = (h, tt)
store-AreMarked k v ((j, w) ∷ ds) h i = elim (Bool-cases (equal k j)) [
  | inl y ↦ rw y (h, i.1)
  | inr n ↦ rw n (i.0, store-AreMarked k v ds h i.1)
]

pub forget-AreMarked :
    (rel : List Bytes) (dirs : List (Bytes × List Bytes))
    → AreMarked dirs
    → AreMarked (forget rel dirs)
unfolding forget
forget-AreMarked rel [] h = tt
forget-AreMarked rel ((k, d) ∷ ds) h = elim (Bool-cases (under rel d)) [
  | inl y ↦ rw y (forget-AreMarked rel ds h.1)
  | inr n ↦ rw n (h.0, forget-AreMarked rel ds h.1)
]

pub value_of-clean :
    (k : Bytes) (d : List Bytes) (dirs : List (Bytes × List Bytes))
    → AreMarked dirs
    → value_of k dirs ≡ some d
    → clean d ≡ true
unfolding value_of
value_of-clean k d [] h i = absurd (ground (arith, i))
value_of-clean k d ((j, e) ∷ ds) h i = elim (Bool-cases (equal k j)) [
  | inl y ↦
      let f : some e ≡ some d = rw y at i in
      let g : e ≡ d = ground (arith, f) in subst (λ d. clean d ≡ true) g h.0
  | inr n ↦ value_of-clean k d ds h.1 (rw n at i)
]

abbrev pub IsWalked : Walked → Type 0
IsWalked w = AreMarked w.dirs × AreClean w.files

either-IsWalked :
    (b : Bool) (v w : Walked) → IsWalked v → IsWalked w → IsWalked (if b then v else w)
either-IsWalked true v w h k = h
either-IsWalked false v w h k = k

walk-IsWalked :
    (rel : List Bytes) (f : Found) (w : Walked)
    → clean rel ≡ true
    → IsWalked w
    → IsWalked (walk rel f w)
unfolding walk
walk-IsWalked rel nothing w c h = h
walk-IsWalked rel (file name true rest) w c h =
    walk-IsWalked rel rest (record w { files = w.files ++ (rel ++ name ∷ []) ∷ [] }) c
      (h.0, All-append _ w.files ((rel ++ name ∷ []) ∷ []) h.1 (clean_above-append rel name c, tt))
walk-IsWalked rel (file name false rest) w c h = walk-IsWalked rel rest w c h
walk-IsWalked rel (folder name absent inside rest) w c h = walk-IsWalked rel rest w c h
walk-IsWalked rel (folder name refused inside rest) w c h = elim (Bool-cases (skip name)) [
  | inl y ↦ rw y (walk-IsWalked rel rest w c h)
  | inr n ↦ rw n h
]
walk-IsWalked rel (folder name (marked k) inside rest) w c h = elim (Bool-cases (skip name)) [
  | inl y ↦ rw y (walk-IsWalked rel rest w c h)
  | inr n ↦
      let at = rel ++ name ∷ [] in
      let in_it = clean-append rel name c n in
      let entered =
        walk-IsWalked at inside (noted k at w) in_it (store-AreMarked k at w.dirs in_it h.0, h.1) in
      rw n (
        either-IsWalked (walk at inside (noted k at w)).goes_on
          (walk rel rest (walk at inside (noted k at w))) (walk at inside (noted k at w))
          (walk-IsWalked rel rest (walk at inside (noted k at w)) c entered) entered)
]

pub add-IsWalked :
    (rel : List Bytes) (m : Mark) (f : Found) (dirs : List (Bytes × List Bytes))
    → clean rel ≡ true
    → AreMarked dirs
    → IsWalked (add rel m f dirs)
unfolding add
add-IsWalked rel absent f dirs c h = (h, tt)
add-IsWalked rel refused f dirs c h = (h, tt)
add-IsWalked rel (marked k) f dirs c h =
    walk-IsWalked rel f (record { dirs = store k rel dirs; files = []; goes_on = true }) c
      (store-AreMarked k rel dirs c h, tt)

pub with_path-AreClean :
    (p : List Bytes) (ps : List (List Bytes))
    → clean_above p ≡ true
    → AreClean ps
    → AreClean (with_path p ps)
with_path-AreClean p ps c h = elim (Bool-cases (has_path p ps)) [
  | inl y ↦ rw y h
  | inr n ↦ rw n (c, h)
]

pub with_paths-AreClean :
    (qs ps : List (List Bytes)) → AreClean qs → AreClean ps → AreClean (with_paths qs ps)
unfolding with_paths
with_paths-AreClean [] ps c h = h
with_paths-AreClean (q ∷ qs) ps c h =
    with_paths-AreClean qs (with_path q ps) c.1 (with_path-AreClean q ps c.0 h)
