-- ===== src/Backup/Once/Sweep.antt =====
-- The sweep of a bucket (sweep of internal/backup/backup.go), wherever its calls end.
use fern.Prelude.{
  ℕ, ◌≡◌, sym, subst, inl, inr, Bool, Bool-cases, true, false, Option, none, some, List, [], ◌∷◌,
  ◌==◌, arith,
}
use fern.Backup.Bucket.{
  Key, manifest_key, state_key, stream_key, other_key, Manifest, State, Fate, done, try, call,
  ◌>>=◌,
}
use fern.Backup.Once.{
  is_archive, keep, without_number, removed, delete_object, keys, failed_too, delete_others, sweep,
  has_number,
}
use fern.Backup.Once.Ends.{
  HasArchive, IsManifest, Holds, After, result, After-bind, After-caught, call-After,
}
use fern.Backup.Once.Streams.{without_stream-Holds}
use fern.Backup.Once.Manifests.{Saved}

module _ (backed : Bool) where
  -- What is deleted is not what the manifest names.
  without_number-other :
      (n k : ℕ) (ns : List ℕ)
      → n == k ≡ false
      → has_number n ns ≡ true
      → has_number n (without_number k ns) ≡ true
  without_number-other n k [] e h = h
  without_number-other n k (m ∷ ms) e h = ground (arith, e, h, without_number-other n k ms e)

  removed-Holds :
      (m : Manifest) (k : Key) (s : State)
      → keep m k ≡ false
      → Holds [] (Saved backed m) s
      → Holds [] (Saved backed m) (record s { bucket = removed k s.bucket })
  unfolding keep
  removed-Holds m manifest_key s e h = absurd (ground (arith, e))
  removed-Holds m (state_key n) s e (h, l, o, (b, c, f)) =
      let left : HasArchive (removed (state_key n) s.bucket) m.archive = archived m.archive e c in
      let is : IsManifest s (some m) = subst (IsManifest s) b o in
      (
        record { old = h.old; past = h.past; snaps = h.snaps },
        tt,
        subst (IsManifest (record s { bucket = removed (state_key n) s.bucket })) (sym b)
            (is.0, left),
        (b, left, f),
      )
    where
      archived :
          (a : Option ℕ)
          → is_archive a n ≡ false
          → HasArchive s.bucket a
          → HasArchive (removed (state_key n) s.bucket) a
      archived none f g = tt
      archived (some a) f g = without_number-other a n s.bucket.archives (ground (arith, f)) g
  removed-Holds m (stream_key id n) s e h =
      without_stream-Holds s m (Saved backed m) id n h h.3.0 e h.3
  removed-Holds m (other_key n) s e (h, l, o, b) =
      (record { old = h.old; past = h.past; snaps = h.snaps }, tt, manifest s.bucket.manifest o, b)
    where
      manifest :
          (q : Option Manifest)
          → IsManifest s q
          → IsManifest (record s { bucket = removed (other_key n) s.bucket }) q
      manifest none i = tt
      manifest (some q) i = i

  delete_object-After :
      (m : Manifest) (k : Key) (s : State) (fs : List Fate)
      → keep m k ≡ false
      → Holds [] (Saved backed m) s
      → After
          (λ _ v. Holds [] (Saved backed m) v)
          (λ v. Holds [] (Saved backed m) v)
          (delete_object k s fs)
  unfolding delete_object
  delete_object-After m k s fs e h =
      call-After (λ v. (tt, record v { bucket = removed k v.bucket })) [] (Saved backed m) s fs h
        λ v i. (i, removed-Holds m k v e i, removed-Holds m k v e i)

  delete_others-After :
      (m : Manifest) (ks : List Key) (s : State) (fs : List Fate)
      → Holds [] (Saved backed m) s
      → After
          (λ _ v. Holds [] (Saved backed m) v)
          (λ v. Holds [] (Saved backed m) v)
          (delete_others m ks s fs)
  unfolding delete_others
  delete_others-After m [] s fs h = result false s fs h
  delete_others-After m (k ∷ ks) s fs h = elim (Bool-cases (keep m k)) [
    | inl y ↦ rw y (delete_others-After m ks s fs h)
    | inr n ↦ rw n (
        After-bind (try (delete_object k) s fs)
          (λ r. delete_others m ks >>= λ failing v gs. done (failed_too r failing) v gs)
          (After-caught (delete_object k s fs) (delete_object-After m k s fs n h) (λ _ v i. i)
            (λ v i. i) (λ v i. i))
          λ r v gs i.
            After-bind (delete_others m ks v gs) (λ failing w hs. done (failed_too r failing) w hs)
              (delete_others-After m ks v gs i)
              λ failing w hs j. result (failed_too r failing) w hs j)
  ]

  pub sweep-After :
      (m : Manifest) (s : State) (fs : List Fate)
      → Holds [] (Saved backed m) s
      → After (λ _ v. Holds [] (Saved backed m) v) (λ v. Holds [] (Saved backed m) v) (sweep m s fs)
  unfolding sweep
  sweep-After m s fs h =
      After-bind (call (λ v. (keys v.bucket, v)) s fs) (delete_others m)
        (call-After (λ v. (keys v.bucket, v)) [] (Saved backed m) s fs h λ v i. (i, i, i))
        λ ks v gs i. delete_others-After m ks v gs i
