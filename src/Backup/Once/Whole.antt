-- ===== src/Backup/Once/Whole.antt =====
-- A whole backup (Once of internal/backup/backup.go), wherever its calls end.
use fern.Prelude.{
  ℕ, suc, ◌≡◌, refl, Bool, true, false, ◌||◌, Option, none, some, List, [], Bytes, arith,
}
use fern.Backup.Bucket.{EnvBackup, Manifest, Bucket, State, Fate, try, call, ◌>>=◌}
use fern.Backup.Once.{
  manifest_or_empty, read_manifest, save, listing, list_envs, each_env, live_ids, only_live,
  put_archive, take_archive, sweep, unless_failing, sweep_failed, complete, once, has_number,
}
use fern.Backup.Once.Ends.{
  HasArchive, IsManifest, Holds, IsSafe, After, result, error, After-bind, After-caught, call-After,
  Kept, IsKept, Archived,
}
use fern.Backup.Once.Node.{tick-Holds}
use fern.Backup.Once.Manifests.{
  Good, Good-IsSafe, Saved-IsSafe, save-After, each_env-After, only_live-AreBackups,
}
use fern.Backup.Once.Sweep.{sweep-After}

module _ (backed : Bool) where
  -- The archive is a new one, besides the manifest's.
  abbrev Listed : ℕ → Bucket → ℕ → Type 0
  Listed n b now = (has_number n b.archives ≡ true) × IsKept backed b.manifest

  put_archive-Holds :
      (n : ℕ) (es : List (Bytes × EnvBackup)) (a : Option ℕ) (v : State)
      → Holds es (Archived backed a) v
      → Holds es (Listed n) (put_archive n v).1
  put_archive-Holds n es a v (h, l, o, b) = (
    record { old = h.old; past = h.past; snaps = h.snaps },
    l,
    manifest v.bucket.manifest o,
    (ground arith, b.1),
  )
    where
      archived : (q : Option ℕ) → HasArchive v.bucket q → HasArchive (put_archive n v).1.bucket q
      archived none i = tt
      archived (some k) i = ground (arith, i)

      manifest : (q : Option Manifest) → IsManifest v q → IsManifest (put_archive n v).1 q
      manifest none i = tt
      manifest (some q) i = (i.0, archived q.archive i.1)

  take_archive-After :
      (es : List (Bytes × EnvBackup)) (a : Option ℕ) (s : State) (fs : List Fate)
      → Holds es (Archived backed a) s
      → After (λ n v. Holds es (Listed n) v) (IsSafe backed) (take_archive s fs)
  unfolding take_archive
  take_archive-After es a s fs h =
      call-After (put_archive s.now) es (Archived backed a) (record s { now = suc s.now }) fs
        (tick-Holds s es (Archived backed a) (Archived backed a) [] (λ _ b. b) h)
        λ v i.
          let j = put_archive-Holds s.now es a v i in
          ((i.0, tt, i.2, i.3.1), (j.0, tt, j.2, j.3.1), j)

-- With a new archive and only the live environments it is saved, and what it does not name is swept;
-- from then on there always is a backup.
complete-After :
    (backed : Bool) (live : List Bytes) (m : Manifest) (failing : Bool) (s : State) (fs : List Fate)
    → Good backed m s
    → After (λ _ v. IsSafe true v) (IsSafe backed) (complete live (m, failing) s fs)
complete-After backed live m failing s fs h =
    After-bind (take_archive s fs)
      (λ n. save (whole n) >>= λ _.
        try (sweep (whole n)) >>= λ swept. unless_failing (failing || sweep_failed swept))
      (take_archive-After backed m.envs m.archive s fs h)
      λ n v gs i.
        After-bind (save (whole n) v gs)
          (λ _. try (sweep (whole n)) >>= λ swept. unless_failing (failing || sweep_failed swept))
          (save-After backed (whole n) v gs
            (i.0, only_live-AreBackups live m.envs v i.1, i.2, (i.3.0, i.3.1, λ _. (n, refl))))
          λ _ w hs j.
            After-bind (try (sweep (whole n)) w hs)
              (λ swept. unless_failing (failing || sweep_failed swept))
              (After-caught (sweep (whole n) w hs)
                (sweep-After true (whole n) w hs (j.0, tt, j.2, (j.3.0, j.3.1, λ _. (n, refl))))
                (λ _ x k. Saved-IsSafe true x (whole n) [] k)
                (λ x k. Saved-IsSafe true x (whole n) [] k)
                (λ x k. less x (Saved-IsSafe true x (whole n) [] k)))
              λ swept x is k. ends (failing || sweep_failed swept) x is k
  where
    whole : ℕ → Manifest
    whole n = record m { envs = only_live live m.envs; archive = some n }

    less : (x : State) → IsSafe true x → IsSafe backed x
    less x (k, l, o, b) = (k, l, o, λ _. b refl)

    ends :
        (b : Bool) (x : State) (is : List Fate)
        → IsSafe true x
        → After (λ _ v. IsSafe true v) (IsSafe backed) (unless_failing b x is)
    ends true x is w = error x is (less x w)
    ends false x is w = result tt x is w

read_manifest-Good :
    (backed : Bool) (v : State)
    → IsSafe backed v
    → Good backed (manifest_or_empty v.bucket.manifest) v
read_manifest-Good backed v i = manifest v.bucket.manifest i.2 i.3
  where
    manifest :
        (q : Option Manifest)
        → IsManifest v q
        → IsKept backed q
        → Good backed (manifest_or_empty q) v
    manifest none j k =
        (i.0, tt, i.2, (tt, i.3, λ e. let (m, n, f, g) = k e in absurd (ground (arith, f))))
    manifest (some m) j k =
        (i.0, j.0, i.2, (j.1, i.3, λ e. let (q, n, f, g) = k e in (n, ground (arith, f, g))))

pub once-After :
    (backed : Bool) (s : State) (fs : List Fate)
    → IsSafe backed s
    → After (λ _ v. IsSafe true v) (IsSafe backed) (once s fs)
unfolding once read_manifest list_envs
once-After backed s fs h =
    After-bind (call (λ v. (manifest_or_empty v.bucket.manifest, v)) s fs)
      (λ m. list_envs >>= λ es. each_env es m >>= complete (live_ids es))
      (call-After (λ v. (manifest_or_empty v.bucket.manifest, v)) [] (Kept backed) s fs h
        λ v i. (i, i, read_manifest-Good backed v i))
      λ m v gs i.
        After-bind (call (λ v. (listing v.envs, v)) v gs)
          (λ es. each_env es m >>= complete (live_ids es))
          (call-After (λ v. (listing v.envs, v)) m.envs (Archived backed m.archive) v gs i
            λ w j. (Good-IsSafe backed w m j, Good-IsSafe backed w m j, j))
          λ es w hs j.
            After-bind (each_env es m w hs) (complete (live_ids es))
              (each_env-After backed es m w hs j)
              λ r x is k. complete-After backed (live_ids es) r.0 r.1 x is k
