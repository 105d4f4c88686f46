-- ===== src/Backup/Once/Ends.antt =====
-- What holds wherever the calls of a backup end: all the time, of the bucket's manifest, and of the
-- one that is being made.
use fern.Prelude.{
  ℕ, ◌≡◌, refl, sym, ap, subst, Bool, true, false, Option, none, some, List, [], ◌∷◌, Bytes, All,
  All-map,
}
use fern.Backup.Bucket.{
  EnvBackup, Manifest, Bucket, State, changed_all, Fate, How, goes, fails, dies, Outcome, done,
  failed, died, Io, from_option, caught, ended, call, go_on, ◌>>=◌,
}
use fern.Backup.Once.{has_number}
use fern.Backup.Once.Sound.{IsSound, IsBackup, Plays, Keeps}
use fern.Backup.Once.Changes.{changed_all-Keeps}

abbrev pub HasArchive : Bucket → Option ℕ → Type 0
HasArchive b none = Unit
HasArchive b (some n) = has_number n b.archives ≡ true

abbrev pub AreBackups : State → List (Bytes × EnvBackup) → Type 0
AreBackups s es = All (λ p. IsBackup s p.0 p.1) es

abbrev pub IsManifest : State → Option Manifest → Type 0
IsManifest s none = Unit
IsManifest s (some m) = AreBackups s m.envs × HasArchive s.bucket m.archive

-- `es` are backups, besides what the bucket's manifest names, and `B` holds of the bucket and the time.
abbrev pub Holds : List (Bytes × EnvBackup) → (Bucket → ℕ → Type 0) → State → Type 0
Holds es B s = IsSound s × AreBackups s es × IsManifest s s.bucket.manifest × B s.bucket s.now

-- If a backup has ended well, the bucket's manifest names an archive.
abbrev pub IsKept : Bool → Option Manifest → Type 0
IsKept backed o = backed ≡ true → (m : Manifest) × (n : ℕ) × (o ≡ some m) × (m.archive ≡ some n)

abbrev pub Kept : Bool → Bucket → ℕ → Type 0
Kept backed b now = IsKept backed b.manifest

-- So does the one that is being made.
abbrev pub Archived : Bool → Option ℕ → Bucket → ℕ → Type 0
Archived backed a b now =
    HasArchive b a × IsKept backed b.manifest × (backed ≡ true → (n : ℕ) × (a ≡ some n))

-- The bucket is one to restore from.
abbrev pub IsSafe : Bool → State → Type 0
IsSafe backed s = Holds [] (Kept backed) s

pub IsBackup-Keeps :
    (s v : State) (id : Bytes) (eb : EnvBackup) → Keeps s v → IsBackup s id eb → IsBackup v id eb
IsBackup-Keeps s v id eb (b, n, h, c) (k, t, p, q) =
    (k, t, subst (λ b. Plays b.streams id none eb.chain (k, t)) (sym b) p, c id eb.generation t q)

pub Holds-Keeps :
    (s v : State) (es : List (Bytes × EnvBackup)) (B : Bucket → ℕ → Type 0)
    → Keeps s v
    → Holds es B s
    → Holds es B v
Holds-Keeps s v es B k (h, l, m, b) = (
  k.2,
  All-map _ _ es (λ p. IsBackup-Keeps s v p.0 p.1 k) l,
  subst (IsManifest v) (sym (ap (λ b. b.manifest) k.0)) (manifest s.bucket.manifest m),
  subst (λ b. B b v.now) (sym k.0) (subst (B s.bucket) (sym k.1) b),
)
  where
    manifest : (o : Option Manifest) → IsManifest s o → IsManifest v o
    manifest none i = tt
    manifest (some o) i = (
      All-map _ _ o.envs (λ p. IsBackup-Keeps s v p.0 p.1 k) i.0,
      subst (λ b. HasArchive b o.archive) (sym k.0) i.1,
    )

pub Holds-weaken :
    (s : State) (es : List (Bytes × EnvBackup)) (B C : Bucket → ℕ → Type 0)
    → (B s.bucket s.now → C s.bucket s.now)
    → Holds es B s
    → Holds es C s
Holds-weaken s es B C f (h, l, m, b) = (h, l, m, f b)

-- `Q` holds of the result and of what is left, or else `E` of that.
pub data After {A : Type 0} (Q : A → State → Type 0) (E : State → Type 0) : Outcome A → Type 0 where
  result : (a : A) (s : State) (fs : List Fate) → Q a s → After Q E (done a s fs)
  error : (s : State) (fs : List Fate) → E s → After Q E (failed s fs)
  crash : (s : State) → E s → After Q E (died s)

pub After-bind :
    {A B : Type 0} {Q : A → State → Type 0} {R : B → State → Type 0} {E : State → Type 0}
    (o : Outcome A) (f : A → Io B)
    → After Q E o
    → ((a : A) (s : State) (fs : List Fate) → Q a s → After R E (f a s fs))
    → After R E (go_on o f)
After-bind (done a s fs) f (result _ _ _ h) k = k a s fs h
After-bind (failed s fs) f (error _ _ h) k = error s fs h
After-bind (died s) f (crash _ h) k = crash s h

pub After-caught :
    {A : Type 0} {Q : A → State → Type 0} {R : Option A → State → Type 0} {E F : State → Type 0}
    (o : Outcome A)
    → After Q E o
    → ((a : A) (s : State) → Q a s → R (some a) s)
    → ((s : State) → E s → R none s)
    → ((s : State) → E s → F s)
    → After R F (caught o)
After-caught (done a s fs) (result _ _ _ h) q e c = result (some a) s fs (q a s h)
After-caught (failed s fs) (error _ _ h) q e c = result none s fs (e s h)
After-caught (died s) (crash _ h) q e c = crash s (c s h)

pub After-weaken :
    {A : Type 0} {Q R : A → State → Type 0} {E F : State → Type 0} (o : Outcome A)
    → ((a : A) (s : State) → Q a s → R a s)
    → ((s : State) → E s → F s)
    → After Q E o
    → After R F o
After-weaken (done a s fs) q e (result _ _ _ h) = result a s fs (q a s h)
After-weaken (failed s fs) q e (error _ _ h) = error s fs (e s h)
After-weaken (died s) q e (crash _ h) = crash s (e s h)

-- A call: others go first, and it ends with or without what it does.
pub call-After :
    {A : Type 0} {Q : A → State → Type 0} {E : State → Type 0} (f : State → A × State)
    (es : List (Bytes × EnvBackup)) (B : Bucket → ℕ → Type 0) (s : State) (fs : List Fate)
    → Holds es B s
    → ((v : State) → Holds es B v → E v × E (f v).1 × Q (f v).0 (f v).1)
    → After Q E (call f s fs)
unfolding call
call-After f es B s [] h k = result _ _ [] (k s h).2
call-After {Q = Q} {E = E} f es B s (fate ∷ fs) h k = ends fate.how
  where
    v : State
    v = changed_all fate.before s

    there : Holds es B v
    there = Holds-Keeps s v es B (changed_all-Keeps fate.before s h.0) h

    ends : (w : How) → After Q E (ended f w (changed_all fate.before s) fs)
    ends goes = result _ _ fs (k v there).2
    ends (fails true) = error _ fs (k v there).1
    ends (fails false) = error _ fs (k v there).0
    ends (dies true) = crash _ (k v there).1
    ends (dies false) = crash _ (k v there).0

pub ask-After :
    {A : Type 0} {Q : A → State → Type 0} {E : State → Type 0} (f : State → Option A × State)
    (es : List (Bytes × EnvBackup)) (B : Bucket → ℕ → Type 0) (s : State) (fs : List Fate)
    → Holds es B s
    → ((v : State) → Holds es B v → E v × E (f v).1 × ((a : A) → (f v).0 ≡ some a → Q a (f v).1))
    → After Q E ((call f >>= from_option) s fs)
ask-After {A} {Q} {E} f es B s fs h k =
    After-bind (call f s fs) from_option
      (call-After {Q = λ o v. E v × ((a : A) → o ≡ some a → Q a v)} f es B s fs h
        λ v i. let (x, y, z) = k v i in (x, y, (y, z)))
      given
  where
    given :
        (o : Option A) (v : State) (gs : List Fate)
        → E v × ((a : A) → o ≡ some a → Q a v)
        → After Q E (from_option o v gs)
    given none v gs (e, q) = error v gs e
    given (some a) v gs (e, q) = result a v gs (q a refl)

-- A call that is about the node only.
pub node-After :
    {A : Type 0} (f : State → Option A × State) (es : List (Bytes × EnvBackup))
    (B : Bucket → ℕ → Type 0) (E : State → Type 0) (s : State) (fs : List Fate)
    → Holds es B s
    → ((v : State) → Holds es B v → Keeps v (f v).1)
    → ((v : State) → Holds es B v → E v)
    → After (λ _ v. Holds es B v) E ((call f >>= from_option) s fs)
node-After f es B E s fs h k e =
    ask-After f es B s fs h
      λ v i. let j = Holds-Keeps v (f v).1 es B (k v i) i in (e v i, e (f v).1 j, λ a _. j)
