-- ===== src/Golden/Builds.antt =====
-- Any number of builds of a repository, and one in which nothing goes wrong.
use fern.Prelude.{
  ℕ, zero, suc, ◌≡◌, refl, sym, ap, subst, inl, inr, Bool, Bool-cases, true, false, Option, none,
  some, List, [], ◌∷◌, Bytes, ◌==◌, arith, equal_refl,
}
use fern.Golden.{
  Work, gone, other, copied, stripped, Builder, Fate, Outcome, done, failed, died, by_box, caught,
  try, call, go_on, ◌>>=◌, ◌>>◌, create, stop_box, wake_box, build_source, strip_source, has_key,
  has_snapshot, take_snapshot, keep_turns, count_beyond, without_at, drop_beyond, prune,
  run_and_keep, unless_there, read_key, build_golden,
}
use fern.Golden.Calls.{AreGolden, After, result, error, crash}
use fern.Golden.Sound.{build_golden-After}

-- Where a build ends, or dies.
abbrev pub left_by : {A : Type 0} → Outcome A → Builder
left_by (done a b fs) = b
left_by (failed b fs) = b
left_by (died b) = b

-- No builder yet, or one that was deleted.
abbrev pub no_builder : Builder
no_builder = record { exists = false; work = gone; listed = none; up = false; snaps = [] }

-- What a builder comes to: builds, of any source, with anything going wrong, its box's writes, and its
-- deletion.
pub data Built (key : Work → Option Bytes) : Builder → Type 0 where
  absent : Built key no_builder
  build :
      {b : Builder} (found : Bool) (src : Option ℕ) (fs : List Fate)
      → Built key b
      → Built key (left_by (build_golden key found src b fs))
  write : {b : Builder} → Built key b → Built key (by_box true b)

left_by-AreGolden :
    (key : Work → Option Bytes) (o : Outcome (Unit {0}))
    → After (λ _ v. AreGolden key v.snaps) (λ v. AreGolden key v.snaps) o
    → AreGolden key (left_by o).snaps
left_by-AreGolden key (done a b fs) (result _ _ _ h) = h
left_by-AreGolden key (failed b fs) (error _ _ h) = h
left_by-AreGolden key (died b) (crash _ h) = h

-- After any builds, whatever failed in them and wherever the daemon died, and whatever the box wrote,
-- each snapshot of a builder is named by a checkout's key, and was taken of a workspace that this
-- checkout was copied into, on which the box ran and was stopped, and that StripSource's loop went
-- through with that checkout's list after that.
pub Built-AreGolden :
    (key : Work → Option Bytes) (b : Builder) → Built key b → AreGolden key b.snaps
Built-AreGolden key _ absent = tt
Built-AreGolden key _ (build {b = b} found src fs r) =
    left_by-AreGolden key (build_golden key found src b fs)
      (build_golden-After key found src b fs (Built-AreGolden key b r))
Built-AreGolden key _ (write {b = b} r) = elim (Bool-cases b.up) [
  | inl y ↦ rw y (Built-AreGolden key b r)
  | inr n ↦ rw n (Built-AreGolden key b r)
]

abbrev HasKey : Bytes → Builder → Type 0
HasKey k b = has_key k b.snaps ≡ true

drop_beyond-calm :
    (n : ℕ) (k : Bytes) (w : Work) (ss : List (Bytes × Work)) (b : Builder)
    → b.snaps ≡ (k, w) ∷ ss
    → (v : Builder) × (drop_beyond n b [] ≡ done tt v []) × (has_key k v.snaps ≡ true)
unfolding drop_beyond call has_key without_at
drop_beyond-calm zero k w ss b h =
    (b, refl, subst (λ s. has_key k s ≡ true) (sym h) (rw (equal_refl k) refl))
drop_beyond-calm (suc n) k w ss b h =
    drop_beyond-calm n k w (without_at 49 ss) (record b { snaps = without_at keep_turns b.snaps })
      (ap (without_at keep_turns) h)

abbrev copied_in : ℕ → Builder → Builder
copied_in c b = record b { work = copied c; listed = some c }

-- What stripping gives is the checkout's, so it is a golden snapshot.
abbrev kept_as : ℕ → Bytes → Builder → Builder
kept_as c k b = record b {
  work = stripped c;
  listed = none;
  up = false;
  snaps = (k, stripped c) ∷ b.snaps;
}

prune-calm :
    (c : ℕ) (k : Bytes) (b : Builder)
    → (v : Builder) × ((try prune >>= λ _ v gs. done tt v gs) (kept_as c k b) [] ≡ done tt v [])
      × HasKey k v
unfolding prune call
prune-calm c k b =
    let (v, e, h) =
      drop_beyond-calm (count_beyond keep_turns ((k, stripped c) ∷ b.snaps)) k (stripped c) b.snaps
        (kept_as c k b) refl in
    (v, ap (λ o. go_on (caught o) (λ _ v gs. done tt v gs)) e, h)

run_and_keep-calm :
    (c : ℕ) (k : Bytes) (b : Builder)
    → has_key k b.snaps ≡ false
    → (v : Builder) × (run_and_keep k (copied_in c b) [] ≡ done tt v []) × HasKey k v
unfolding call wake_box stop_box strip_source take_snapshot
run_and_keep-calm c k b n =
    let (v, e, h) = prune-calm c k b in
    let same : c == c ≡ true = ground arith in (v, rw (same, n) e, h)

source-calm :
    (key : Work → Option Bytes) (c : ℕ) (k : Bytes) (b : Builder)
    → key (copied c) ≡ some k
    → (v : Builder) × ((build_source c >> read_key key >>= λ k. has_snapshot k >>= unless_there k) b
          []
        ≡ done tt v [])
      × HasKey k v
unfolding call build_source has_snapshot
source-calm key c k b e = elim (Bool-cases (has_key k b.snaps)) [
  | inl y ↦ (copied_in c b, rw (e, y) refl, y)
  | inr n ↦ let (v, f, h) = run_and_keep-calm c k b n in (v, rw (e, n) f, h)
]

-- A build of a source that is there and whose checkout has a key, in which nothing goes wrong, ends,
-- whatever the builder was before, and the builder then has a snapshot under that key.
pub build_golden-calm :
    (key : Work → Option Bytes) (c : ℕ) (k : Bytes) (b : Builder)
    → key (copied c) ≡ some k
    → (v : Builder) × (build_golden key true (some c) b [] ≡ done tt v [])
      × (has_key k v.snaps ≡ true)
unfolding build_golden call create stop_box
build_golden-calm key c k b e = elim (Bool-cases b.exists) [
  | inl y ↦
      let (v, f, h) = source-calm key c k (record b { exists = true; up = false }) e in
      (v, rw y f, h)
  | inr n ↦
      let (v, f, h) =
        source-calm key c k (record b { exists = true; work = other; listed = none; up = false })
          e in
      (v, rw n f, h)
]
