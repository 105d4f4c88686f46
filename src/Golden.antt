-- ===== src/Golden.antt =====
-- Golden builds (buildGolden of internal/actor/golden.go, and BuildSource and StripSource of
-- internal/store/golden.go): a builder environment's workspace, its box and its snapshots.
pub mod Calls
pub mod Sound
pub mod Builds
pub mod Strip
use fern.Prelude.{
  ℕ, zero, suc, Bool, true, false, ◌&&◌, ◌||◌, ◌==◌, Option, none, some, List, [], ◌∷◌, Bytes,
  if◌then◌else◌, equal,
}

-- What was done to a builder's workspace: there is none, a checkout was copied in, its box ran on it,
-- StripSource then began or came through its loop with that checkout's list, or anything else. The
-- files themselves are in Golden/Strip.
pub data Work : Type 0 where
  gone other : Work
  copied used half stripped : ℕ → Work

-- `listed` is the source list, by its checkout; `up` says that the box runs.
pub record Builder : Type 0 where
  pub exists : Bool
  pub work : Work
  pub listed : Option ℕ
  pub up : Bool
  pub snaps : List (Bytes × Work)

-- A box that runs writes its workspace.
abbrev pub written : Work → Work
written gone = gone
written other = other
written (copied c) = used c
written (used c) = used c
written (half c) = half c
written (stripped c) = other

-- How a call ends: as it should, or with an error or the daemon's death, with or without what it was
-- to do being done; and whether the box, if it runs, writes before it.
pub data How : Type 0 where
  goes : How
  fails dies : Bool → How

pub record Fate : Type 0 where
  pub writes : Bool
  pub how : How

pub data Outcome (A : Type 0) : Type 0 where
  done : A → Builder → List Fate → Outcome A
  failed : Builder → List Fate → Outcome A
  died : Builder → Outcome A

abbrev pub Io : Type 0 → Type 0
Io A = Builder → List Fate → Outcome A

abbrev pub by_box : Bool → Builder → Builder
by_box writes b = if b.up && writes then record b { work = written b.work } else b

module _ {A : Type 0} where
  abbrev pub give : A → Io A
  give a b fs = done a b fs

  abbrev pub fail : Io A
  fail b fs = failed b fs

  abbrev pub from_option : Option A → Io A
  from_option none = fail
  from_option (some a) = give a

  abbrev pub caught : Outcome A → Outcome (Option A)
  caught (done a b fs) = done (some a) b fs
  caught (failed b fs) = done none b fs
  caught (died b) = died b

  abbrev pub try : Io A → Io (Option A)
  try m b fs = caught (m b fs)

  abbrev pub ended : (Builder → Option A × Builder) → How → Builder → List Fate → Outcome A
  ended f goes b fs = from_option (f b).0 (f b).1 fs
  ended f (fails true) b fs = failed (f b).1 fs
  ended f (fails false) b fs = failed b fs
  ended f (dies true) b fs = died (f b).1
  ended f (dies false) b fs = died b

  abbrev pub called : (Builder → Option A × Builder) → List Fate → Builder → Outcome A
  called f [] b = ended f goes b []
  called f (x ∷ fs) b = ended f x.how (by_box x.writes b) fs

  unfoldable pub call : (Builder → Option A × Builder) → Io A
  call f b fs = called f fs b

module _ {A B : Type 0} where
  abbrev pub go_on : Outcome A → (A → Io B) → Outcome B
  go_on (done a b fs) f = f a b fs
  go_on (failed b fs) f = failed b fs
  go_on (died b) f = died b

  infixl 5 ◌>>=◌
  abbrev pub ◌>>=◌ : Io A → (A → Io B) → Io B
  (m >>= f) b fs = go_on (m b fs) f

infixl 5 ◌>>◌
abbrev pub ◌>>◌ : {B : Type 0} → Io (Unit {0}) → Io B → Io B
m >> k = m >>= λ _. k

abbrev pub all_done : Builder → Option (Unit {0}) × Builder
all_done b = (some tt, b)

-- Create, of a builder: one that is there stays.
unfoldable pub create : Io (Unit {0})
unfolding call
create =
    call λ b.
      all_done (if b.exists then b else record b { exists = true; work = other; listed = none })

-- stopBox
unfoldable pub stop_box : Io (Unit {0})
unfolding call
stop_box = call λ b. all_done (record b { up = false })

-- wake: the box runs, and so do its services.
unfoldable pub wake_box : Io (Unit {0})
unfolding call
wake_box = call λ b. all_done (record b { up = true; work = written b.work })

-- BuildSource: the list, then the workspace anew.
unfoldable pub build_source : ℕ → Io (Unit {0})
unfolding call
build_source c =
    call (λ b. all_done (record b { listed = some c }))
    >> call (λ b. all_done (record b { work = gone }))
    >> call (λ b. all_done (record b { work = copied c }))

abbrev pub stripped_some : Option ℕ → Work → Work
stripped_some none w = w
stripped_some (some c) (used d) = if c == d then half c else other
stripped_some (some c) (half d) = if c == d then half c else other
stripped_some (some c) gone = gone
stripped_some (some c) other = other
stripped_some (some c) (copied d) = other
stripped_some (some c) (stripped d) = other

abbrev pub stripped_all : Work → Work
stripped_all (half c) = stripped c
stripped_all gone = gone
stripped_all other = other
stripped_all (copied c) = copied c
stripped_all (used c) = used c
stripped_all (stripped c) = stripped c

-- StripSource as a step of the build: its loop begins, comes through, and then the list goes. What the
-- loop does to the files is in Golden/Strip.
unfoldable pub strip_source : Io (Unit {0})
unfolding call
strip_source =
    call (λ b. all_done (record b { work = stripped_some b.listed b.work }))
    >> call (λ b. all_done (record b { work = stripped_all b.work }))
    >> call (λ b. all_done (record b { listed = none }))

unfoldable pub has_key : Bytes → List (Bytes × Work) → Bool
has_key k [] = false
has_key k ((j, w) ∷ ss) = equal k j || has_key k ss

-- hasSnapshot: what it cannot learn counts as missing.
abbrev pub or_missing : Option Bool → Bool
or_missing none = false
or_missing (some b) = b

unfoldable pub has_snapshot : Bytes → Io Bool
unfolding call has_key
has_snapshot k = try (call λ b. (some (has_key k b.snaps), b)) >>= λ r. give (or_missing r)

abbrev pub with_snapshot : Bytes → Builder → Option (Unit {0}) × Builder
with_snapshot k b =
    if has_key k b.snaps then all_done b else all_done (record b { snaps = (k, b.work) ∷ b.snaps })

-- Snapshot, by the store: a snapshot that is there is no error.
unfoldable pub take_snapshot : Bytes → Io (Unit {0})
unfolding call has_key
take_snapshot k = call (with_snapshot k)

-- keepTurns
abbrev pub keep_turns : ℕ
keep_turns = 50

-- The snapshots beyond the newest `n`, which stand first.
unfoldable pub count_beyond : ℕ → List (Bytes × Work) → ℕ
count_beyond n [] = 0
count_beyond zero (x ∷ ss) = suc (count_beyond zero ss)
count_beyond (suc n) (x ∷ ss) = count_beyond n ss

unfoldable pub without_at : ℕ → List (Bytes × Work) → List (Bytes × Work)
without_at n [] = []
without_at zero (x ∷ ss) = ss
without_at (suc n) (x ∷ ss) = x ∷ without_at n ss

-- They are deleted one by one, the newest of them first.
unfoldable pub drop_beyond : ℕ → Io (Unit {0})
unfolding call without_at
drop_beyond zero = give tt
drop_beyond (suc n) =
    call (λ b. all_done (record b { snaps = without_at keep_turns b.snaps })) >> drop_beyond n

-- Prune, of a builder: it has no snapshots of before a restore.
unfoldable pub prune : Io (Unit {0})
unfolding call count_beyond drop_beyond
prune = call (λ b. (some (count_beyond keep_turns b.snaps), b)) >>= drop_beyond

-- The error of `wake` goes before the one of stopBox.
abbrev pub both : Option (Unit {0}) → Option (Unit {0}) → Io (Unit {0})
both none o = fail
both (some tt) none = fail
both (some tt) (some u) = give tt

-- The services' first start
abbrev pub first_start : Io (Unit {0})
first_start = try wake_box >>= λ woke. try stop_box >>= both woke

-- The snapshot of what they made. That old ones are not pruned is no error.
abbrev pub run_and_keep : Bytes → Io (Unit {0})
run_and_keep k = first_start >> strip_source >> take_snapshot k >> (try prune >>= λ _. give tt)

abbrev pub unless_there : Bytes → Bool → Io (Unit {0})
unless_there k true = give tt
unless_there k false = run_and_keep k

module _ (key : Work → Option Bytes) where
  -- setup.Key of the builder's workspace
  abbrev pub read_key : Io Bytes
  read_key = call λ b. (key b.work, b)

  -- buildGolden, of a source environment that is there, if `found` says so, and its snapshot's
  -- checkout, if it has one.
  unfoldable pub build_golden : Bool → Option ℕ → Io (Unit {0})
  unfolding call create stop_box build_source has_snapshot wake_box strip_source take_snapshot prune
  build_golden false src = fail
  build_golden true src = create >> stop_box >> from_option src >>= λ c.
      build_source c >> read_key >>= λ k. has_snapshot k >>= unless_there k
