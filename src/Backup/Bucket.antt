-- ===== src/Backup/Bucket.antt =====
-- What a backup works on: the node's environments on btrfs, and its objects in a bucket
-- (internal/backup/backup.go and s3.go; internal/store and the actors behind it).
use fern.Prelude.{
  ℕ, suc, ◌==◌, Bool, true, false, ◌&&◌, Option, none, some, List, [], ◌∷◌, Bytes, if◌then◌else◌,
  equal,
}
use fern.Sets.{value_of, store}

-- A snapshot's name: snapPrefix and a time in nanoseconds, snapPrefix and anything else, or a name
-- that does not start so.
pub data Name : Type 0 where
  taken_at : ℕ → Name
  stray kept : Bytes → Name

-- A snapshot: its files, and the transaction that it was taken in.
pub record Taken : Type 0 where
  pub tree : ℕ
  pub created : ℕ

-- An environment: its workspace's files, the transaction of their last change, its path in the pool,
-- if it is in it, and its snapshots.
pub record Env : Type 0 where
  pub tree : ℕ
  pub generation : ℕ
  pub path : Option Bytes
  pub snaps : List (Name × Taken)

-- A stream of btrfs send: the snapshot that it starts from, and what that held, if it is not full; and
-- the files that it makes.
pub record SendStream : Type 0 where
  pub parent : Option (ℕ × ℕ)
  pub tree : ℕ

-- The key of an object under the node's prefix.
pub data Key : Type 0 where
  manifest_key : Key
  state_key : ℕ → Key
  stream_key : Bytes → ℕ → Key
  other_key : ℕ → Key

-- Send, less the size.
pub record Send : Type 0 where
  pub snapshot : ℕ
  pub id : Bytes

pub record EnvBackup : Type 0 where
  pub workspace : Bytes
  pub generation : ℕ
  pub chain : List Send

-- Manifest, less the time. No state is "".
pub record Manifest : Type 0 where
  pub archive : Option ℕ
  pub envs : List (Bytes × EnvBackup)

-- The bucket, by the form of its keys.
pub record Bucket : Type 0 where
  pub manifest : Option Manifest
  pub archives : List ℕ
  pub streams : List (Bytes × ℕ × SendStream)
  pub others : List ℕ

-- `clock` is btrfs's transaction, `now` a time that is after every reading of it.
pub record State : Type 0 where
  pub bucket : Bucket
  pub envs : List (Bytes × Env)
  pub clock : ℕ
  pub now : ℕ

unfoldable pub stream_at : Bytes → ℕ → List (Bytes × ℕ × SendStream) → Option SendStream
stream_at id n [] = none
stream_at id n ((i, m, s) ∷ ss) = if equal id i && n == m then some s else stream_at id n ss

unfoldable pub without_stream :
    Bytes → ℕ → List (Bytes × ℕ × SendStream) → List (Bytes × ℕ × SendStream)
without_stream id n [] = []
without_stream id n ((i, m, s) ∷ ss) =
    let rest = without_stream id n ss in if equal id i && n == m then rest else (i, m, s) ∷ rest

abbrev pub same_name : Name → Name → Bool
same_name (taken_at n) (taken_at m) = n == m
same_name (stray s) (stray t) = equal s t
same_name (kept s) (kept t) = equal s t
same_name (taken_at n) (stray t) = false
same_name (taken_at n) (kept t) = false
same_name (stray s) (taken_at m) = false
same_name (stray s) (kept t) = false
same_name (kept s) (taken_at m) = false
same_name (kept s) (stray t) = false

unfoldable pub snap_at : Name → List (Name × Taken) → Option Taken
snap_at a [] = none
snap_at a ((b, x) ∷ ss) = if same_name a b then some x else snap_at a ss

unfoldable pub without_snap : Name → List (Name × Taken) → List (Name × Taken)
without_snap a [] = []
without_snap a ((b, x) ∷ ss) =
    let rest = without_snap a ss in if same_name a b then rest else (b, x) ∷ rest

unfoldable pub without_env : Bytes → List (Bytes × Env) → List (Bytes × Env)
without_env id [] = []
without_env id ((i, e) ∷ es) =
    let rest = without_env id es in if equal id i then rest else (i, e) ∷ rest

-- What others do to the node meanwhile: a box writes, a snapshot is deleted, an environment is made
-- or deleted.
pub data Change : Type 0 where
  writes : Bytes → ℕ → Change
  drops : Bytes → Name → Change
  makes : Bytes → ℕ → Option Bytes → Change
  deletes : Bytes → Change

abbrev pub with_env : Bytes → (Env → Env) → Option Env → State → State
with_env id f none s = s
with_env id f (some e) s = record s { envs = store id (f e) s.envs }

unfoldable pub changed : Change → State → State
unfolding value_of store without_snap without_env
changed (writes id t) s =
    with_env id (λ e. record e { tree = t; generation = suc s.clock }) (value_of id s.envs)
      (record s { clock = suc s.clock })
changed (drops id a) s =
    with_env id (λ e. record e { snaps = without_snap a e.snaps }) (value_of id s.envs) s
changed (makes id t p) s = record s {
  envs =
      store id (record { tree = t; generation = suc s.clock; path = p; snaps = [] })
        (without_env id s.envs);
  clock = suc s.clock;
}
changed (deletes id) s = record s { envs = without_env id s.envs }

unfoldable pub changed_all : List Change → State → State
unfolding changed
changed_all [] s = s
changed_all (c ∷ cs) s = changed_all cs (changed c s)

-- How a call ends, after what others did: it goes as it should, or it fails or the daemon dies at it,
-- with or without what it was to do being done.
pub data How : Type 0 where
  goes : How
  fails dies : Bool → How

pub record Fate : Type 0 where
  pub before : List Change
  pub how : How

pub data Outcome {ℓ} (A : Type ℓ) : Type ℓ where
  done : A → State → List Fate → Outcome A
  failed : State → List Fate → Outcome A
  died : State → Outcome A

abbrev pub Io {ℓ} : Type ℓ → Type ℓ
Io A = State → List Fate → Outcome A

module _ {ℓ} {A : Type ℓ} where
  abbrev pub give : A → Io A
  give a s fs = done a s fs

  abbrev pub fail : Io A
  fail s fs = failed s fs

  abbrev pub from_option : Option A → Io A
  from_option none = fail
  from_option (some a) = give a

  abbrev pub caught : Outcome A → Outcome (Option A)
  caught (done a s fs) = done (some a) s fs
  caught (failed s fs) = done none s fs
  caught (died s) = died s

  -- An error that the caller goes on from.
  abbrev pub try : Io A → Io (Option A)
  try m s fs = caught (m s fs)

  abbrev pub ended : (State → A × State) → How → State → List Fate → Outcome A
  ended f goes s fs = done (f s).0 (f s).1 fs
  ended f (fails true) s fs = failed (f s).1 fs
  ended f (fails false) s fs = failed s fs
  ended f (dies true) s fs = died (f s).1
  ended f (dies false) s fs = died s

  abbrev pub called : (State → A × State) → List Fate → State → Outcome A
  called f [] s = done (f s).0 (f s).1 []
  called f (fate ∷ fs) s = ended f fate.how (changed_all fate.before s) fs

  unfoldable pub call : (State → A × State) → Io A
  call f s fs = called f fs s

module _ {ℓ κ} {A : Type ℓ} {B : Type κ} where
  abbrev pub go_on : Outcome A → (A → Io B) → Outcome B
  go_on (done a s fs) f = f a s fs
  go_on (failed s fs) f = failed s fs
  go_on (died s) f = died s

  infixl 5 ◌>>=◌
  abbrev pub ◌>>=◌ : Io A → (A → Io B) → Io B
  (m >>= f) s fs = go_on (m s fs) f

infixl 5 ◌>>◌
abbrev pub ◌>>◌ {κ} : {B : Type κ} → Io (Unit {0}) → Io B → Io B
m >> k = m >>= λ _. k
