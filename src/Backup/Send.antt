-- ===== src/Backup/Send.antt =====
-- The backup of one environment (env and send of internal/backup/backup.go).
use fern.Prelude.{
  if◌then◌else◌, ℕ, suc, ◌==◌, Bool, true, false, not, ◌&&◌, Option, none, some, List, [], ◌∷◌,
  ◌++◌, Bytes, ltb, length, is_empty,
}
use fern.Sets.{value_of, store}
use fern.Backup.Bucket.{
  Name, taken_at, stray, kept, same_name, Taken, Env, SendStream, Send, EnvBackup, State,
  without_stream, snap_at, without_snap, done, Io, give, fail, from_option, try, call, ◌>>=◌, ◌>>◌,
}

-- How many incremental sends follow a full one: 7 * 24.
abbrev pub max_chain : ℕ
max_chain = 168

abbrev pub seen {ℓ} : {A : Type ℓ} → (Env → A) → Option Env → Option A
seen f none = none
seen f (some e) = some (f e)

-- `generation`
unfoldable pub generation_of : Bytes → Io ℕ
unfolding call value_of
generation_of id = call (λ s. (seen (λ e. e.generation) (value_of id s.envs), s)) >>= from_option

abbrev pub names : List (Name × Taken) → List Name
names [] = []
names ((a, x) ∷ ss) = a ∷ names ss

unfoldable pub names_of : Bytes → Io (List Name)
unfolding call value_of
names_of id = call (λ s. (seen (λ e. names e.snaps) (value_of id s.envs), s)) >>= from_option

abbrev pub dropped_from :
    Bytes → Name → State → Option Env → Option Taken → Option (Unit {0}) × State
dropped_from id a s none x = (none, s)
dropped_from id a s (some e) none = (some tt, s)
dropped_from id a s (some e) (some x) =
    (some tt, record s { envs = store id (record e { snaps = without_snap a e.snaps }) s.envs })

abbrev pub found_in : Name → Option Env → Option Taken
found_in a none = none
found_in a (some e) = snap_at a e.snaps

abbrev pub drop_snap : Bytes → Name → State → Option (Unit {0}) × State
drop_snap id a s = dropped_from id a s (value_of id s.envs) (found_in a (value_of id s.envs))

-- DeleteSnapshot, by the environment's actor: a snapshot that is missing is no error.
unfoldable pub delete_snap : Bytes → Name → Io (Unit {0})
unfolding call value_of store snap_at without_snap
delete_snap id a = call (drop_snap id a) >>= from_option

abbrev pub is_parent : Name → Option ℕ → Bool
is_parent a none = false
is_parent a (some n) = same_name a (taken_at n)

-- What a backup that stopped left, and a parent that is no longer one, is deleted; whether the parent
-- is there.
unfoldable pub leftovers : Bytes → Option ℕ → List Name → Io Bool
unfolding delete_snap
leftovers id parent [] = give false
leftovers id parent (kept s ∷ rest) = leftovers id parent rest
leftovers id parent (stray s ∷ rest) = delete_snap id (stray s) >> leftovers id parent rest
leftovers id parent (taken_at n ∷ rest) =
    let there = leftovers id parent rest >>= λ _. give true in
    let gone = delete_snap id (taken_at n) >> leftovers id parent rest in
    if is_parent (taken_at n) parent then there else gone

unfoldable pub last_snapshot : List Send → Option ℕ
last_snapshot [] = none
last_snapshot (s ∷ []) = some s.snapshot
last_snapshot (s ∷ t ∷ ss) = last_snapshot (t ∷ ss)

unfoldable pub parent_of : List Send → Option ℕ
unfolding last_snapshot
parent_of chain = if ltb (length chain) max_chain then last_snapshot chain else none

-- time.Now().UnixNano()
abbrev pub tick : Io ℕ
tick s fs = done s.now (record s { now = suc s.now }) fs

abbrev pub taken_of : Bytes → ℕ → State → Env → Option Taken → Option (Unit {0}) × State
taken_of id n s e (some x) = (none, s)
taken_of id n s e none = (
  some tt,
  record s {
    envs =
        store id
          (record e {
            generation = suc s.clock;
            snaps = (taken_at n, record { tree = e.tree; created = suc s.clock }) ∷ e.snaps;
          })
          s.envs;
    clock = suc s.clock;
  },
)

abbrev pub env_snapshot : Bytes → ℕ → State → Option Env → Option (Unit {0}) × State
env_snapshot id n s none = (none, s)
env_snapshot id n s (some e) = taken_of id n s e (snap_at (taken_at n) e.snaps)

-- Snapshot, by the environment's actor: it moves the workspace's generation to its own.
unfoldable pub take_snap : Bytes → ℕ → Io (Unit {0})
unfolding call value_of store snap_at
take_snap id n = call (λ s. env_snapshot id n s (value_of id s.envs)) >>= from_option

abbrev pub put_stream : Bytes → ℕ → SendStream → State → Option (Unit {0}) × State
put_stream id n x s = (
  some tt,
  record s {
    bucket = record s.bucket { streams = (id, n, x) ∷ without_stream id n s.bucket.streams };
  },
)

abbrev pub stream_from : Bytes → ℕ → ℕ → State → Taken → Option Taken → Option (Unit {0}) × State
stream_from id n p s x none = (none, s)
stream_from id n p s x (some y) =
    put_stream id n (record { parent = some (p, y.tree); tree = x.tree }) s

abbrev pub stream_of : Bytes → ℕ → Option ℕ → State → Env → Option Taken → Option (Unit {0}) × State
stream_of id n parent s e none = (none, s)
stream_of id n none s e (some x) = put_stream id n (record { parent = none; tree = x.tree }) s
stream_of id n (some p) s e (some x) = stream_from id n p s x (snap_at (taken_at p) e.snaps)

abbrev pub send_env : Bytes → ℕ → Option ℕ → State → Option Env → Option (Unit {0}) × State
send_env id n parent s none = (none, s)
send_env id n parent s (some e) = stream_of id n parent s e (snap_at (taken_at n) e.snaps)

-- btrfs send of a snapshot, from `parent` if there is one, put as an object.
unfoldable pub send : Bytes → ℕ → Option ℕ → Io (Unit {0})
unfolding call value_of snap_at without_stream
send id n parent = call (λ s. send_env id n parent s (value_of id s.envs)) >>= from_option

abbrev pub creation : Option Taken → Option ℕ
creation none = none
creation (some x) = some x.created

-- createdAt
unfoldable pub created_at : Bytes → ℕ → Io ℕ
unfolding call value_of snap_at
created_at id n =
    call (λ s. (creation (found_in (taken_at n) (value_of id s.envs)), s)) >>= from_option

abbrev pub full_or_more : Option ℕ → List Send → Send → List Send
full_or_more none chain s = s ∷ []
full_or_more (some p) chain s = chain ++ s ∷ []

-- The old parent's snapshot is not needed any more; that it stays is no error.
abbrev pub drop_parent : Bytes → Option ℕ → Io (Option (Unit {0}))
drop_parent id none = give none
drop_parent id (some p) = try (delete_snap id (taken_at p))

-- filepath.Rel of a workspace that is in the pool
abbrev pub in_pool : Bytes → EnvBackup → Option ℕ → ℕ → ℕ → Option Bytes → Io EnvBackup
in_pool id eb parent n created none = fail
in_pool id eb parent n created (some path) = give (record {
  workspace = path;
  generation = created;
  chain = full_or_more parent eb.chain (record { snapshot = n; id = id });
})

abbrev pub finish : Bytes → Option Bytes → EnvBackup → Option ℕ → ℕ → Io EnvBackup
finish id path eb parent n = created_at id n >>= λ created.
    drop_parent id parent >>= λ _. in_pool id eb parent n created path

abbrev pub after_send :
    Bytes → Option Bytes → EnvBackup → Option ℕ → ℕ → Option (Unit {0}) → Io EnvBackup
after_send id path eb parent n none = try (delete_snap id (taken_at n)) >>= λ _. fail
after_send id path eb parent n (some tt) = finish id path eb parent n

abbrev pub send_from : Bytes → Option Bytes → EnvBackup → Option ℕ → Io EnvBackup
send_from id path eb parent =
    tick >>= λ n. take_snap id n >> (try (send id n parent) >>= after_send id path eb parent n)

abbrev pub send_changes : Bytes → Option Bytes → EnvBackup → Io EnvBackup
send_changes id path eb = names_of id >>= λ names.
    leftovers id (parent_of eb.chain) names >>= λ there.
    send_from id path eb (if there then parent_of eb.chain else none)

-- `env`
unfoldable pub env_backup : Bytes → Option Bytes → EnvBackup → Io EnvBackup
unfolding generation_of names_of leftovers parent_of take_snap send created_at delete_snap
env_backup id path eb = generation_of id >>= λ gen.
    if not (is_empty eb.chain) && gen == eb.generation then give eb else send_changes id path eb
