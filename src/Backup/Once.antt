-- ===== src/Backup/Once.antt =====
-- One backup of a node (Once, state, sweep and save of internal/backup/backup.go).
pub mod Sound
pub mod Changes
pub mod Ends
pub mod Streams
pub mod Node
pub mod Sending
pub mod Workspace
pub mod Manifests
pub mod Sweep
pub mod Whole
use fern.Prelude.{
  if◌then◌else◌, ℕ, ◌+◌, ◌==◌, Bool, true, false, not, ◌&&◌, ◌||◌, Option, none, some, List, [],
  ◌∷◌, ◌++◌, Bytes, equal,
}
use fern.Sets.{value_of, store, listed}
use fern.Ids.{is_builder}
use fern.Backup.Bucket.{
  Env, SendStream, Key, manifest_key, state_key, stream_key, other_key, Send, EnvBackup, Manifest,
  Bucket, State, without_stream, Io, give, fail, try, call, ◌>>=◌, ◌>>◌,
}
use fern.Backup.Send.{tick, env_backup}

abbrev pub no_backup : EnvBackup
no_backup = record { workspace = []; generation = 0; chain = [] }

abbrev pub backup_of : Option EnvBackup → EnvBackup
backup_of none = no_backup
backup_of (some eb) = eb

abbrev pub with_backup : Bytes → EnvBackup → Manifest → Manifest
with_backup id eb m = record m { envs = store id eb m.envs }

-- readManifest
abbrev pub manifest_or_empty : Option Manifest → Manifest
manifest_or_empty none = record { archive = none; envs = [] }
manifest_or_empty (some m) = m

unfoldable pub read_manifest : Io Manifest
unfolding call
read_manifest = call (λ s. (manifest_or_empty s.bucket.manifest, s))

unfoldable pub save : Manifest → Io (Unit {0})
unfolding call
save m = call (λ s. (tt, record s { bucket = record s.bucket { manifest = some m } }))

abbrev pub listing : List (Bytes × Env) → List (Bytes × Option Bytes)
listing [] = []
listing ((id, e) ∷ es) = (id, e.path) ∷ listing es

unfoldable pub list_envs : Io (List (Bytes × Option Bytes))
unfolding call
list_envs = call (λ s. (listing s.envs, s))

-- The loop over environments; an error of one is for the end.
abbrev pub after_env :
    Bytes → Manifest → (Manifest → Io (Manifest × Bool)) → Option EnvBackup → Io (Manifest × Bool)
after_env id m next none = next m >>= λ r. give (r.0, true)
after_env id m next (some eb) = save (with_backup id eb m) >> next (with_backup id eb m)

unfoldable pub each_env : List (Bytes × Option Bytes) → Manifest → Io (Manifest × Bool)
unfolding env_backup save value_of store is_builder
each_env [] m = give (m, false)
each_env ((id, path) ∷ es) m =
    let next = each_env es in
    if is_builder id
    then next m
    else try (env_backup id path (backup_of (value_of id m.envs))) >>= after_env id m next

unfoldable pub live_ids : List (Bytes × Option Bytes) → List Bytes
unfolding is_builder
live_ids [] = []
live_ids ((id, path) ∷ es) = if is_builder id then live_ids es else id ∷ live_ids es

unfoldable pub only_live : List Bytes → List (Bytes × EnvBackup) → List (Bytes × EnvBackup)
unfolding listed
only_live live [] = []
only_live live ((id, eb) ∷ es) =
    let rest = only_live live es in if listed id live then (id, eb) ∷ rest else rest

abbrev pub put_archive : ℕ → State → ℕ × State
put_archive n s = (n, record s { bucket = record s.bucket { archives = n ∷ s.bucket.archives } })

-- `state`: the copies, their archive and its upload are one call.
unfoldable pub take_archive : Io ℕ
unfolding call
take_archive = tick >>= λ n. call (put_archive n)

unfoldable pub names_send : Bytes → ℕ → List Send → Bool
names_send id n [] = false
names_send id n (s ∷ ss) = (equal id s.id && n == s.snapshot) || names_send id n ss

unfoldable pub names_stream : Bytes → ℕ → List (Bytes × EnvBackup) → Bool
unfolding names_send
names_stream id n [] = false
names_stream id n ((i, eb) ∷ es) = names_send id n eb.chain || names_stream id n es

abbrev pub is_archive : Option ℕ → ℕ → Bool
is_archive none n = false
is_archive (some m) n = n == m

unfoldable pub keep : Manifest → Key → Bool
unfolding names_stream
keep m manifest_key = true
keep m (state_key n) = is_archive m.archive n
keep m (stream_key id n) = names_stream id n m.envs
keep m (other_key n) = false

abbrev pub without_number : ℕ → List ℕ → List ℕ
without_number n [] = []
without_number n (m ∷ ms) = let rest = without_number n ms in if n == m then rest else m ∷ rest

abbrev pub has_number : ℕ → List ℕ → Bool
has_number n [] = false
has_number n (m ∷ ms) = n == m || has_number n ms

abbrev pub removed : Key → Bucket → Bucket
removed manifest_key b = record b { manifest = none }
removed (state_key n) b = record b { archives = without_number n b.archives }
removed (stream_key id n) b = record b { streams = without_stream id n b.streams }
removed (other_key n) b = record b { others = without_number n b.others }

unfoldable pub delete_object : Key → Io (Unit {0})
unfolding call without_stream
delete_object k = call (λ s. (tt, record s { bucket = removed k s.bucket }))

abbrev pub state_keys : List ℕ → List Key
state_keys [] = []
state_keys (n ∷ ns) = state_key n ∷ state_keys ns

abbrev pub other_keys : List ℕ → List Key
other_keys [] = []
other_keys (n ∷ ns) = other_key n ∷ other_keys ns

abbrev pub stream_keys : List (Bytes × ℕ × SendStream) → List Key
stream_keys [] = []
stream_keys ((id, n, x) ∷ ss) = stream_key id n ∷ stream_keys ss

abbrev pub manifest_keys : Option Manifest → List Key
manifest_keys none = []
manifest_keys (some m) = manifest_key ∷ []

abbrev pub keys : Bucket → List Key
keys b =
    stream_keys b.streams
    ++ (manifest_keys b.manifest ++ (other_keys b.others ++ state_keys b.archives))

abbrev pub failed_too : Option (Unit {0}) → Bool → Bool
failed_too none failing = true
failed_too (some tt) failing = failing

-- Whether a deletion failed.
unfoldable pub delete_others : Manifest → List Key → Io Bool
unfolding keep delete_object
delete_others m [] = give false
delete_others m (k ∷ ks) =
    let rest = delete_others m ks in
    if keep m k
    then rest
    else try (delete_object k) >>= λ r. rest >>= λ failing. give (failed_too r failing)

unfoldable pub sweep : Manifest → Io Bool
unfolding call delete_others
sweep m = call (λ s. (keys s.bucket, s)) >>= delete_others m

abbrev pub unless_failing : Bool → Io (Unit {0})
unless_failing true = fail
unless_failing false = give tt

abbrev pub sweep_failed : Option Bool → Bool
sweep_failed none = true
sweep_failed (some failing) = failing

-- What is left to do once the environments are in the manifest: without those that are gone, the state
-- and the sweep. `failing` says that one could not be backed up, `swept` that the sweep failed.
abbrev pub complete : List Bytes → Manifest × Bool → Io (Unit {0})
complete live (m, failing) = take_archive >>= λ n.
    let whole = record m { envs = only_live live m.envs; archive = some n } in
    save whole >> (try (sweep whole) >>= λ swept. unless_failing (failing || sweep_failed swept))

-- Once
unfoldable pub once : Io (Unit {0})
unfolding read_manifest list_envs each_env live_ids only_live take_archive save sweep
once = read_manifest >>= λ m. list_envs >>= λ es. each_env es m >>= complete (live_ids es)
