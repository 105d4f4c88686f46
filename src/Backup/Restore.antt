-- ===== src/Backup/Restore.antt =====
-- Bringing a backup into a new server's pool (Restore and receive of internal/backup/state.go).
pub mod Sound
pub mod History
use fern.Prelude.{
  ℕ, suc, ◌+◌, ◌==◌, Bool, true, false, ◌&&◌, ◌||◌, Option, none, some, List, [], ◌∷◌, Bytes,
  if◌then◌else◌,
}
use fern.Backup.Bucket.{SendStream, Send, EnvBackup, Manifest, Bucket, stream_at}
use fern.Backup.Send.{last_snapshot}
use fern.Backup.Once.{manifest_or_empty, has_number}

-- The snapshots in a folder, with the files each holds.
abbrev pub Folder : Type 0
Folder = List (ℕ × ℕ)

abbrev pub holds_snapshot : ℕ → Folder → Bool
holds_snapshot n [] = false
holds_snapshot n ((m, t) ∷ rs) = n == m || holds_snapshot n rs

abbrev pub has_parent : Option (ℕ × ℕ) → Folder → Bool
has_parent none rs = true
has_parent (some (p, t)) [] = false
has_parent (some (p, t)) ((m, u) ∷ rs) = (p == m && t == u) || has_parent (some (p, t)) rs

unfoldable pub files_of : ℕ → Folder → Option ℕ
files_of n [] = none
files_of n ((m, t) ∷ rs) = if n == m then some t else files_of n rs

abbrev pub received : ℕ → Folder → Option SendStream → Option Folder
received n rs none = none
received n rs (some x) =
    if has_parent x.parent rs
    then (if holds_snapshot n rs then none else some ((n, x.tree) ∷ rs))
    else none

-- `receive`: btrfs receive makes the stream's snapshot, from the parent that the stream is from.
unfoldable pub receive : Bucket → Send → Folder → Option Folder
unfolding stream_at
receive b s rs = received s.snapshot rs (stream_at s.id s.snapshot b.streams)

abbrev pub then_all : (Folder → Option Folder) → Option Folder → Option Folder
then_all f none = none
then_all f (some rs) = f rs

unfoldable pub receive_all : Bucket → List Send → Folder → Option Folder
unfolding receive
receive_all b [] rs = some rs
receive_all b (s ∷ chain) rs = then_all (receive_all b chain) (receive b s rs)

-- Why it ends early: the pool has environments, there is no backup, an object or a snapshot is not
-- there or is not one to receive, a workspace is not in the pool, or a chain is empty.
pub data Trouble : Type 0 where
  occupied no_backup_there broken : Trouble
  outside panicked : Bytes → Trouble

-- The workspaces: of each environment, the path in the pool and the files.
pub data Placed : Type 0 where
  halted : Trouble → Placed
  placed : List (Bytes × Bytes × ℕ) → Placed

-- The workspaces, and the archive of the state around them.
pub data Restored : Type 0 where
  stops : Trouble → Restored
  restored : List (Bytes × Bytes × ℕ) → ℕ → Restored

abbrev pub and_then : Bytes × Bytes × ℕ → Placed → Placed
and_then w (halted e) = halted e
and_then w (placed ws) = placed (w ∷ ws)

abbrev pub placed_at : Bytes → Bytes → Option ℕ → Placed → Placed
placed_at id path none rest = halted broken
placed_at id path (some t) rest = and_then (id, path, t) rest

module _ (is_local : Bytes → Bool) where
  -- A workspace is a snapshot of the last one received.
  abbrev pub from_last : Bytes → Bytes → Folder → Option ℕ → Placed → Placed
  from_last id path rs none rest = halted (panicked id)
  from_last id path rs (some n) rest =
      if is_local path then placed_at id path (files_of n rs) rest else halted (outside id)

  abbrev pub from_folder : Bytes → EnvBackup → Option Folder → Placed → Placed
  from_folder id eb none rest = halted broken
  from_folder id eb (some rs) rest = from_last id eb.workspace rs (last_snapshot eb.chain) rest

  -- The loop over the manifest's environments, in the order that it takes them.
  unfoldable pub each_workspace : Bucket → List (Bytes × EnvBackup) → Placed
  unfolding receive_all files_of last_snapshot
  each_workspace b [] = placed []
  each_workspace b ((id, eb) ∷ es) =
      from_folder id eb (receive_all b eb.chain []) (each_workspace b es)

  abbrev pub with_state : ℕ → Bool → Placed → Restored
  with_state n there (halted e) = stops e
  with_state n true (placed ws) = restored ws n
  with_state n false (placed ws) = stops broken

  abbrev pub restore_from : Bucket → Manifest → Option ℕ → Restored
  restore_from b m none = stops no_backup_there
  restore_from b m (some n) = with_state n (has_number n b.archives) (each_workspace b m.envs)

  -- Restore: `entries` says that the pool has environments.
  unfoldable pub restore_pool : Bool → Bucket → Restored
  unfolding each_workspace
  restore_pool true b = stops occupied
  restore_pool false b = let m = manifest_or_empty b.manifest in restore_from b m m.archive
