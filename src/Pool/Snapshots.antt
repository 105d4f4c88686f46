-- ===== src/Pool/Snapshots.antt =====
-- Snapshots, restores and retention (internal/store/snapshot.go, retention.go), deleteSubvolumes
-- of btrfs.go, and reconcileSnapshots of recover.go.
use fern.Prelude.{
  ℕ, Bool, true, false, not, ◌&&◌, ◌||◌, Option, none, some, List, [], ◌∷◌, ◌++◌, map, Bytes,
  if◌then◌else◌, equal, ltb, leb, ◌+◌, ◌-◌, codes, is_empty,
}
use fern.Text.{has_prefix}
use fern.Ids.{snap_id_pattern}
use fern.Pool.Disk.{
  Node, Place, workspace, live_new, snap, Disk, Row, no_entry, exists, invalid, bad_id, unknown,
  pool_full, io, Fate, goes, fails, dies, World, failed, died, Outcome, Io, give, fail, ◌>>=◌, ◌>>◌,
  look, save_disk, save_rows, node_at, cleared, placed,
}

-- os.Lstat
unfoldable pub lstat : Place → Io (Option Node)
unfolding look node_at
lstat p = look λ w. node_at p w.disk

-- The ioctl: it leaves a tree with subvolumes inside as it is, and answers ENOTEMPTY, `true` here.
abbrev pub unlink : Place → Option Node → Disk → Io Bool
unlink p none d = fail no_entry
unlink p (some n) d = if n.nested then give true else (save_disk (cleared p d) >> give false)

unfoldable pub delete_subvolume : Place → Io Bool
unfolding look
delete_subvolume p = look (λ w. w.disk) >>= λ d. unlink p (node_at p d) d

abbrev pub copy_to : Place → Option Node → Option Node → Disk → Io (Unit {0})
copy_to dst none there d = fail no_entry
copy_to dst (some n) (some m) d = fail exists
copy_to dst (some n) none d =
    if n.subvolume
    then save_disk (placed dst (record { subvolume = true; nested = false; tree = n.tree }) d)
    else fail invalid

-- The source is a subvolume and the path is free, or the call fails. A copy has no subvolumes
-- inside.
unfoldable pub snapshot_subvolume : Place → Place → Io (Unit {0})
unfolding look
snapshot_subvolume src dst =
    look (λ w. w.disk) >>= λ d. copy_to dst (node_at src d) (node_at dst d) d

abbrev pub exchange : Option Node → Option Node → Disk → Io (Unit {0})
exchange (some n) (some m) d = save_disk (record d { live = some n; restored = some m })
exchange _ _ d = fail no_entry

-- unix.Renameat2 of live.new and the workspace, with RENAME_EXCHANGE.
unfoldable pub swap : Io (Unit {0})
unfolding look
swap = look (λ w. w.disk) >>= λ d. exchange d.restored d.live d

abbrev pub delete_found : Option Node → Place → Io Bool
delete_found none p = give false
delete_found (some n) p = if n.subvolume then delete_subvolume p else give false

-- The loop of deleteSubvolumes, with the paths that are left for the second try.
unfoldable pub delete_each : List Place → List Place → Io (List Place)
delete_each [] nested = give nested
delete_each (p ∷ ps) nested = lstat p >>= λ n.
    delete_found n p >>= λ left. delete_each ps (if left then nested ++ p ∷ [] else nested)

unfoldable pub clear_where : (Place → Bool) → List Place → Disk → Disk
clear_where gone [] d = d
clear_where gone (p ∷ ps) d = clear_where gone ps (if gone p then cleared p d else d)

-- `btrfs subvolume delete --recursive`: it removes all that it is given, or fails or is stopped
-- after some of them.
abbrev pub removed : List Place → World → List Fate → Outcome (Unit {0})
removed ps w [] = save_disk (clear_where (λ _. true) ps w.disk) w
removed ps w (goes ∷ fs) = save_disk (clear_where (λ _. true) ps w.disk) (record w { fates = fs })
removed ps w (fails gone e ∷ fs) =
    failed (io e) (record w { disk = clear_where gone ps w.disk; fates = fs })
removed ps w (dies gone ∷ fs) = died (record w { disk = clear_where gone ps w.disk; fates = fs })

unfoldable pub delete_recursive : List Place → Io (Unit {0})
delete_recursive ps w = removed ps w w.fates

unfoldable pub delete_subvolumes : List Place → Io (Unit {0})
delete_subvolumes ps =
    delete_each ps [] >>= λ nested. if is_empty nested then give tt else delete_recursive nested

-- INSERT OR IGNORE, INSERT OR REPLACE, DELETE and SELECT EXISTS.
unfoldable pub has_row : Bytes → List Row → Bool
has_row id [] = false
has_row id (r ∷ rs) = equal id r.id || has_row id rs

unfoldable pub drop_row : Bytes → List Row → List Row
drop_row id [] = []
drop_row id (r ∷ rs) = if equal id r.id then drop_row id rs else r ∷ drop_row id rs

unfoldable pub keep_row : ℕ → Bytes → List Row → List Row
unfolding has_row
keep_row created id rs =
    if has_row id rs then rs else rs ++ record { id = id; created_at = created } ∷ []

unfoldable pub replace_row : ℕ → Bytes → List Row → List Row
unfolding drop_row
replace_row created id rs = drop_row id rs ++ record { id = id; created_at = created } ∷ []

-- A query that writes.
unfoldable pub query : (List Row → List Row) → Io (Unit {0})
query f = look (λ w. w.rows) >>= λ rs. save_rows (f rs)

-- Get, of the environment's valid ID.
unfoldable pub get_env : Io (Unit {0})
get_env = look (λ w. w.known) >>= λ k. if k then give tt else fail unknown

abbrev pub kept_or_taken : ℕ → Bytes → Option Node → Io (Unit {0})
kept_or_taken created id (some n) = query (keep_row created id)
kept_or_taken created id none =
    snapshot_subvolume workspace (snap id) >> query (replace_row created id)

unfoldable pub snapshot_at : ℕ → Bytes → Io (Unit {0})
snapshot_at created id = lstat (snap id) >>= λ n. kept_or_taken created id n

-- `full` is what checkFree answers of the pool's free space.
unfoldable pub snapshot_env : Bool → ℕ → Bytes → Io (Unit {0})
snapshot_env full created id =
    if snap_id_pattern id
    then (get_env >> look (λ w. full) >>= λ f. if f then fail pool_full else snapshot_at created id)
    else fail bad_id

unfoldable pub remove_snapshot : Bytes → Io (Unit {0})
remove_snapshot id =
    if snap_id_pattern id
    then (get_env >> delete_subvolumes (snap id ∷ []) >> query (drop_row id))
    else fail bad_id

unfoldable pub remove_snapshots : List Bytes → Io (Unit {0})
remove_snapshots [] = give tt
remove_snapshots (id ∷ ids) = remove_snapshot id >> remove_snapshots ids

abbrev pub pre_restore_prefix : Bytes
pre_restore_prefix = codes "pre-restore-"

-- 24 hours, in seconds.
abbrev pub pre_restore_keep : ℕ
pre_restore_keep = 86400

abbrev lower : ℕ → ℕ
lower c = if leb b'A' c && leb c b'Z' then c + 32 else c

-- SQLite's LIKE takes upper and lower case of ASCII for the same.
unfoldable pub like_pre_restore : Bytes → Bool
like_pre_restore id = has_prefix (map lower id) pre_restore_prefix

unfoldable pub snapshots_before : ℕ → Bytes → List Row → List Bytes
snapshots_before before keep [] = []
snapshots_before before keep (r ∷ rs) =
    if like_pre_restore r.id && not (equal r.id keep) && ltb r.created_at before
    then r.id ∷ snapshots_before before keep rs
    else snapshots_before before keep rs

unfoldable pub prune_pre_restores : ℕ → Bytes → Io (Unit {0})
prune_pre_restores now keep =
    look (λ w. snapshots_before (now - pre_restore_keep) keep w.rows) >>= λ old.
    remove_snapshots old

-- The clock, as a restore reads it: when it prunes, when it takes the snapshot, in seconds, and
-- the time to the nanosecond, printed.
pub record Clock : Type 0 where
  pub started : ℕ
  pub kept : ℕ
  pub stamp : Bytes

abbrev pub pre_restore : Clock → Bytes
pre_restore c = pre_restore_prefix ++ c.stamp

unfoldable pub restore_to : Clock → Bytes → Io (Unit {0})
restore_to c id =
    prune_pre_restores c.started id
    >> delete_subvolumes (live_new ∷ [])
    >> snapshot_subvolume (snap id) live_new
    >> snapshot_at c.kept (pre_restore c)
    >> swap
    >> delete_subvolumes (live_new ∷ [])

unfoldable pub restore_env : Clock → Bytes → Io (Unit {0})
restore_env c id =
    if snap_id_pattern id
    then (get_env >> look (λ w. has_row id w.rows) >>= λ there.
        if there then restore_to c id else fail unknown)
    else fail bad_id
