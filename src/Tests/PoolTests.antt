-- ===== src/Tests/PoolTests.antt =====
-- internal/store's restores and reconciles, at a disk with two snapshots.
use fern.Prelude.{
  inr, ◌≡◌, refl, true, false, Option, none, some, List, [], ◌∷◌, Bytes, codes, equal,
}
use fern.Text.{has_prefix}
use fern.Ids.{snap_id_pattern, all_name_bytes}
use fern.Pool.Disk.{
  look, save_disk, save_rows, cleared, node_at, placed, without_entry, Node, World, Fate, goes,
  dies, done, entry, Outcome,
}
use fern.Pool.Snapshots.{
  Clock, pre_restore, restore_env, delete_subvolumes, get_env, has_row, restore_to,
  prune_pre_restores, remove_snapshots, snapshots_before, like_pre_restore, delete_each, lstat,
  delete_subvolume, snapshot_subvolume, clear_where, delete_recursive, query, replace_row,
  snapshot_at, swap,
}
use fern.Pool.Calls.{After}
use fern.Pool.Safety.Calm.{Never}
use fern.Pool.Safety.Success.{restore_env-Replaced}
use fern.Pool.Safety.Restore.{restore_env-IsSafe, Replaced, IsSafe}
use fern.Pool.Reconcile.{reconcile_snapshots}
use fern.Pool.Reconcile.Rows.{reconcile_snapshots-Agrees, Same, Agrees}

abbrev turn_1 : Bytes
turn_1 = codes "turn-1"

abbrev turn_2 : Bytes
turn_2 = codes "turn-2"

abbrev clock : Clock
clock = record { started = 100000; kept = 100001; stamp = codes "20260102-030405.000000006" }

abbrev first : Node
first = record { subvolume = true; nested = false; tree = 1 }

-- The workspace, in which a box has made a subvolume.
abbrev edited : Node
edited = record { subvolume = true; nested = true; tree = 2 }

-- A snapshot turn-2 that was just taken, without its row, and a row of one that is gone.
abbrev two_snapshots : List Fate → World
two_snapshots fs = record {
  disk = record {
    live = some edited;
    restored = some first;
    adopted = none;
    snaps = record { name = turn_1; node = first } ∷ record { name = turn_2; node = first } ∷ [];
  };
  known = true;
  rows =
      record { id = codes "turn-0"; created_at = 5 } ∷ record { id = turn_1; created_at = 7 } ∷ [];
  fates = fs;
}

abbrev dying : List Fate
dying = goes ∷ goes ∷ goes ∷ goes ∷ goes ∷ goes ∷ goes ∷ dies (λ _. false) ∷ []

restore_env-IsSafe_example :
    After
      (λ _ v. Replaced turn_1 (pre_restore clock) edited first v.disk)
      (λ v. IsSafe turn_1 (pre_restore clock) edited first v.disk)
      (restore_env clock turn_1 (two_snapshots dying))
unfolding entry equal
restore_env-IsSafe_example =
    restore_env-IsSafe clock turn_1 edited first (two_snapshots dying) refl refl refl

reconcile_snapshots-Agrees_example :
    After
      (λ _ v. (v.disk ≡ (two_snapshots []).disk) × Agrees turn_2 v)
      (λ v. Same (two_snapshots []) v)
      (reconcile_snapshots 9 (two_snapshots []))
reconcile_snapshots-Agrees_example = reconcile_snapshots-Agrees turn_2 9 (two_snapshots [])

-- The disk after a restore that ended without an error.
abbrev disk_after : Outcome (Unit {0}) → List Node
disk_after (done a w) =
    nodes (w.disk.live ∷ w.disk.restored ∷ entry (pre_restore clock) w.disk.snaps ∷ [])
  where
    nodes : List (Option Node) → List Node
    nodes [] = []
    nodes (none ∷ ns) = nodes ns
    nodes (some n ∷ ns) = n ∷ nodes ns
disk_after _ = []

restore_env-ends :
    disk_after (restore_env clock turn_1 (two_snapshots []))
    ≡ first ∷ record edited { nested = false } ∷ []
unfolding restore_env snap_id_pattern all_name_bytes get_env look has_row equal restore_to
    prune_pre_restores remove_snapshots snapshots_before like_pre_restore has_prefix
    delete_subvolumes delete_each lstat delete_subvolume save_disk snapshot_subvolume cleared entry
    node_at placed save_rows without_entry clear_where delete_recursive query replace_row
    snapshot_at swap
restore_env-ends = refl

restore_env-Replaced_example :
    After
      (λ _ v. Replaced turn_1 (pre_restore clock) edited first v.disk × (v.disk.restored ≡ none))
      Never
      (restore_env clock turn_1 (two_snapshots []))
unfolding snap_id_pattern all_name_bytes has_row entry equal
restore_env-Replaced_example =
    restore_env-Replaced clock turn_1 edited first (two_snapshots []) (refl, refl)
      (refl, (refl, tt)) refl refl (refl, refl) (refl, refl) refl (inr refl)
