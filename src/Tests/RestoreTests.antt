-- ===== src/Tests/RestoreTests.antt =====
-- Backups of a node of two environments, with failures, and restores of them.
use fern.Prelude.{◌≡◌, refl, true, false, Bool, some, List, [], ◌∷◌, Bytes, codes, equal}
use fern.Sets.{value_of, store, listed}
use fern.Ids.{is_builder}
use fern.Backup.Bucket.{
  Env, EnvBackup, Manifest, State, writes, makes, taken_at, changed, changed_all, Fate, goes, dies,
  call, stream_at, without_stream, snap_at, without_snap, without_env,
}
use fern.Backup.Send.{
  env_backup, generation_of, names_of, leftovers, delete_snap, parent_of, last_snapshot, take_snap,
  send, created_at,
}
use fern.Backup.Once.{
  once, read_manifest, list_envs, each_env, save, take_archive, live_ids, only_live, sweep,
  delete_others, delete_object, keep, names_stream, names_send,
}
use fern.Backup.Restore.{
  no_backup_there, occupied, stops, restored, restore_pool, each_workspace, receive_all, receive,
  files_of,
}
use fern.Backup.Restore.History.{
  left_by, ended_well, new_node, Reached, first, change, backup, placed_for, Gives,
  restore_pool-Reached, restored_current,
}

abbrev lab : Bytes
lab = codes "lab"

abbrev web : Bytes
web = codes "web"

abbrev path : Bytes
path = codes "envs/lab"

abbrev local : Bytes → Bool
local p = true

-- Two environments, that are backed up.
abbrev made : State
made =
    changed (makes web 20 (some (codes "envs/web")))
      (changed (makes lab 10 (some path)) (new_node 5 100))

abbrev made_Reached : Reached false made
made_Reached =
    change (makes web 20 (some (codes "envs/web")))
      (change (makes lab 10 (some path)) (first 5 100))

abbrev saved : State
saved = left_by (once made [])

-- One is written, and the daemon dies as it sends it, the stream being there.
abbrev stopped_at : List Fate
stopped_at = ok ∷ ok ∷ ok ∷ ok ∷ ok ∷ record { before = []; how = dies true } ∷ []
  where
    ok : Fate
    ok = record { before = []; how = goes }

abbrev after_crash : State
after_crash = left_by (once (changed (writes lab 11) saved) stopped_at)

abbrev again : State
again = left_by (once after_crash [])

first_run :
    (restore_pool local false made.bucket ≡ stops no_backup_there)
    × (ended_well (once made []) ≡ true)
    × (restore_pool local true saved.bucket ≡ stops occupied)
    × (restore_pool local false saved.bucket
        ≡ restored ((lab, path, 10) ∷ (web, codes "envs/web", 20) ∷ []) 102)
unfolding once read_manifest list_envs each_env save take_archive live_ids only_live sweep
    delete_others delete_object keep names_stream names_send env_backup generation_of names_of
    leftovers delete_snap parent_of last_snapshot take_snap send created_at restore_pool
    each_workspace receive_all receive files_of call changed changed_all value_of store stream_at
    without_stream snap_at without_snap without_env listed is_builder equal
first_run = (refl, refl, refl, refl)

stopped_run :
    (ended_well (once (changed (writes lab 11) saved) stopped_at) ≡ false)
    × (restore_pool local false after_crash.bucket
        ≡ restored ((lab, path, 10) ∷ (web, codes "envs/web", 20) ∷ []) 102)
unfolding once read_manifest list_envs each_env save take_archive live_ids only_live sweep
    delete_others delete_object keep names_stream names_send env_backup generation_of names_of
    leftovers delete_snap parent_of last_snapshot take_snap send created_at restore_pool
    each_workspace receive_all receive files_of call changed changed_all value_of store stream_at
    without_stream snap_at without_snap without_env listed is_builder equal
stopped_run = (refl, refl)

next_run :
    (ended_well (once after_crash []) ≡ true)
    × (restore_pool local false again.bucket
        ≡ restored ((lab, path, 11) ∷ (web, codes "envs/web", 20) ∷ []) 105)
unfolding once read_manifest list_envs each_env save take_archive live_ids only_live sweep
    delete_others delete_object keep names_stream names_send env_backup generation_of names_of
    leftovers delete_snap parent_of last_snapshot take_snap send created_at restore_pool
    each_workspace receive_all receive files_of call changed changed_all value_of store stream_at
    without_stream snap_at without_snap without_env listed is_builder equal
next_run = (refl, refl)

saved_Reached : Reached true saved
unfolding once read_manifest list_envs each_env save take_archive live_ids only_live sweep
    delete_others delete_object keep names_stream names_send env_backup generation_of names_of
    leftovers delete_snap parent_of last_snapshot take_snap send created_at restore_pool
    each_workspace receive_all receive files_of call changed changed_all value_of store stream_at
    without_stream snap_at without_snap without_env listed is_builder equal
saved_Reached = backup [] made_Reached

restore_pool-Reached_example : Gives local true saved (restore_pool local false saved.bucket)
restore_pool-Reached_example = restore_pool-Reached local true saved saved_Reached

abbrev lab_backup : EnvBackup
lab_backup = record {
  workspace = path;
  generation = 8;
  chain = record { snapshot = 100; id = lab } ∷ [];
}

abbrev web_backup : EnvBackup
web_backup = record {
  workspace = codes "envs/web";
  generation = 9;
  chain = record { snapshot = 101; id = web } ∷ [];
}

abbrev saved_manifest : Manifest
saved_manifest = record { archive = some 102; envs = (lab, lab_backup) ∷ (web, web_backup) ∷ [] }

abbrev saved_lab : Env
saved_lab = record {
  tree = 10;
  generation = 8;
  path = some path;
  snaps = (taken_at 100, record { tree = 10; created = 8 }) ∷ [];
}

saved_is :
    (saved.bucket.manifest ≡ some saved_manifest)
    × (value_of lab saved_manifest.envs ≡ some lab_backup)
    × (value_of lab saved.envs ≡ some saved_lab)
unfolding once read_manifest list_envs each_env save take_archive live_ids only_live sweep
    delete_others delete_object keep names_stream names_send env_backup generation_of names_of
    leftovers delete_snap parent_of last_snapshot take_snap send created_at restore_pool
    each_workspace receive_all receive files_of call changed changed_all value_of store stream_at
    without_stream snap_at without_snap without_env listed is_builder equal
saved_is = (refl, refl, refl)

restored_current_example :
    placed_for lab ((lab, path, 10) ∷ (web, codes "envs/web", 20) ∷ []) ≡ some (path, 10)
restored_current_example =
    restored_current local true saved saved_manifest lab lab_backup saved_lab
      ((lab, path, 10) ∷ (web, codes "envs/web", 20) ∷ []) 102 saved_Reached (saved_is.0)
      (saved_is.1) (saved_is.2) refl (first_run.3)
