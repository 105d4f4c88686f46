-- ===== src/Pool/Reconcile.antt =====
-- The snapshot rows of an environment after a crash (reconcileSnapshots and
-- indexRecoveredSnapshots of internal/store/recover.go).
pub mod Rows
use fern.Prelude.{
  ℕ, Bool, true, false, not, ◌&&◌, ◌||◌, List, [], ◌∷◌, ◌++◌, map, Bytes, if◌then◌else◌, equal,
  is_empty,
}
use fern.Sets.{listed, unlisted}
use fern.Ids.{snap_id_pattern}
use fern.Pool.Disk.{Node, Entry, Disk, Row, World, Io, done, failed, give, ◌>>=◌, ◌>>◌, go_on, look}
use fern.Pool.Snapshots.{keep_row, drop_row, query, get_env}

-- What counts as a snapshot in snaps/.
abbrev pub is_snapshot : Entry → Bool
is_snapshot e = snap_id_pattern e.name && e.node.subvolume

abbrev pub Found : Type 0
Found = List Bytes × List Bytes

-- The loop over snaps/: what has no row, and the rows that nothing was found for.
unfoldable pub scan : List Bytes → List Entry → Found
scan indexed [] = ([], indexed)
scan indexed (e ∷ es) =
    let rest = scan indexed es in
    if not (is_snapshot e)
    then rest
    else if listed e.name indexed
    then scan (unlisted e.name indexed) es
    else (e.name ∷ rest.0, rest.1)

-- The queries of the transaction, each of which may fail and undo it.
unfoldable pub index_missing : ℕ → List Bytes → List Row → Io (List Row)
index_missing created [] rs = give rs
index_missing created (x ∷ xs) rs =
    look (λ _. tt) >> index_missing created xs (keep_row created x rs)

unfoldable pub drop_stale : List Bytes → List Row → Io (List Row)
drop_stale [] rs = give rs
drop_stale (x ∷ xs) rs = look (λ _. tt) >> drop_stale xs (drop_row x rs)

unfoldable pub settle : ℕ → List Row → Found → Io (Unit {0})
settle created rs (missing, stale) =
    if is_empty missing && is_empty stale
    then give tt
    else look (λ _. tt) >> index_missing created missing rs >>= λ kept.
        drop_stale stale kept >>= λ rows. query (λ _. rows)

unfoldable pub reconcile_snapshots : ℕ → Io (Unit {0})
reconcile_snapshots created = get_env >> look (λ w. w.rows) >>= λ rs.
    look (λ w. w.disk.snaps) >>= λ es. settle created rs (scan (map (λ r. r.id) rs) es)
