-- ===== src/Tests/IdTests.antt =====
-- internal/store/store.go's names, at concrete IDs.
use fern.Prelude.{◌≡◌, ◌≢◌, ◌↔◌, ◌≤◌, refl, true, false, none, some, [], arith, Bytes, codes, equal}
use fern.Text.{has_prefix}
use fern.Ids.{env_id_pattern, snap_id_pattern, fork_id, fork_of}
use fern.Ids.Forks.{fork_of_lem}

abbrev demo : Bytes
demo = codes "demo-1"

demo_env_id : env_id_pattern demo ≡ true
unfolding env_id_pattern
demo_env_id = refl

no_env_ids :
    (env_id_pattern [] ≡ false)
    × (env_id_pattern (codes "-a") ≡ false)
    × (env_id_pattern (codes "a-") ≡ false)
    × (env_id_pattern (codes "demo.agent") ≡ false)
    × (snap_id_pattern (codes "turn-1.x") ≡ true)
unfolding env_id_pattern snap_id_pattern
no_env_ids = (refl, refl, refl, refl, refl)

forks_read :
    (fork_of (codes "demo-fork-12") ≡ some (codes "demo", 12))
    × (fork_of (codes "demo-fork-012") ≡ none)
    × (fork_of (codes "demo-fork-+1") ≡ none)
    × (fork_of (codes "-fork-1") ≡ none)
    × (fork_of (codes "a-fork-1-fork-2") ≡ some (codes "a-fork-1", 2))
unfolding fork_of has_prefix equal
forks_read = (refl, refl, refl, refl, refl)

demo-ne-nil : demo ≢ []
demo-ne-nil = λ e. cc

fork_of_lem_example :
    (fork_of (codes "demo-fork-12") ≡ some (codes "demo", 12))
    ↔ ((codes "demo-fork-12" ≡ fork_id (codes "demo") 12) × (codes "demo" ≢ []) × (1 ≤ 12))
fork_of_lem_example = fork_of_lem (codes "demo-fork-12") (codes "demo") 12 (omega arith)
