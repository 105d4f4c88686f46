-- ===== src/Tests/GoldenTests.antt =====
-- Golden builds of a repository, with failures.
use fern.Prelude.{Bool, Bytes, Option, [], codes, equal, false, none, refl, some, true, ◌∷◌, ◌≡◌}
use fern.Golden.{
  Work, gone, other, copied, used, half, stripped, Builder, done, Fate, goes, fails, dies,
  build_golden, has_key, call, create, stop_box, build_source, has_snapshot, wake_box, strip_source,
  take_snapshot, prune, count_beyond, drop_beyond,
}
use fern.Sets.{value_of}
use fern.Text.{has_prefix}
use fern.Golden.Strip.{
  Tree, file, directory, list_source, split_nul, has_below, path_gone, remove_entry, strip_names,
  strip_listed,
}
use fern.Golden.Builds.{left_by, no_builder, Built, absent, build, build_golden-calm}

-- A checkout's number is its key.
abbrev key_of : Work → Option Bytes
key_of (copied c) = some (c ∷ [])
key_of gone = none
key_of other = none
key_of (used c) = none
key_of (half c) = none
key_of (stripped c) = none

abbrev ok : Fate
ok = record { writes = true; how = goes }

-- The daemon dies as it removes the checkout's files.
abbrev stopped_build : Builder
stopped_build = left_by (
    build_golden key_of true (some 7) no_builder
      (ok ∷ ok ∷ ok ∷ ok ∷ ok ∷ ok ∷ ok ∷ ok ∷ ok ∷ record { writes = true; how = dies true } ∷ []))

-- The next build's box cannot be stopped, and the one after that goes well.
abbrev built_again : Builder
built_again = left_by (
    build_golden key_of true (some 8)
      (left_by (
        build_golden key_of true (some 8) stopped_build (
          ok
          ∷ ok
          ∷ ok
          ∷ ok
          ∷ ok
          ∷ ok
          ∷ ok
          ∷ ok
          ∷ record { writes = true; how = fails false }
          ∷ [])))
      (ok ∷ ok ∷ ok ∷ ok ∷ ok ∷ []))

runs :
    (stopped_build.work ≡ half 7)
    × (stopped_build.snaps ≡ [])
    × (built_again.snaps ≡ (8 ∷ [], stripped 8) ∷ [])
unfolding build_golden has_key call create stop_box build_source has_snapshot wake_box strip_source
    take_snapshot prune count_beyond drop_beyond
runs = (refl, refl, refl)

built_again_Built : Built key_of built_again
built_again_Built = build true (some 8) (ok ∷ ok ∷ ok ∷ ok ∷ ok ∷ []) (
    build true (some 8)
      (ok ∷ ok ∷ ok ∷ ok ∷ ok ∷ ok ∷ ok ∷ ok ∷ record { writes = true; how = fails false } ∷ [])
      (build true (some 7)
        (ok
          ∷ ok
          ∷ ok
          ∷ ok
          ∷ ok
          ∷ ok
          ∷ ok
          ∷ ok
          ∷ ok
          ∷ record { writes = true; how = dies true }
          ∷ [])
        absent))

build_golden-calm_example :
    (v : Builder) × (build_golden key_of true (some 9) built_again [] ≡ done tt v [])
    × (has_key (9 ∷ []) v.snaps ≡ true)
build_golden-calm_example = build_golden-calm key_of 9 (9 ∷ []) built_again refl

abbrev is_local : Bytes → Bool
is_local p = true

abbrev never : Bytes → Bool
never p = false

abbrev checkout : Tree
checkout = (codes "a", directory) ∷ (codes "a/b", file) ∷ (codes "c", file) ∷ (codes "d", file) ∷ []

-- The services made a directory of c, and a file e; d is gone.
abbrev after_services : Tree
after_services =
    (codes "a", directory)
    ∷ (codes "a/b", file)
    ∷ (codes "c", directory)
    ∷ (codes "c/x", file)
    ∷ (codes "e", file)
    ∷ []

strips : strip_listed is_local never false (some (list_source checkout)) after_services ≡ record {
  tree =
      (codes "a", directory)
      ∷ (codes "c", directory)
      ∷ (codes "c/x", file)
      ∷ (codes "e", file)
      ∷ [];
  list = none;
  ok = true;
}
unfolding strip_listed strip_names split_nul remove_entry value_of has_below path_gone has_prefix
    equal
strips = refl
