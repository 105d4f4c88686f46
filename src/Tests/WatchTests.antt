-- ===== src/Tests/WatchTests.antt =====
-- internal/watch/event.go, at events as the kernel writes them.
use fern.Prelude.{◌==◌, Bool, true, false, List, equal, ℕ, ◌≡◌, refl, [], ◌∷◌, ◌++◌, Bytes, codes}
use fern.Decimal.{ℤ, pos, negsuc}
use fern.Sets.{value_of, store}
use fern.Watch.Event.{Event}
use fern.Watch.Tree.{
  marked, absent, Found, nothing, file, folder, Report, Turn, events, fires, report, report_one,
  apply, apply_one, watch, add, walk, skip, forget, under, has_path, with_paths, same_path,
}
use fern.Watch.Tree.Skipped.{IsSound, report-IsSound}
use fern.Watch.Slices.{ok, err, short, Returns}
use fern.Watch.Event.{decode}
use fern.Watch.Event.Bounds.{decode-Returns}

-- A close of "a.ts" in the folder with the handle 01 02, written by process 7.
abbrev metadata : ℕ → Bytes
metadata n =
    n ∷ 0 ∷ 0 ∷ 0 ∷ 3 ∷ 0 ∷ 24 ∷ 0 ∷ 8 ∷ 0 ∷ 0 ∷ 0 ∷ 0 ∷ 0 ∷ 0 ∷ 0 ∷ 255 ∷ 255 ∷ 255 ∷ 255 ∷ 7 ∷ 0
    ∷ 0 ∷ 0 ∷ []

abbrev record_of : ℕ → Bytes
record_of n =
    2 ∷ 0 ∷ n ∷ 0 ∷ 9 ∷ 9 ∷ 9 ∷ 9 ∷ 9 ∷ 9 ∷ 9 ∷ 9 ∷ 2 ∷ 0 ∷ 0 ∷ 0 ∷ 1 ∷ 0 ∷ 0 ∷ 0 ∷ 1 ∷ 2 ∷ []

abbrev close_event : Bytes
close_event = metadata 52 ++ (record_of 28 ++ (codes "a.ts" ++ (0 ∷ 0 ∷ [])))

close_decoded :
    decode close_event
    ≡ ok (record { mask = 8; pid = pos 7; handle = codes "1:0102"; name = codes "a.ts" } ∷ [])
unfolding decode
close_decoded = refl

cut_decoded : decode (metadata 52 ++ record_of 28) ≡ err short
unfolding decode
cut_decoded = refl

decode-Returns_example : Returns (decode (metadata 52 ++ record_of 99))
decode-Returns_example = decode-Returns (metadata 52 ++ record_of 99)

-- A workspace with a folder and node_modules; process 7 is the box's.
abbrev workspace : Found
workspace =
    folder (codes "src") (marked (codes "1:02")) (file (codes "old.ts") true nothing)
      (folder (codes "node_modules") (marked (codes "1:03")) nothing nothing)

abbrev by_seven : ℤ → Bool
by_seven (pos n) = n == 7
by_seven (negsuc n) = false

abbrev event_of : ℕ → ℕ → Bytes → Bytes → Event
event_of mask pid handle name = record { mask = mask; pid = pos pid; handle = handle; name = name }

-- A write, one by another box, one in node_modules, a new folder and node_modules in that; the timer.
abbrev written : List Turn
written =
    events (
      (event_of 2 7 (codes "1:02") (codes "a.ts"), absent, nothing)
      ∷ (event_of 2 8 (codes "1:02") (codes "b.ts"), absent, nothing)
      ∷ (event_of 2 7 (codes "1:03") (codes "c.js"), absent, nothing)
      ∷ (
        event_of 1073742080 7 (codes "1:01") (codes "lib"),
        marked (codes "1:04"),
        file (codes "d.ts") true (
            folder (codes "node_modules") (marked (codes "1:05")) (file (codes "e.js") true nothing)
              nothing),
      )
      ∷ [])
    ∷ fires
    ∷ fires
    ∷ []

abbrev reported : Report
reported = report by_seven written (watch (marked (codes "1:01")) workspace)

written_reported :
    (reported.batches
      ≡ ((codes "lib" ∷ codes "d.ts" ∷ []) ∷ (codes "src" ∷ codes "a.ts" ∷ []) ∷ []) ∷ [])
    × (reported.timer ≡ false)
unfolding report report_one apply apply_one watch add walk skip store value_of forget under has_path
    with_paths same_path equal
written_reported = (refl, refl)

report-IsSound_example : IsSound reported
report-IsSound_example = report-IsSound by_seven (marked (codes "1:01")) workspace written
