-- ===== src/Tests/JobTests.antt =====
-- internal/boxexec/jobs.go, at a box with two jobs.
use fern.Prelude.{
  ℕ, ◌+◌, ◌≡◌, refl, true, false, some, List, [], ◌∷◌, ◌++◌, arith, codes, equal, drop,
  if◌then◌else◌,
}
use fern.Jobs.{Job, JobRequest, too_many, Event, start, kill, history, new_job, output}
use fern.Jobs.Output.{writes_all, excess, writes_all_lem}
use fern.Jobs.Room.{running, accepted, start-running}
use fern.Jobs.Kept.{IsBounded}
use fern.Jobs.Bounds.{history-IsBounded}

abbrev vite : JobRequest
vite = record { id = codes "j1"; argv = codes "vite" ∷ [] }

abbrev finished : Job
finished = record (new_job (codes "j0")) { ended = true; code = 1 }

abbrev speaking : Job
speaking = record (new_job (codes "j2")) { out = codes "hi" }

writes_all_lem_example :
    (let k = writes_all (codes "a" ∷ codes "bc" ∷ []) speaking in
      (k.out ≡ drop (excess (codes "hiabc")) (codes "hiabc"))
      × (k.dropped ≡ 0 + excess (codes "hiabc")))
writes_all_lem_example = writes_all_lem (codes "a" ∷ codes "bc" ∷ []) speaking (omega arith)

start-running_example :
    running (start true (some vite) (finished ∷ speaking ∷ [])).0
    ≡ running (finished ∷ speaking ∷ [])
      ++ (if accepted (start true (some vite) (finished ∷ speaking ∷ [])).1
          then new_job (codes "j1") ∷ []
          else [])
start-running_example = start-running true vite (finished ∷ speaking ∷ [])

abbrev busy : ℕ → List Job
busy ℕ.zero = []
busy (ℕ.suc n) = new_job (n ∷ []) ∷ busy n

busy_full : (start true (some vite) (busy 16)).1 ≡ too_many
unfolding start equal
busy_full = refl

abbrev day : List Event
day =
    Event.starts true (some vite)
    ∷ Event.writes (codes "j1") (codes "ready")
    ∷ Event.kills 137 (codes "j1")
    ∷ Event.starts true (some vite)
    ∷ []

history-IsBounded_example : IsBounded (history day [])
history-IsBounded_example = history-IsBounded day

kill_reports :
    (kill 137 (codes "j2") (speaking ∷ [])).1
    ≡ output
        (record { output = codes "hi"; dropped = 0; running = false; killed = true; code = 137 })
unfolding kill equal
kill_reports = refl
