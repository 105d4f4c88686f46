-- ===== src/Jobs/Room.antt =====
-- How many jobs a box keeps, and which it forgets.
use fern.Prelude.{
  suc, ◌≤◌, ◌≡◌, inl, inr, Option-cases, refl, Bool, true, false, none, some, List, [], ◌∷◌, ◌++◌,
  arith, Bytes, if◌then◌else◌, length, append-nil,
}
use fern.Jobs.{
  Job, JobRequest, Reply, no_content, too_many, forget_oldest, new_job, start, max_jobs,
}

-- The jobs whose process has not exited.
unfoldable pub running : List Job → List Job
running [] = []
running (j ∷ js) = if j.ended then running js else j ∷ running js

running-append : (xs ys : List Job) → running (xs ++ ys) ≡ running xs ++ running ys
unfolding running
running-append [] ys = refl
running-append (x ∷ xs) ys = ground (arith, running-append xs ys)

running-launched :
    (js : List Job) (id : Bytes) → running (js ++ new_job id ∷ []) ≡ running js ++ new_job id ∷ []
unfolding running
running-launched js id = rw running-append

-- Forgetting takes one job, and none that runs.
pub forget_oldest-some :
    (js r : List Job)
    → forget_oldest js ≡ some r
    → (running r ≡ running js) × (length js ≡ suc (length r))
unfolding forget_oldest running
forget_oldest-some [] r h = cc
forget_oldest-some (j ∷ js) r h = elim (Option-cases (forget_oldest js)) [
  | inl e ↦ ground arith
  | inr (s, e) ↦ ground (arith, forget_oldest-some js s e)
]

forget_oldest-none : (js : List Job) → forget_oldest js ≡ none → length (running js) ≡ length js
unfolding forget_oldest running
forget_oldest-none [] h = refl
forget_oldest-none (j ∷ js) h = ground (arith, forget_oldest-none js)

abbrev pub accepted : Reply → Bool
accepted no_content = true
accepted _ = false

-- Starting a job stops no other: the jobs that run afterwards are those that ran before, in their
-- order, and the new one behind them if the request was accepted.
pub start-running :
    (ok : Bool) (req : JobRequest) (js : List Job)
    → running (start ok (some req) js).0
      ≡ running js ++ (if accepted (start ok (some req) js).1 then new_job req.id ∷ [] else [])
unfolding start
start-running ok req js = elim (Option-cases (forget_oldest js)) [
  | inl e ↦ ground (arith, running-launched js req.id, append-nil (running js))
  | inr (r, e) ↦ ground (
    arith,
    forget_oldest-some js r e,
    running-launched js req.id,
    running-launched r req.id,
    append-nil (running js),
  )
]

-- A request for a new job is refused for want of room only if max_jobs jobs run.
start-too_many :
    (ok : Bool) (req : JobRequest) (js : List Job)
    → (start ok (some req) js).1 ≡ too_many
    → max_jobs ≤ length (running js)
unfolding start
start-too_many ok req js h = ground (arith, forget_oldest-none js)
