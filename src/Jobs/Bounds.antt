-- ===== src/Jobs/Bounds.antt =====
-- The bounds on the jobs of a box hold whatever happens.
use fern.Prelude.{
  ℕ, ◌<◌, ◌≡◌, inl, inr, Option-cases, refl, Bool, true, false, ◌||◌, Option, none, some, List, [],
  ◌∷◌, ◌++◌, arith, Bytes, equal, equal_iff, length, All, All-append, length-append,
}
use fern.Jobs.{
  Job, JobRequest, forget_output, has_id, find, forget_oldest, new_job, launch, start, read_job,
  exited, shot, kill_job, written, Event, happen, history, max_jobs,
}
use fern.Jobs.Room.{forget_oldest-some}
use fern.Jobs.Kept.{
  Distinct, IsKept, IsBounded, update-IsBounded, map-IsBounded, written-IsMild, exited-IsMild,
  forget-IsMild, shot-IsMild,
}

has_id-concat :
    (k : Bytes) (js : List Job) (j : Job) → has_id k (js ++ j ∷ []) ≡ (has_id k js || equal j.id k)
unfolding has_id
has_id-concat k [] j = ground arith
has_id-concat k (x ∷ js) j = ground (arith, has_id-concat k js j)

Distinct-concat :
    (js : List Job) (j : Job) → Distinct js → has_id j.id js ≡ false → Distinct (js ++ j ∷ [])
unfolding has_id
Distinct-concat [] j d h = (refl, tt)
Distinct-concat (x ∷ js) j d h = ground (
  arith,
  has_id-concat x.id js j,
  Distinct-concat js j d.1,
  equal_iff x.id j.id,
  equal_iff j.id x.id,
)

forget_oldest-IsBounded :
    (js r : List Job) (k : Bytes)
    → forget_oldest js ≡ some r
    → Distinct js
    → All IsKept js
    → has_id k js ≡ false
    → Distinct r × All IsKept r × (has_id k r ≡ false)
unfolding forget_oldest has_id
forget_oldest-IsBounded [] r k h d a n = cc
forget_oldest-IsBounded (j ∷ js) r k h d a n = elim (Option-cases (forget_oldest js)) [
  | inl e ↦ ground arith
  | inr (s, e) ↦ ground (
    arith,
    forget_oldest-IsBounded js s k e d.1 a.1,
    forget_oldest-IsBounded js s j.id e d.1 a.1 d.0,
  )
]

launch-IsBounded :
    (ok : Bool) (id : Bytes) (js : List Job)
    → length js < max_jobs
    → Distinct js
    → All IsKept js
    → has_id id js ≡ false
    → IsBounded (launch ok id js).0
launch-IsBounded false id js l d a n = record { room = omega arith; distinct = d; kept = a }
launch-IsBounded true id js l d a n = record {
  room = omega (arith, length-append {0} js (new_job id ∷ []));
  distinct = Distinct-concat js (new_job id) d n;
  kept = All-append IsKept js (new_job id ∷ []) a (omega arith);
}

start-IsBounded :
    (ok : Bool) (req : Option JobRequest) (js : List Job)
    → IsBounded js
    → IsBounded (start ok req js).0
unfolding start
start-IsBounded ok none js b = b
start-IsBounded ok (some req) js b = elim (Option-cases (forget_oldest js)) [
  | inl e ↦ ground (arith, launch-IsBounded ok req.id js)
  | inr (r, e) ↦ ground (
    arith,
    forget_oldest-some js r e,
    forget_oldest-IsBounded js r req.id e b.distinct b.kept,
    launch-IsBounded ok req.id js,
    launch-IsBounded ok req.id r,
  )
]

read_job-IsBounded :
    (id : Bytes) (js : List Job) (o : Option Job) → IsBounded js → IsBounded (read_job id js o).0
unfolding read_job
read_job-IsBounded id js none b = b
read_job-IsBounded id js (some j) b = update-IsBounded id forget_output forget-IsMild js b

kill_job-IsBounded :
    (code : ℕ) (id : Bytes) (js : List Job) (o : Option Job)
    → IsBounded js
    → IsBounded (kill_job code id js o).0
unfolding kill_job
kill_job-IsBounded code id js none b = b
kill_job-IsBounded code id js (some j) b =
    update-IsBounded id (λ j. forget_output (shot code j)) (shot-IsMild code) js b

happen-IsBounded : (e : Event) (js : List Job) → IsBounded js → IsBounded (happen e js)
unfolding happen
happen-IsBounded (Event.starts ok req) js b = start-IsBounded ok req js b
happen-IsBounded (Event.writes id p) js b = update-IsBounded id (written p) (written-IsMild p) js b
happen-IsBounded (Event.exits code id) js b =
    update-IsBounded id (exited code) (exited-IsMild code) js b
happen-IsBounded (Event.reads id) js b = read_job-IsBounded id js (find id js) b
happen-IsBounded (Event.kills code id) js b = kill_job-IsBounded code id js (find id js) b
happen-IsBounded (Event.closes code) js b = map-IsBounded (exited code) (exited-IsMild code) js b

history_from-IsBounded :
    (es : List Event) (js : List Job) → IsBounded js → IsBounded (history es js)
unfolding history
history_from-IsBounded [] js b = b
history_from-IsBounded (e ∷ es) js b =
    history_from-IsBounded es (happen e js) (happen-IsBounded e js b)

-- Whatever is asked of a box's jobs and whatever they do, from none on: at most max_jobs are kept,
-- no two have the same ID, and none keeps more than max_job_output bytes of output.
pub history-IsBounded : (es : List Event) → IsBounded (history es [])
history-IsBounded es =
    history_from-IsBounded es [] (record { room = omega arith; distinct = tt; kept = tt })
