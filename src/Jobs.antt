-- ===== src/Jobs.antt =====
-- A box's background commands (internal/boxexec/jobs.go): Jobs, as fern-init keeps them.
pub mod Output
pub mod Room
pub mod Kept
pub mod Bounds
use fern.Prelude.{
  ℕ, zero, suc, ◌+◌, ◌-◌, ◌^◌, Bool, true, false, ◌&&◌, ◌||◌, not, Option, none, some, List, [],
  ◌∷◌, ◌++◌, map, Bytes, ltb, leb, if◌then◌else◌, equal, is_empty, length, drop,
}

abbrev pub max_jobs : ℕ
max_jobs = 16

abbrev pub max_job_output : ℕ
max_job_output = 2 ^ 20

-- job. `ended` says that its channel is closed: the process has exited.
pub record Job : Type 0 where
  pub id : Bytes
  pub ended : Bool
  pub out : Bytes
  pub dropped : ℕ
  pub killed : Bool
  pub code : ℕ

-- JobRequest, less the environment that the command gets.
pub record JobRequest : Type 0 where
  pub id : Bytes
  pub argv : List Bytes

pub record JobInfo : Type 0 where
  pub id : Bytes
  pub running : Bool

pub record JobOutput : Type 0 where
  pub output : Bytes
  pub dropped : ℕ
  pub running : Bool
  pub killed : Bool
  pub code : ℕ

-- Answers, by their HTTP status.
pub data Reply : Type 0 where
  no_content bad_request unauthorized not_found conflict too_many unprocessable : Reply
  listing : List JobInfo → Reply
  output : JobOutput → Reply

-- Write: of the unread output, the newest max_job_output bytes are kept.
unfoldable pub write : Bytes → Job → Job
write p j =
    let out = j.out ++ p in
    let over = length out - max_job_output in
    if ltb 0 over
    then record j { out = drop over out; dropped = j.dropped + over }
    else record j { out = out }

-- take
unfoldable pub take_output : Job → JobOutput
take_output j = record {
  output = j.out;
  dropped = j.dropped;
  running = not j.ended;
  killed = j.killed && j.ended;
  code = j.code;
}

unfoldable pub forget_output : Job → Job
forget_output j = record j { out = []; dropped = 0 }

-- auth: the header must be the token's.
unfoldable pub auth : Bytes → Bytes → Bytes → Bool
auth bearer token header = equal header (bearer ++ token)

unfoldable pub has_id : Bytes → List Job → Bool
has_id id [] = false
has_id id (j ∷ js) = equal j.id id || has_id id js

-- find
unfoldable pub find : Bytes → List Job → Option Job
find id [] = none
find id (j ∷ js) = let rest = find id js in if equal j.id id then some j else rest

-- Change the job that `find` finds.
unfoldable pub update : Bytes → (Job → Job) → List Job → List Job
update id f [] = []
update id f (j ∷ js) = let rest = update id f js in if equal j.id id then f j ∷ js else j ∷ rest

-- The jobs without the oldest that has ended, if one has.
unfoldable pub forget_oldest : List Job → Option (List Job)
forget_oldest [] = none
forget_oldest (j ∷ js) =
    let rest = forget_oldest js in
    if j.ended then some js else elim rest [ none ↦ none | some r ↦ some (j ∷ r) ]

abbrev pub new_job : Bytes → Job
new_job id = record { id = id; ended = false; out = []; dropped = 0; killed = false; code = 0 }

-- cmd.Start, which says whether the command started.
abbrev launch : Bool → Bytes → List Job → List Job × Reply
launch true id js = (js ++ new_job id ∷ [], no_content)
launch false id js = (js, unprocessable)

-- Room for one more is made by forgetting the oldest job that has ended.
make_room : Bool → Bytes → List Job → Option (List Job) → List Job × Reply
make_room starts id js none = (js, too_many)
make_room starts id js (some rest) = launch starts id rest

start_request : Bool → JobRequest → List Job → List Job × Reply
unfolding make_room has_id forget_oldest
start_request starts req js =
    if is_empty req.id || is_empty req.argv
    then (js, bad_request)
    else if has_id req.id js
    then (js, conflict)
    else if leb max_jobs (length js)
    then make_room starts req.id js (forget_oldest js)
    else launch starts req.id js

-- start, on the request that the body holds, if it holds one.
unfoldable pub start : Bool → Option JobRequest → List Job → List Job × Reply
unfolding start_request
start starts none js = (js, bad_request)
start starts (some req) js = start_request starts req js

-- list
unfoldable pub list : List Job → Reply
list js = listing (map (λ (j : Job). record { id = j.id; running = not j.ended }) js)

read_job : Bytes → List Job → Option Job → List Job × Reply
unfolding update take_output forget_output
read_job id js none = (js, not_found)
read_job id js (some j) = (update id forget_output js, output (take_output j))

-- read
unfoldable pub read : Bytes → List Job → List Job × Reply
unfolding read_job find
read id js = read_job id js (find id js)

-- The job's process has exited with a code; a job that a client killed is marked before.
abbrev pub exited : ℕ → Job → Job
exited code j = if j.ended then j else record j { ended = true; code = code }

abbrev pub shot : ℕ → Job → Job
shot code j = if j.ended then j else record j { killed = true; ended = true; code = code }

kill_job : ℕ → Bytes → List Job → Option Job → List Job × Reply
unfolding update take_output forget_output
kill_job code id js none = (js, not_found)
kill_job code id js (some j) =
    (update id (λ j. forget_output (shot code j)) js, output (take_output (shot code j)))

-- kill: the process, if it runs, is killed and exits with `code` before the answer.
unfoldable pub kill : ℕ → Bytes → List Job → List Job × Reply
unfolding kill_job find
kill code id js = kill_job code id js (find id js)

-- Close: every job that runs is killed, and exits with a code.
unfoldable pub close : ℕ → List Job → List Job
close code js = map (exited code) js

-- What happens to a box's jobs, one at a time.
pub data Event : Type 0 where
  starts : Bool → Option JobRequest → Event
  writes : Bytes → Bytes → Event
  exits : ℕ → Bytes → Event
  reads : Bytes → Event
  kills : ℕ → Bytes → Event
  closes : ℕ → Event

-- A job that has exited writes no more.
abbrev pub written : Bytes → Job → Job
written p j = if j.ended then j else write p j

unfoldable pub happen : Event → List Job → List Job
unfolding start update read kill close
happen (starts ok req) js = (start ok req js).0
happen (writes id p) js = update id (written p) js
happen (exits code id) js = update id (exited code) js
happen (reads id) js = (read id js).0
happen (kills code id) js = (kill code id js).0
happen (closes code) js = close code js

unfoldable pub history : List Event → List Job → List Job
unfolding happen
history [] js = js
history (e ∷ es) js = history es (happen e js)
