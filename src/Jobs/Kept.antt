-- ===== src/Jobs/Kept.antt =====
-- The changes of a job, and the bounds on those that a box keeps.
use fern.Prelude.{
  ℕ, suc, ◌-◌, ◌≤◌, ◌≡◌, refl, ap, false, List, [], ◌∷◌, ◌++◌, map, arith, Bytes, length, All,
  length-drop,
}
use fern.Jobs.{
  Job, write, forget_output, has_id, update, exited, shot, written, max_jobs, max_job_output,
}

-- No two jobs have the same ID.
abbrev pub Distinct : List Job → Type 0
Distinct [] = Unit {0}
Distinct (j ∷ js) = (has_id j.id js ≡ false) × Distinct js

abbrev pub IsKept : Job → Type 0
IsKept j = length j.out ≤ max_job_output

pub record IsBounded (js : List Job) : Type 0 where
  pub room : length js ≤ max_jobs
  pub distinct : Distinct js
  pub kept : All IsKept js

-- A change of a job that keeps its ID, and its output within the bound.
pub record IsMild (f : Job → Job) : Type 0 where
  pub same_id : (j : Job) → (f j).id ≡ j.id
  pub keeps : (j : Job) → IsKept j → IsKept (f j)

module _ (id : Bytes) (f : Job → Job) (m : IsMild f) where
  has_id-update : (k : Bytes) (js : List Job) → has_id k (update id f js) ≡ has_id k js
  unfolding has_id update
  has_id-update k [] = refl
  has_id-update k (j ∷ js) = ground (arith, m.same_id j, has_id-update k js)

  length-update : (js : List Job) → length (update id f js) ≡ length js
  unfolding update
  length-update [] = refl
  length-update (j ∷ js) = ground (arith, length-update js)

  Distinct-update : (js : List Job) → Distinct js → Distinct (update id f js)
  unfolding update
  Distinct-update [] d = tt
  Distinct-update (j ∷ js) d =
      ground (arith, m.same_id j, has_id-update j.id js, Distinct-update js d.1)

  IsKept-update : (js : List Job) → All IsKept js → All IsKept (update id f js)
  unfolding update
  IsKept-update [] k = tt
  IsKept-update (j ∷ js) k = ground (arith, m.keeps j k.0, IsKept-update js k.1)

  pub update-IsBounded : (js : List Job) → IsBounded js → IsBounded (update id f js)
  update-IsBounded js b = record {
    room = rw length-update b.room;
    distinct = Distinct-update js b.distinct;
    kept = IsKept-update js b.kept;
  }

-- A change of every job.
module _ (f : Job → Job) (m : IsMild f) where
  has_id-map : (k : Bytes) (js : List Job) → has_id k (map f js) ≡ has_id k js
  unfolding has_id
  has_id-map k [] = refl
  has_id-map k (j ∷ js) = rw (m.same_id j, has_id-map k js) refl

  pub map-IsBounded : (js : List Job) → IsBounded js → IsBounded (map f js)
  map-IsBounded [] b = b
  map-IsBounded (j ∷ js) b =
      let rest =
        map-IsBounded js
          (record { room = omega (arith, b.room); distinct = b.distinct.1; kept = b.kept.1 }) in
      record {
        room = omega (arith, b.room, length-map js);
        distinct = (rw (m.same_id j, has_id-map) b.distinct.0, rest.distinct);
        kept = (m.keeps j b.kept.0, rest.kept);
      }
    where
      length-map : (js : List Job) → length (map f js) ≡ length js
      length-map [] = refl
      length-map (j ∷ js) = ap suc (length-map js)

pub written-IsMild : (p : Bytes) → IsMild (written p)
unfolding write
written-IsMild p = record {
  same_id = λ j. ground arith;
  keeps = λ j k. ground (arith, length-drop (length (j.out ++ p) - max_job_output) (j.out ++ p));
}

pub exited-IsMild : (code : ℕ) → IsMild (exited code)
exited-IsMild code = record { same_id = λ j. ground arith; keeps = λ j k. ground arith }

pub forget-IsMild : IsMild forget_output
unfolding forget_output
forget-IsMild = record { same_id = λ j. refl; keeps = λ j k. omega arith }

pub shot-IsMild : (code : ℕ) → IsMild (λ j. forget_output (shot code j))
unfolding forget_output
shot-IsMild code = record { same_id = λ j. ground arith; keeps = λ j k. omega arith }
