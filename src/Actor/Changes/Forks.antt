-- ===== src/Actor/Changes/Forks.antt =====
-- The numbers that new forks get (Fork of internal/actor/changes.go).
use fern.Prelude.{
  ℕ, zero, suc, ◌+◌, ◌-◌, ◌≤◌, ◌<◌, ◌≡◌, ◌⊎◌, inl, inr, refl, true, false, List, [], ◌∷◌, arith,
  leb, if◌then◌else◌, length, All, Bool-cases,
}
use fern.Actor.State.{ok, err, too_many_forks}
use fern.Actor.Exec.{has}
use fern.Actor.Changes.{free_numbers, fork_numbers, max_forks}

-- How many of the numbers taken are `n` or more.
abbrev from : ℕ → List ℕ → ℕ
from n [] = 0
from n (x ∷ xs) = (if leb n x then 1 else 0) + from n xs

from-suc : (n : ℕ) (xs : List ℕ) → from (n + 1) xs + (if has n xs then 1 else 0) ≤ from n xs
unfolding has
from-suc n [] = omega arith
from-suc n (x ∷ xs) = ground (arith, from-suc n xs)

from-le : (n : ℕ) (xs : List ℕ) → from n xs ≤ length xs
from-le n [] = omega arith
from-le n (x ∷ xs) = ground (arith, from-le n xs)

-- The loop does not run out of fuel: each round uses up a number that is taken or wanted.
length-free_numbers :
    (fuel : ℕ) (taken : List ℕ) (n count : ℕ)
    → from n taken + count ≤ fuel
    → length (free_numbers fuel taken n count) ≡ count
unfolding free_numbers
length-free_numbers zero taken n zero h = refl
length-free_numbers (suc fuel) taken n zero h = refl
length-free_numbers zero taken n (suc count) h = absurd (omega arith)
length-free_numbers (suc fuel) taken n (suc count) h = ground (
  arith,
  from-suc n taken,
  length-free_numbers fuel taken (n + 1) (suc count),
  length-free_numbers fuel taken (n + 1) count,
)

abbrev pub range : ℕ → ℕ → List ℕ
range n zero = []
range n (suc k) = n ∷ range (n + 1) k

-- The numbers are the free ones from `n` on, with none left out, in order.
abbrev pub Lowest : List ℕ → ℕ → List ℕ → Type 0
Lowest taken n [] = Unit {0}
Lowest taken n (x ∷ xs) =
    (n ≤ x)
    × (has x taken ≡ false)
    × All (λ y. has y taken ≡ true) (range n (x - n))
    × Lowest taken (x + 1) xs

Lowest-skip :
    (taken : List ℕ) (n : ℕ) (ns : List ℕ)
    → has n taken ≡ true
    → Lowest taken (n + 1) ns
    → Lowest taken n ns
Lowest-skip taken n [] t h = tt
Lowest-skip taken n (x ∷ xs) t (below, free, gaps, rest) =
    let e : x - n ≡ suc (x - (n + 1)) = omega arith in (omega arith, free, rw e (t, gaps), rest)

empty_range : (taken : List ℕ) (n : ℕ) → All (λ y. has y taken ≡ true) (range n (n - n))
empty_range taken n = let e : n - n ≡ 0 = omega arith in rw e tt

free_numbers-Lowest :
    (fuel : ℕ) (taken : List ℕ) (n count : ℕ) → Lowest taken n (free_numbers fuel taken n count)
unfolding free_numbers
free_numbers-Lowest zero taken n zero = tt
free_numbers-Lowest (suc fuel) taken n zero = tt
free_numbers-Lowest zero taken n (suc count) = tt
free_numbers-Lowest (suc fuel) taken n (suc count) = elim (Bool-cases (has n taken)) [
  | inl t ↦ rw t (Lowest-skip taken n _ t (free_numbers-Lowest fuel taken (n + 1) (suc count)))
  | inr f ↦ rw f (omega arith, f, empty_range taken n, free_numbers-Lowest fuel taken (n + 1) count)
]

free_numbers-bound :
    (fuel : ℕ) (taken : List ℕ) (n count top : ℕ)
    → n + fuel ≤ top + 1
    → All (λ x. x ≤ top) (free_numbers fuel taken n count)
unfolding free_numbers
free_numbers-bound zero taken n zero top h = tt
free_numbers-bound (suc fuel) taken n zero top h = tt
free_numbers-bound zero taken n (suc count) top h = tt
free_numbers-bound (suc fuel) taken n (suc count) top h = ground (
  arith,
  free_numbers-bound fuel taken (n + 1) (suc count) top,
  free_numbers-bound fuel taken (n + 1) count top,
)

fork_numbers-picked :
    (count : ℕ) (taken : List ℕ)
    → 1 ≤ count
    → length taken + count ≤ max_forks
    → (ns : List ℕ) × (fork_numbers count taken ≡ ok ns)
      × (length ns ≡ count)
      × Lowest taken 1 ns
      × All (λ x. x ≤ max_forks) ns
unfolding fork_numbers
fork_numbers-picked count taken one few =
    let fuel = length taken + count in
    (
      free_numbers fuel taken 1 count,
      ground arith,
      length-free_numbers fuel taken 1 count (omega (arith, from-le 1 taken)),
      free_numbers-Lowest fuel taken 1 count,
      free_numbers-bound fuel taken 1 count max_forks (omega arith),
    )

fork_numbers-refused :
    (count : ℕ) (taken : List ℕ)
    → (count ≡ 0) ⊎ (max_forks < length taken + count)
    → fork_numbers count taken ≡ err too_many_forks
unfolding fork_numbers
fork_numbers-refused count taken h = ground arith

-- Fork refuses no forks at all, and more than eight in all; else it picks as many numbers as it was
-- asked for: the lowest from 1 that no fork has, in order, and none above 8.
pub fork_numbers_lem :
    (count : ℕ) (taken : List ℕ)
    → (((count ≡ 0) ⊎ (max_forks < length taken + count))
        × (fork_numbers count taken ≡ err too_many_forks))
      ⊎ ((1 ≤ count)
          × (length taken + count ≤ max_forks)
          × ((ns : List ℕ) × (fork_numbers count taken ≡ ok ns)
              × (length ns ≡ count)
              × Lowest taken 1 ns
              × All (λ x. x ≤ max_forks) ns))
fork_numbers_lem zero taken = inl (inl refl, fork_numbers-refused 0 taken (inl refl))
fork_numbers_lem (suc n) taken = elim (Bool-cases (leb (length taken + suc n) max_forks)) [
  | inl y ↦
      let few : length taken + suc n ≤ max_forks = ground (arith, y) in
      inr (omega arith, few, fork_numbers-picked (suc n) taken (omega arith) few)
  | inr y ↦
      let many : max_forks < length taken + suc n = ground (arith, y) in
      inl (inr many, fork_numbers-refused (suc n) taken (inr many))
]
