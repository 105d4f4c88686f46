-- ===== src/Ids/Forks.antt =====
-- A fork's ID names its parent and its number (ForkID, ForkOf).
use fern.Prelude.{
  ℕ, zero, suc, ◌+◌, ◌≤◌, ◌<◌, ◌≡◌, ◌≢◌, ◌↔◌, subst, refl, sym, ◌∙◌, none, some, Option, [], ◌∷◌,
  ◌++◌, arith, Bytes, length, take, drop, All, All-map, take-append_length, drop-append_length,
  equal_iff, equal_refl,
}
use mathlib.Core.Path.{ap₂}
use native.Mathlib.Nat.{add-zero}
use fern.Text.{has_prefix, last_index, last_index-absent, last_index-append, last_index_sound}
use fern.Decimal.{ℤ, pos, negsuc, itoa, atoi, IsDigit, itoa-IsDigit, atoi-itoa, max_int}
use fern.Ids.{fork_infix, fork_id, fork_number, fork_at, fork_of}

-- The infix does not start again inside itself and the digits behind it.
fork_infix-last : (ds : Bytes) → All IsDigit ds → last_index (fork_infix ++ ds) fork_infix ≡ some 0
unfolding last_index has_prefix
fork_infix-last [] h = refl
fork_infix-last (d ∷ ds) h = ground (
  arith,
  last_index-absent (d ∷ ds) b'-' (codes_rest) (All-map _ _ (d ∷ ds) (λ c k. ground arith) h),
)
  where
    codes_rest : Bytes
    codes_rest = b'f' ∷ b'o' ∷ b'r' ∷ b'k' ∷ b'-' ∷ []

last_index-fork_id :
    (id : Bytes) (n : ℕ) → last_index (fork_id id n) fork_infix ≡ some (length id + 0)
unfolding fork_id
last_index-fork_id id n =
    last_index-append id (fork_infix ++ itoa n) fork_infix 0
      (fork_infix-last (itoa n) (itoa-IsDigit n))

fork_at-fork_id :
    (c : ℕ) (cs : Bytes) (n : ℕ)
    → 1 ≤ n
    → n < max_int
    → fork_at (fork_id (c ∷ cs) n) (some (length (c ∷ cs))) ≡ some (c ∷ cs, n)
unfolding fork_at fork_number fork_id
fork_at-fork_id c cs n one h =
    rw
      (
        drop-append_length (c ∷ cs) (fork_infix ++ itoa n),
        take-append_length (c ∷ cs) (fork_infix ++ itoa n),
        atoi-itoa n h,
      )
      (ground (arith, equal_refl (itoa n)))

fork_of-fork_id :
    (id : Bytes) (n : ℕ) → id ≢ [] → 1 ≤ n → n < max_int → fork_of (fork_id id n) ≡ some (id, n)
unfolding fork_of
fork_of-fork_id [] n ne one h = absurd (ne refl)
fork_of-fork_id (c ∷ cs) n ne one h =
    rw (last_index-fork_id (c ∷ cs) n, add-zero) (fork_at-fork_id c cs n one h)

fork_number_sound :
    (parent whole : Bytes) (z : Option ℤ) (p : Bytes) (n : ℕ)
    → fork_number parent whole z ≡ some (p, n)
    → (p ≡ parent) × (itoa n ≡ whole) × (1 ≤ n)
unfolding fork_number
fork_number_sound parent whole none p n h = cc
fork_number_sound parent whole (some (negsuc m)) p n h = cc
fork_number_sound parent whole (some (pos m)) p n h = ground (arith, equal_iff (itoa m) whole)

fork_at_sound :
    (fork : Bytes) (i : Option ℕ) (p : Bytes) (n : ℕ)
    → last_index fork fork_infix ≡ i
    → fork_at fork i ≡ some (p, n)
    → (fork ≡ fork_id p n) × (p ≢ []) × (1 ≤ n)
unfolding fork_at fork_id
fork_at_sound fork none p n l h = cc
fork_at_sound fork (some zero) p n l h = cc
fork_at_sound [] (some (suc i)) p n l h = absurd (unfold last_index in ground arith)
fork_at_sound (c ∷ cs) (some (suc i)) p n l h =
    let number = drop (length fork_infix) (drop (suc i) (c ∷ cs)) in
    let (e, d, one) = fork_number_sound (take (suc i) (c ∷ cs)) number (atoi number) p n h in
    (
      last_index_sound (c ∷ cs) fork_infix (suc i) l
          ∙ ap₂ (λ a b. a ++ (fork_infix ++ b)) (sym e) (sym d),
      (λ k. cc (k, e)),
      one,
    )

fork_of_sound :
    (fork p : Bytes) (n : ℕ)
    → fork_of fork ≡ some (p, n)
    → (fork ≡ fork_id p n) × (p ≢ []) × (1 ≤ n)
unfolding fork_of
fork_of_sound fork p n h = fork_at_sound fork _ p n refl h

-- For a number that an int holds, ForkOf reads a parent and the number from just one text: their
-- ForkID, of a parent that is not empty and a number from 1. So no two texts name the same fork, and a
-- text such as "a-fork-01" or "a-fork-+1" names none.
pub fork_of_lem :
    (fork p : Bytes) (n : ℕ)
    → n < max_int
    → (fork_of fork ≡ some (p, n)) ↔ ((fork ≡ fork_id p n) × (p ≢ []) × (1 ≤ n))
fork_of_lem fork p n h = (
  fork_of_sound fork p n,
  λ (e, ne, one). subst (λ f. fork_of f ≡ some (p, n)) (sym e) (fork_of-fork_id p n ne one h),
)
