-- ===== src/Jobs/Output.antt =====
-- The output that a job keeps.
use fern.Prelude.{
  ℕ, zero, suc, ◌+◌, ◌-◌, ◌≤◌, ◌≡◌, refl, sym, ap, ◌∙◌, List, [], ◌∷◌, ◌++◌, arith, Bytes, length,
  drop, length-append, length-drop, append-nil, append_assoc,
}
use mathlib.Core.Path.{◌≡⟨◌⟩◌, ◌∎}
use native.Mathlib.Decide.{dec_lt}
use native.Mathlib.Nat.{zero-add, add-zero, suc-add}
use fern.Jobs.{Job, write, max_job_output}

-- Writes, one after the other.
abbrev pub writes_all : List Bytes → Job → Job
writes_all [] j = j
writes_all (p ∷ ps) j = writes_all ps (write p j)

abbrev pub concat : List Bytes → Bytes
concat [] = []
concat (p ∷ ps) = p ++ concat ps

module _ {ℓ} {A : Type ℓ} where
  drop-drop : (n m : ℕ) (xs : List A) → drop m (drop n xs) ≡ drop (n + m) xs
  drop-drop zero m xs = rw zero-add
  drop-drop (suc n) zero [] = rw add-zero refl
  drop-drop (suc n) (suc m) [] = rw suc-add refl
  drop-drop (suc n) m (x ∷ xs) = rw suc-add (drop-drop n m xs)

  drop-append : (n : ℕ) (xs ys : List A) → n ≤ length xs → drop n (xs ++ ys) ≡ drop n xs ++ ys
  drop-append zero xs ys h = refl
  drop-append (suc n) [] ys h = absurd (omega arith)
  drop-append (suc n) (x ∷ xs) ys h = drop-append n xs ys (omega arith)

-- How many bytes of `all` do not fit.
abbrev pub excess : Bytes → ℕ
excess all = length all - max_job_output

-- Cutting twice is cutting once.
cut_twice :
    (x c : Bytes)
    → let kept = drop (excess x) x ++ c in
      (drop (excess kept) kept ≡ drop (excess (x ++ c)) (x ++ c))
      × (excess x + excess kept ≡ excess (x ++ c))
cut_twice x c =
    let kept = drop (excess x) x ++ c in
    let sum : excess x + excess kept ≡ excess (x ++ c) = omega (
      arith,
      length-append {0} (drop (excess x) x) c,
      length-append {0} x c,
      length-drop {0} (excess x) x,
    ) in
    (
      (drop (excess kept) kept
          ≡⟨ ap (drop (excess kept)) (sym (drop-append (excess x) x c (omega arith))) ⟩
            drop (excess kept) (drop (excess x) (x ++ c))
          ≡⟨ drop-drop (excess x) (excess kept) (x ++ c) ⟩ drop (excess x + excess kept) (x ++ c)
          ≡⟨ ap (λ n. drop n (x ++ c)) sum ⟩ drop (excess (x ++ c)) (x ++ c) ∎),
      sum,
    )

write_lem :
    (p : Bytes) (j : Job)
    → ((write p j).out ≡ drop (excess (j.out ++ p)) (j.out ++ p))
      × ((write p j).dropped ≡ j.dropped + excess (j.out ++ p))
unfolding write
write_lem p j = elim (dec_lt 0 (excess (j.out ++ p))) [
  | yes h ↦ ground arith
  | no h ↦ let z : excess (j.out ++ p) ≡ 0 = omega arith in rw z (refl, omega arith)
]

-- However the output of a job is cut into writes, of what was not read and what is written the
-- newest 1 MiB is kept, and the bytes that do not fit are counted as dropped.
pub writes_all_lem :
    (ps : List Bytes) (j : Job)
    → length j.out ≤ max_job_output
    → let all = j.out ++ concat ps in
      let k = writes_all ps j in
      (k.out ≡ drop (excess all) all) × (k.dropped ≡ j.dropped + excess all)
writes_all_lem [] j h =
    let e : excess (j.out ++ []) ≡ 0 = rw append-nil (omega arith) in
    (rw (e, append-nil) refl, omega (arith, e))
writes_all_lem (p ∷ ps) j h =
    let x = j.out ++ p in
    let (o, d) = write_lem p j in
    let small : length (write p j).out ≤ max_job_output =
      rw o (omega (arith, length-drop (excess x) x)) in
    let (o', d') = writes_all_lem ps (write p j) small in
    let (cut, sum) = cut_twice x (concat ps) in
    (
      o' ∙ rw o (cut ∙ rw append_assoc refl),
      rw (← append_assoc j.out p (concat ps))
          (omega (arith, d', d, sum, ap (λ t. excess (t ++ concat ps)) o)),
    )
