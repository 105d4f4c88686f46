-- ===== src/Setup/Key/Parts.antt =====
-- Checkouts with the same key share what a golden snapshot is built from.
use fern.Prelude.{
  ℕ, ◌≡◌, refl, sym, ap, ◌∙◌, subst, Bool-cases, inl, inr, ◌⊎◌, false, List, [], ◌∷◌, Bytes, All,
  arith, take, ◌==◌, ◌||◌,
}
use fern.Setup.Files.{
  failing, other_error, is_missing, sum_of, contract_files, Result, ok, err, then_ok, Trouble,
  read_file, file_sum,
}
use fern.Setup.Guess.{Guess, Outside, make_guess}
use fern.Setup.Key.{
  version, terminated, hashed, key_text, Checkout, file_sums, key_paths, any_there, is_some,
  parts_with, key_parts, key_of, key, golden_inputs,
}

-- Not a text with a NUL.
abbrev pub IsNulFree : Bytes → Type 0
IsNulFree s = All (λ b. (b == 0) ≡ false) s

terminated-eq :
    (p q r s : Bytes)
    → IsNulFree p
    → IsNulFree q
    → terminated p r ≡ terminated q s
    → (p ≡ q) × (r ≡ s)
terminated-eq [] [] r s hp hq e = (refl, ground (arith, e))
terminated-eq [] (c ∷ q) r s hp hq e = absurd (ground (arith, hq.0, e))
terminated-eq (b ∷ p) [] r s hp hq e = absurd (ground (arith, hp.0, e))
terminated-eq (b ∷ p) (c ∷ q) r s hp hq e =
    let k : terminated p r ≡ terminated q s = ground (arith, e) in
    let (f, g) = terminated-eq p q r s hp.1 hq.1 k in
    let h : b ≡ c = ground (arith, e) in (ap (λ x. x ∷ p) h ∙ ap (λ x. c ∷ x) f, g)

-- Neither the paths nor the sums hold a NUL.
abbrev AreNulFree : List (Bytes × Bytes) → Type 0
AreNulFree ps = All (λ p. IsNulFree p.0 × IsNulFree p.1) ps

terminated-nil : (s r : Bytes) → terminated s r ≡ [] → ⊥
terminated-nil [] r e = ground (arith, e)
terminated-nil (b ∷ s) r e = ground (arith, e)

hashed-eq :
    (ps qs : List (Bytes × Bytes)) → AreNulFree ps → AreNulFree qs → hashed ps ≡ hashed qs → ps ≡ qs
unfolding hashed
hashed-eq [] [] hp hq e = refl
hashed-eq [] ((q, t) ∷ qs) hp hq e = absurd (terminated-nil q _ (sym e))
hashed-eq ((p, s) ∷ ps) [] hp hq e = absurd (terminated-nil p _ e)
hashed-eq ((p, s) ∷ ps) ((q, t) ∷ qs) ((a, b), hp) ((c, d), hq) e =
    let (f, e1) = terminated-eq p q _ _ a c e in
    let (g, e2) = terminated-eq s t _ _ b d e1 in
    let rest = hashed-eq ps qs hp hq e2 in
    ap (λ x. (x, s) ∷ ps) f ∙ ap (λ x. (q, x) ∷ ps) g ∙ ap (λ x. (q, t) ∷ x) rest

key_text-eq :
    (i j : Bytes) (ps qs : List (Bytes × Bytes))
    → IsNulFree i
    → IsNulFree j
    → AreNulFree ps
    → AreNulFree qs
    → key_text i ps ≡ key_text j qs
    → (i ≡ j) × (ps ≡ qs)
unfolding key_text
key_text-eq i j ps qs hi hj hp hq e =
    let v : IsNulFree version = (
      refl,
      (
        refl,
        (refl, (refl, (refl, (refl, (refl, (refl, (refl, (refl, (refl, (refl, (refl, tt))))))))))),
      ),
    ) in
    let (f, e1) = terminated-eq version version _ _ v v e in
    let (g, e2) = terminated-eq i j _ _ hi hj e1 in (g, hashed-eq ps qs hp hq e2)

-- The system opens no path with a NUL, and a digest, in hex, has none.
abbrev pub IsSane : Outside → Type 0
IsSane o =
    ((p : Bytes) → IsNulFree p ⊎ ((e : ℕ) × (o.root p ≡ failing e)))
    × ((t : Bytes) → IsNulFree (o.digest t))

AreNulFreeResult : Result (List (Bytes × Bytes)) → Type 0
AreNulFreeResult (ok ps) = AreNulFree ps
AreNulFreeResult (err e) = Unit

IsNulFreeResult : Result Bytes → Type 0
IsNulFreeResult (ok s) = IsNulFree s
IsNulFreeResult (err e) = Unit

module _ (c : Checkout) (sane : IsSane c.files) where
  sum_of-NulFree : (r : Result Bytes) → IsNulFreeResult (sum_of c.files.root c.files.digest r)
  unfolding IsNulFreeResult
  sum_of-NulFree (ok text) = sane.1 text
  sum_of-NulFree (err e) = elim (Bool-cases (is_missing e)) [
    | inl h ↦ rw h (refl, (refl, (refl, (refl, (refl, (refl, (refl, tt)))))))
    | inr h ↦ rw h tt
  ]

  -- A path with a NUL stops the loop.
  sums_from-NulFree :
      (p : Bytes) (s : Result Bytes) (rest : Result (List (Bytes × Bytes)))
      → IsNulFree p ⊎ ((e : Trouble) × (s ≡ err e))
      → IsNulFreeResult s
      → AreNulFreeResult rest
      → AreNulFreeResult (then_ok s λ sum. then_ok rest λ sums. ok ((p, sum) ∷ sums))
  unfolding then_ok AreNulFreeResult IsNulFreeResult
  sums_from-NulFree p (err e) rest h k r = tt
  sums_from-NulFree p (ok sum) (err e) h k r = tt
  sums_from-NulFree p (ok sum) (ok sums) (inl h) k r = ((h, k), r)
  sums_from-NulFree p (ok sum) (ok sums) (inr (e, h)) k r = absurd (ground (arith, h))

  path-NulFree :
      (p : Bytes) → IsNulFree p ⊎ ((e : Trouble) × (file_sum c.files.root c.files.digest p ≡ err e))
  unfolding file_sum read_file
  path-NulFree p = elim (sane.0 p) [ inl h ↦ inl h | inr (e, h) ↦ inr (other_error e, rw h refl) ]

  file_sums-NulFree : (ps : List Bytes) → AreNulFreeResult (file_sums c ps)
  unfolding file_sums AreNulFreeResult
  file_sums-NulFree [] = tt
  file_sums-NulFree (p ∷ ps) =
      sums_from-NulFree p (file_sum c.files.root c.files.digest p) (file_sums c ps) (path-NulFree p)
        (unfold file_sum in sum_of-NulFree (read_file c.files.root p)) (file_sums-NulFree ps)

  then_ok-NulFree :
      {A : Type 0} (r : Result A) (f : A → Result (List (Bytes × Bytes)))
      → ((x : A) → AreNulFreeResult (f x))
      → AreNulFreeResult (then_ok r f)
  unfolding then_ok AreNulFreeResult
  then_ok-NulFree (ok x) f h = h x
  then_ok-NulFree (err e) f h = tt

  key_parts-NulFree : AreNulFreeResult (key_parts c)
  unfolding key_parts
  key_parts-NulFree = then_ok-NulFree (make_guess c.files) (parts_with c) parts
    where
      parts : (g : Guess) → AreNulFreeResult (parts_with c g)
      parts g = elim (Bool-cases (any_there c contract_files || is_some g.services)) [
        | inl h ↦
            rw h (
              then_ok-NulFree (golden_inputs c) _
                λ inputs. file_sums-NulFree (key_paths c g inputs))
        | inr h ↦ rw h (unfold AreNulFreeResult in tt)
      ]

-- Two checkouts whose goldens have one key, under images with no NUL in their names, where the system
-- opens no path with a NUL: if the hash tells the two texts apart that are hashed, then the images are
-- the same, and so are the paths that go into the key and the sums of their files.
pub key-parts :
    (c d : Checkout) (i j : Bytes) (ps qs : List (Bytes × Bytes))
    → IsSane c.files
    → IsSane d.files
    → IsNulFree i
    → IsNulFree j
    → key_parts c ≡ ok ps
    → key_parts d ≡ ok qs
    → (take 16 (c.files.digest (key_text i ps)) ≡ take 16 (d.files.digest (key_text j qs))
        → key_text i ps ≡ key_text j qs)
    → key c i ≡ key d j
    → (i ≡ j) × (ps ≡ qs)
unfolding key AreNulFreeResult then_ok
key-parts c d i j ps qs sc sd hi hj pc pd apart e =
    let same : ok (key_of c i ps) ≡ ok (key_of d j qs) = rw (pc, pd) at e in
    key_text-eq i j ps qs hi hj (subst AreNulFreeResult pc (key_parts-NulFree c sc))
      (subst AreNulFreeResult pd (key_parts-NulFree d sd)) (apart (ground (arith, same)))
