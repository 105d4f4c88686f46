-- ===== src/Backup/Crypt/Reading.antt =====
-- A reader, read to its end.
use fern.Prelude.{
  ℕ, zero, suc, ◌≤◌, ◌<◌, ◌≡◌, refl, sym, ap, ◌∙◌, [], ◌∷◌, ◌++◌, Bytes, length, take, drop,
  append_assoc, take-append-drop, length-drop, arith, subst,
}
use fern.Backup.Crypt.{Answer, got, eof, err_key, broken}

-- What reading ends in: all the bytes, ErrKey, or an error of the reader below.
pub data Ending : Type 0 where
  whole : Bytes → Ending
  bad_key : Ending
  bad_reader : ℕ → Ending

-- Bytes read first; those before an error are not used.
abbrev pub prepend : Bytes → Ending → Ending
prepend b (whole out) = whole (b ++ out)
prepend b bad_key = bad_key
prepend b (bad_reader e) = bad_reader e

-- Reading from a state ends, after finitely many reads, in `r`.
pub data Drains {S : Type 0} (read : S → Answer S) : S → Ending → Type 0 where
  ends : (s : S) → read s ≡ eof → Drains read s (whole [])
  refuses : (s : S) → read s ≡ err_key → Drains read s bad_key
  breaks : (s : S) (e : ℕ) → read s ≡ broken e → Drains read s (bad_reader e)
  reads :
      (s t : S) (b : Bytes) (r r' : Ending)
      → read s ≡ got b t
      → Drains read t r
      → r' ≡ prepend b r
      → Drains read s r'

pub prepend-prepend : (a b : Bytes) (r : Ending) → prepend a (prepend b r) ≡ prepend (a ++ b) r
prepend-prepend a b (whole out) = ap whole (sym (append_assoc a b out))
prepend-prepend a b bad_key = refl
prepend-prepend a b (bad_reader e) = refl

pub prepend-nil : (r : Ending) → prepend [] r ≡ r
prepend-nil (whole out) = refl
prepend-nil bad_key = refl
prepend-nil (bad_reader e) = refl

-- A reader that hands out what is pending, `k` bytes at a time.
module _ {S : Type 0} (read : S → Answer S) (k : ℕ) (with_pending : Bytes → S)
    (hands : (x : ℕ) (xs : Bytes)
      → read (with_pending (x ∷ xs)) ≡ got (take k (x ∷ xs)) (with_pending (drop k (x ∷ xs))))
    (some_room : 0 < k) where
  pub pending-Drains :
      (fuel : ℕ) (p : Bytes) (r : Ending)
      → length p ≤ fuel
      → Drains read (with_pending []) r
      → Drains read (with_pending p) (prepend p r)
  pending-Drains fuel [] r h d = subst (Drains read (with_pending [])) (sym (prepend-nil r)) d
  pending-Drains zero (x ∷ xs) r h d = absurd (omega arith)
  pending-Drains (suc fuel) (x ∷ xs) r h d =
      reads _ _ _ (prepend (drop k (x ∷ xs)) r) _ (hands x xs)
        (pending-Drains fuel (drop k (x ∷ xs)) r (omega (arith, length-drop k (x ∷ xs))) d)
        (ap (λ b. prepend b r) (sym (take-append-drop k (x ∷ xs)))
          ∙ sym (prepend-prepend (take k (x ∷ xs)) (drop k (x ∷ xs)) r))

  -- A read that got new bytes, of which it hands out the first `k`.
  pub refilled-Drains :
      (s : S) (p : Bytes) (r : Ending)
      → read s ≡ got (take k p) (with_pending (drop k p))
      → Drains read (with_pending []) r
      → Drains read s (prepend p r)
  refilled-Drains s p r e d =
      reads _ _ _ (prepend (drop k p) r) _ e
        (pending-Drains (length p) (drop k p) r (omega (arith, length-drop k p)) d)
        (ap (λ b. prepend b r) (sym (take-append-drop k p))
          ∙ sym (prepend-prepend (take k p) (drop k p) r))
