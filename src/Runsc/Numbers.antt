-- ===== src/Runsc/Numbers.antt =====
-- A number that Itoa wrote is read back from a file.
use fern.Prelude.{
  ℕ, zero, suc, ◌≡◌, refl, ap, ◌∙◌, Bool, true, false, not, ◌&&◌, none, some, List, [], ◌∷◌, ◌++◌,
  Bytes, All, All-append, length, arith, ◌<◌,
}
use fern.Decimal.{IsDigit, is_digit, itoa, itoa-IsDigit, atoi, atoi-itoa, pos, max_int}
use fern.Text.{has_prefix}
use fern.Setup.Words.{spaces, reversed, behind, without_leading, all_reversed, trim_space}

-- No word is empty or begins with a digit.
abbrev are_apart : List Bytes → Bool
are_apart [] = true
are_apart ([] ∷ ws) = false
are_apart ((x ∷ xs) ∷ ws) = not (is_digit x) && are_apart ws

behind-digits :
    (ws : List Bytes) (s : Bytes) → All IsDigit s → are_apart ws ≡ true → behind ws s ≡ none
unfolding behind has_prefix
behind-digits [] s h k = refl
behind-digits ([] ∷ ws) s h k = absurd (ground (arith, k))
behind-digits ((x ∷ xs) ∷ ws) [] h k = behind-digits ws [] h (ground (arith, k))
behind-digits ((x ∷ xs) ∷ ws) (d ∷ s) h k = ground (arith, k, h.0, behind-digits ws (d ∷ s) h)

without_leading-digits :
    (fuel : ℕ) (ws : List Bytes) (s : Bytes)
    → All IsDigit s
    → are_apart ws ≡ true
    → without_leading fuel ws s ≡ s
unfolding without_leading
without_leading-digits zero ws s h k = refl
without_leading-digits (suc fuel) ws s h k = ground (arith, behind-digits ws s h k)

reversed-IsDigit : (s : Bytes) → All IsDigit s → All IsDigit (reversed s)
unfolding reversed
reversed-IsDigit [] h = tt
reversed-IsDigit (x ∷ xs) h =
    All-append IsDigit (reversed xs) (x ∷ []) (reversed-IsDigit xs h.1) (h.0, tt)

reversed-append : (xs : Bytes) (y : ℕ) → reversed (xs ++ y ∷ []) ≡ y ∷ reversed xs
unfolding reversed
reversed-append [] y = refl
reversed-append (x ∷ xs) y = rw (reversed-append xs y) refl

reversed-reversed : (s : Bytes) → reversed (reversed s) ≡ s
unfolding reversed
reversed-reversed [] = refl
reversed-reversed (x ∷ xs) = reversed-append (reversed xs) x ∙ ap (◌∷◌ x) (reversed-reversed xs)

reversed_spaces : are_apart (all_reversed spaces) ≡ true
unfolding all_reversed reversed
reversed_spaces = refl

trim_space-digits : (s : Bytes) → All IsDigit s → trim_space s ≡ s
unfolding trim_space
trim_space-digits s h =
    rw
      (
        without_leading-digits (length s) spaces s h refl,
        without_leading-digits (length s) (all_reversed spaces) (reversed s) (reversed-IsDigit s h)
            reversed_spaces,
      )
      (reversed-reversed s)

-- What Itoa wrote is read back, with or without a look for space around it.
pub atoi-trim_space : (n : ℕ) → n < max_int → atoi (trim_space (itoa n)) ≡ some (pos n)
atoi-trim_space n h = ap atoi (trim_space-digits (itoa n) (itoa-IsDigit n)) ∙ atoi-itoa n h
