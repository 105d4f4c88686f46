-- ===== src/Text.antt =====
-- What the program uses of Go's `strings`, over bytes.
use fern.Prelude.{
  ℕ, zero, suc, ◌+◌, ◌-◌, ◌≡◌, refl, ap, sym, ◌∙◌, Bool, true, false, ◌&&◌, Option, none, some, [],
  ◌∷◌, ◌++◌, arith, Bytes, leb, ◌==◌, if◌then◌else◌, equal, equal_iff, equal_refl, is_empty, length,
  take, drop, length-append, take-append-drop, take-append_length, drop-append_length, All,
}

-- strings.HasPrefix
unfoldable pub has_prefix : Bytes → Bytes → Bool
has_prefix s [] = true
has_prefix [] (p ∷ ps) = false
has_prefix (x ∷ xs) (p ∷ ps) = x == p && has_prefix xs ps

-- strings.HasSuffix
unfoldable pub has_suffix : Bytes → Bytes → Bool
has_suffix s suffix =
    leb (length suffix) (length s) && equal (drop (length s - length suffix) s) suffix

-- strings.TrimSuffix
unfoldable pub trim_suffix : Bytes → Bytes → Bytes
unfolding has_suffix
trim_suffix s suffix = if has_suffix s suffix then take (length s - length suffix) s else s

-- strings.LastIndex; `none` for -1.
unfoldable pub last_index : Bytes → Bytes → Option ℕ
last_index [] sub = if is_empty sub then some 0 else none
last_index (x ∷ xs) sub = elim (last_index xs sub) [
  | some i ↦ some (suc i)
  | none ↦ if has_prefix (x ∷ xs) sub then some 0 else none
]

pub has_prefix_sound : (s p : Bytes) → has_prefix s p ≡ true → s ≡ p ++ drop (length p) s
unfolding has_prefix
has_prefix_sound s [] h = refl
has_prefix_sound [] (p ∷ ps) h = ground arith
has_prefix_sound (x ∷ xs) (p ∷ ps) h = ground (arith, has_prefix_sound xs ps)

pub has_suffix-append : (s suffix : Bytes) → has_suffix (s ++ suffix) suffix ≡ true
unfolding has_suffix
has_suffix-append s suffix =
    let e : length (s ++ suffix) - length suffix ≡ length s =
      omega (arith, length-append s suffix) in
    rw (e, drop-append_length s suffix, equal_refl suffix) (ground (arith, length-append s suffix))

pub trim_suffix-append : (s suffix : Bytes) → trim_suffix (s ++ suffix) suffix ≡ s
unfolding trim_suffix
trim_suffix-append s suffix =
    let e : length (s ++ suffix) - length suffix ≡ length s =
      omega (arith, length-append s suffix) in
    rw (has_suffix-append s suffix, e) (take-append_length s suffix)

pub has_suffix_sound :
    (s suffix : Bytes)
    → has_suffix s suffix ≡ true
    → s ≡ take (length s - length suffix) s ++ suffix
unfolding has_suffix
has_suffix_sound s suffix h =
    let cut = length s - length suffix in
    let e : drop cut s ≡ suffix = ground (arith, equal_iff (drop cut s) suffix) in
    sym (ap (λ t. take cut s ++ t) (sym e) ∙ take-append-drop cut s)

-- Where `last_index` finds `sub`, it stands.
pub last_index_sound :
    (s sub : Bytes) (i : ℕ)
    → last_index s sub ≡ some i
    → s ≡ take i s ++ (sub ++ drop (length sub) (drop i s))
unfolding last_index
last_index_sound [] [] zero h = refl
last_index_sound [] [] (suc i) h = ground arith
last_index_sound [] (p ∷ ps) i h = ground arith
last_index_sound (x ∷ xs) sub zero h = ground (arith, has_prefix_sound (x ∷ xs) sub)
last_index_sound (x ∷ xs) sub (suc i) h = ap (◌∷◌ x) (last_index_sound xs sub i (ground arith))

-- A text without the first byte of `sub` does not hold `sub`.
pub last_index-absent :
    (s : Bytes) (p : ℕ) (ps : Bytes) → All (λ c. (c == p) ≡ false) s → last_index s (p ∷ ps) ≡ none
unfolding last_index has_prefix
last_index-absent [] p ps h = refl
last_index-absent (x ∷ xs) p ps h = ground (arith, last_index-absent xs p ps h.1)

pub last_index-append :
    (s t sub : Bytes) (i : ℕ)
    → last_index t sub ≡ some i
    → last_index (s ++ t) sub ≡ some (length s + i)
unfolding last_index
last_index-append [] t sub i h = ground arith
last_index-append (x ∷ s) t sub i h = rw (last_index-append s t sub i h) (ground arith)
