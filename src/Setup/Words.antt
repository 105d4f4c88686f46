-- ===== src/Setup/Words.antt =====
-- What internal/setup uses of Go's strings, slices and regular expressions, over bytes.
use fern.Prelude.{
  ℕ, zero, suc, Bool, true, false, ◌&&◌, ◌||◌, Option, none, some, List, [], ◌∷◌, ◌++◌, Bytes, ltb,
  leb, ◌==◌, if◌then◌else◌, length, drop,
}
use fern.Text.{has_prefix}
use fern.Ids.{is_alnum}

-- strings.Cut, for a `sep` that is not empty; `none` behind a text without it.
unfoldable pub cut : Bytes → Bytes → Bytes × Option Bytes
unfolding has_prefix
cut sep [] = ([], none)
cut sep (x ∷ xs) =
    let rest = cut sep xs in
    if has_prefix (x ∷ xs) sep
    then ([], some (drop (length sep) (x ∷ xs)))
    else (x ∷ rest.0, rest.1)

-- strings.TrimPrefix
abbrev pub trim_prefix : Bytes → Bytes → Bytes
trim_prefix s prefix = if has_prefix s prefix then drop (length prefix) s else s

-- The characters that unicode.IsSpace accepts, in UTF-8.
abbrev pub spaces : List Bytes
spaces =
    (9 ∷ [])
    ∷ (10 ∷ [])
    ∷ (11 ∷ [])
    ∷ (12 ∷ [])
    ∷ (13 ∷ [])
    ∷ (32 ∷ [])
    ∷ (194 ∷ 133 ∷ [])
    ∷ (194 ∷ 160 ∷ [])
    ∷ (225 ∷ 154 ∷ 128 ∷ [])
    ∷ (226 ∷ 128 ∷ 128 ∷ [])
    ∷ (226 ∷ 128 ∷ 129 ∷ [])
    ∷ (226 ∷ 128 ∷ 130 ∷ [])
    ∷ (226 ∷ 128 ∷ 131 ∷ [])
    ∷ (226 ∷ 128 ∷ 132 ∷ [])
    ∷ (226 ∷ 128 ∷ 133 ∷ [])
    ∷ (226 ∷ 128 ∷ 134 ∷ [])
    ∷ (226 ∷ 128 ∷ 135 ∷ [])
    ∷ (226 ∷ 128 ∷ 136 ∷ [])
    ∷ (226 ∷ 128 ∷ 137 ∷ [])
    ∷ (226 ∷ 128 ∷ 138 ∷ [])
    ∷ (226 ∷ 128 ∷ 168 ∷ [])
    ∷ (226 ∷ 128 ∷ 169 ∷ [])
    ∷ (226 ∷ 128 ∷ 175 ∷ [])
    ∷ (226 ∷ 129 ∷ 159 ∷ [])
    ∷ (227 ∷ 128 ∷ 128 ∷ [])
    ∷ []

unfoldable pub reversed : Bytes → Bytes
reversed [] = []
reversed (x ∷ xs) = reversed xs ++ x ∷ []

-- The text behind the one of some words that it starts with.
unfoldable pub behind : List Bytes → Bytes → Option Bytes
unfolding has_prefix
behind [] s = none
behind (w ∷ ws) s = if has_prefix s w then some (drop (length w) s) else behind ws s

unfoldable pub without_leading : ℕ → List Bytes → Bytes → Bytes
unfolding behind
without_leading zero ws s = s
without_leading (suc fuel) ws s = elim (behind ws s) [
  | none ↦ s
  | some t ↦ without_leading fuel ws t
]

unfoldable pub all_reversed : List Bytes → List Bytes
unfolding reversed
all_reversed [] = []
all_reversed (w ∷ ws) = reversed w ∷ all_reversed ws

-- strings.TrimSpace
unfoldable pub trim_space : Bytes → Bytes
unfolding without_leading reversed all_reversed
trim_space s =
    let t = without_leading (length s) spaces s in
    reversed (without_leading (length t) (all_reversed spaces) (reversed t))

-- The order of Go's strings.
unfoldable pub before : Bytes → Bytes → Bool
before [] [] = false
before [] (y ∷ ys) = true
before (x ∷ xs) [] = false
before (x ∷ xs) (y ∷ ys) = ltb x y || (x == y && before xs ys)

module _ {ℓ} {V : Type ℓ} where
  unfoldable pub inserted : Bytes → V → List (Bytes × V) → List (Bytes × V)
  unfolding before
  inserted k v [] = (k, v) ∷ []
  inserted k v ((j, w) ∷ m) = if before j k then (j, w) ∷ inserted k v m else (k, v) ∷ (j, w) ∷ m

  -- A map in the order of its keys.
  unfoldable pub by_key : List (Bytes × V) → List (Bytes × V)
  unfolding inserted
  by_key [] = []
  by_key ((k, v) ∷ m) = inserted k v (by_key m)

unfoldable pub all_bytes : (ℕ → Bool) → Bytes → Bool
all_bytes f [] = true
all_bytes f (c ∷ cs) = f c && all_bytes f cs

abbrev pub is_digit : ℕ → Bool
is_digit c = leb b'0' c && leb c b'9'

abbrev pub version_byte : ℕ → Bool
version_byte c = is_alnum c || c == b'.' || c == b'-'

-- versionRE: `^[0-9A-Za-z.\-]{1,32}$`
unfoldable pub version_re : Bytes → Bool
unfolding all_bytes
version_re [] = false
version_re (c ∷ cs) = all_bytes version_byte (c ∷ cs) && leb (length (c ∷ cs)) 32

abbrev pub identifier_byte : ℕ → Bool
identifier_byte c = is_alnum c || c == b'_'

-- identifier: `^[A-Za-z0-9_]{1,63}$`
unfoldable pub identifier : Bytes → Bool
unfolding all_bytes
identifier [] = false
identifier (c ∷ cs) = all_bytes identifier_byte (c ∷ cs) && leb (length (c ∷ cs)) 63

unfoldable pub digits : Bytes → Bytes
digits [] = []
digits (c ∷ cs) = if is_digit c then c ∷ digits cs else []

-- firstNumber.FindString: `[0-9]+`
unfoldable pub first_number : Bytes → Bytes
unfolding digits
first_number [] = []
first_number (c ∷ cs) = if is_digit c then digits (c ∷ cs) else first_number cs
