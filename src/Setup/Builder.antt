-- ===== src/Setup/Builder.antt =====
-- The environments that build golden snapshots, and those that hold their sources
-- (internal/setup/setup.go).
pub mod Names
use fern.Prelude.{
  ℕ, zero, suc, ◌+◌, ◌-◌, Bool, true, false, ◌&&◌, ◌||◌, Option, none, some, List, [], ◌∷◌, ◌++◌,
  map, Bytes, codes, ltb, leb, ◌==◌, if◌then◌else◌, is_empty, length, take,
}
use fern.Text.{has_suffix, trim_suffix}
use fern.Ids.{is_lower_alnum, builder_prefix, is_builder}

abbrev pub source_suffix : Bytes
source_suffix = codes "-src"

-- strings.Trim(s, "-")
unfoldable pub trim_left : Bytes → Bytes
trim_left [] = []
trim_left (c ∷ cs) = if c == b'-' then trim_left cs else c ∷ cs

unfoldable pub trim_right : Bytes → Bytes
trim_right [] = []
trim_right (c ∷ cs) =
    let rest = trim_right cs in if c == b'-' && is_empty rest then [] else c ∷ rest

abbrev pub trim : Bytes → Bytes
trim s = trim_right (trim_left s)

abbrev pub label_byte : ℕ → ℕ
label_byte r = if is_lower_alnum r then r else b'-'

unfoldable pub cut_readable : Bytes → Bytes
unfolding trim_left trim_right
cut_readable s = if ltb 30 (length s) then trim (take 30 s) else s

unfoldable pub or_repo : Bytes → Bytes
or_repo s = if is_empty s then codes "repo" else s

-- `lowered` is strings.ToLower, read rune by rune, and `digest` the SHA-256 of a text in hex.
module _ (lowered : Bytes → List ℕ) (digest : Bytes → Bytes) where
  unfoldable pub readable : Bytes → Bytes
  unfolding cut_readable or_repo trim_left trim_right
  readable repo = or_repo (cut_readable (trim (map label_byte (lowered repo))))

  unfoldable pub builder_id : Bytes → Bytes
  unfolding readable
  builder_id repo = (builder_prefix ++ (readable repo ++ b'-' ∷ [])) ++ take 8 (digest repo)

  unfoldable pub source_id : Bytes → Bytes
  unfolding builder_id
  source_id repo = builder_id repo ++ source_suffix

unfoldable pub builder_of : Bytes → Option Bytes
unfolding is_builder has_suffix trim_suffix
builder_of id =
    if is_builder id
    then (if has_suffix id source_suffix then some (trim_suffix id source_suffix) else none)
    else none
