-- ===== src/Golden/Strip.antt =====
-- The files that a build's source brings, and their removal (listSource and StripSource of
-- internal/store/golden.go). A tree is its paths below the workspace, each with what is there.
pub mod Left
use fern.Prelude.{
  ℕ, ◌≡◌, ◌⊎◌, inl, inr, refl, sym, ap, ◌∙◌, Bool, Bool-cases, true, false, not, ◌&&◌, ◌||◌, ◌==◌,
  Option, none, some, List, [], ◌∷◌, ◌++◌, Bytes, if◌then◌else◌, is_empty, equal, equal_iff,
  equal_refl, All, arith,
}
use fern.Sets.{listed, value_of}
use fern.Text.{has_prefix}

-- A symlink is a file.
pub data TreeEntry : Type 0 where
  file directory : TreeEntry

abbrev pub Tree : Type 0
Tree = List (Bytes × TreeEntry)

abbrev pub is_file : Option TreeEntry → Bool
is_file none = false
is_file (some file) = true
is_file (some directory) = false

-- The paths of the walk that are no directories
abbrev pub source_names : Tree → List Bytes
source_names [] = []
source_names ((p, file) ∷ t) = p ∷ source_names t
source_names ((p, directory) ∷ t) = source_names t

-- listSource: each path, and a NUL
abbrev pub nul_listing : List Bytes → Bytes
nul_listing [] = []
nul_listing (p ∷ ps) = p ++ 0 ∷ nul_listing ps

abbrev pub list_source : Tree → Bytes
list_source t = nul_listing (source_names t)

abbrev pub onto_first : ℕ → List Bytes → List Bytes
onto_first c [] = (c ∷ []) ∷ []
onto_first c (p ∷ ps) = (c ∷ p) ∷ ps

-- strings.SplitSeq at NULs
unfoldable pub split_nul : Bytes → List Bytes
split_nul [] = [] ∷ []
split_nul (c ∷ cs) = let rest = split_nul cs in if c == 0 then [] ∷ rest else onto_first c rest

unfoldable pub has_below : Bytes → Tree → Bool
unfolding has_prefix
has_below p [] = false
has_below p ((q, e) ∷ t) = has_prefix q (p ++ b'/' ∷ []) || has_below p t

unfoldable pub path_gone : Bytes → Tree → Tree
path_gone p [] = []
path_gone p ((q, e) ∷ t) = let rest = path_gone p t in if equal p q then rest else (q, e) ∷ rest

-- What os.Root's Remove comes to: a file or an empty directory goes; ErrNotExist; ENOTEMPTY; or
-- another error.
pub data Removal : Type 0 where
  gone : Tree → Removal
  missing not_empty broken : Removal

unfoldable pub remove_entry : Bytes → Option TreeEntry → Tree → Removal
unfolding has_below path_gone
remove_entry p none t = missing
remove_entry p (some file) t = gone (path_gone p t)
remove_entry p (some directory) t = if has_below p t then not_empty else gone (path_gone p t)

pub record Stripped : Type 0 where
  pub tree : Tree
  pub list : Option Bytes
  pub ok : Bool

abbrev pub after_removal : Removal → (Tree → Tree × Bool) → Tree → Tree × Bool
after_removal (gone u) rest t = rest u
after_removal missing rest t = rest t
after_removal not_empty rest t = rest t
after_removal broken rest t = (t, false)

-- `stays` says that the list cannot be removed.
abbrev pub strip_ended : Bool → Bytes → Tree × Bool → Stripped
strip_ended stays list (t, true) = record {
  tree = t;
  list = if stays then some list else none;
  ok = not stays;
}
strip_ended stays list (t, false) = record { tree = t; list = some list; ok = false }

-- `is_local` is filepath.IsLocal; `fails` says on which paths Remove has another error,
-- such as one below what is a file now.
module _ (is_local fails : Bytes → Bool) where
  abbrev pub removal : Bytes → Tree → Removal
  removal p t = if fails p then broken else remove_entry p (value_of p t) t

  -- The loop over the names
  unfoldable pub strip_names : List Bytes → Tree → Tree × Bool
  unfolding remove_entry value_of
  strip_names [] t = (t, true)
  strip_names (p ∷ ps) t =
      if is_empty p || not (is_local p)
      then strip_names ps t
      else after_removal (removal p t) (strip_names ps) t

  -- StripSource, by the list that is there
  unfoldable pub strip_listed : Bool → Option Bytes → Tree → Stripped
  unfolding strip_names split_nul
  strip_listed stays none t = record { tree = t; list = none; ok = true }
  strip_listed stays (some list) t = strip_ended stays list (strip_names (split_nul list) t)
