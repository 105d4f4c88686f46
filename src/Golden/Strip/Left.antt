-- ===== src/Golden/Strip/Left.antt =====
-- What StripSource leaves of a workspace.
use fern.Prelude.{
  ◌≡◌, ◌⊎◌, Bool, true, false, ◌&&◌, ◌||◌, ◌==◌, none, List, [], ◌∷◌, Bytes, is_empty, equal, All,
}
use fern.Sets.{listed, value_of}
use fern.Golden.Strip.{Tree, is_file}

abbrev HasNoNul : Bytes → Type 0
HasNoNul p = All (λ c. (c == 0) ≡ false) p

module _ (is_local fails : Bytes → Bool) where
  -- What a walk's path is: not empty, local, and without a NUL.
  abbrev pub IsName : Bytes → Type 0
  IsName p = (is_empty p ≡ false) × (is_local p ≡ true) × HasNoNul p

  -- Remove fails on one of the paths.
  abbrev pub any_fails : List Bytes → Bool
  any_fails [] = false
  any_fails (p ∷ ps) = fails p || any_fails ps

  -- What one removal does at a path `k`
  abbrev IsMoved : Bytes → Bytes → Tree → Tree → Type 0
  IsMoved p k t u =
      ((value_of k u ≡ value_of k t) × (equal k p && is_file (value_of k t) ≡ false))
      ⊎ ((equal k p ≡ true) × (value_of k u ≡ none))

  -- What the loop over these paths does at a path `k`
  abbrev IsLeft : List Bytes → Bytes → Tree → Tree × Bool → Type 0
  IsLeft ps k t r =
      ((value_of k r.0 ≡ value_of k t) ⊎ ((listed k ps ≡ true) × (value_of k r.0 ≡ none)))
      × (r.1 && listed k ps && is_file (value_of k r.0) ≡ false)
      × (any_fails ps || r.1 ≡ true)
