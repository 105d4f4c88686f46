-- ===== src/Sets.antt =====
-- Go's maps with strings for keys: sets, and maps to lines.
use fern.Prelude.{
  ◌≡◌, refl, Bool, false, not, ◌&&◌, ◌||◌, Option, none, some, List, [], ◌∷◌, Bytes, if◌then◌else◌,
  equal, equal_iff, equal_refl, arith,
}

-- `_, ok := s[x]`
unfoldable pub listed : Bytes → List Bytes → Bool
listed x [] = false
listed x (y ∷ ys) = equal x y || listed x ys

-- `delete(s, x)`
unfoldable pub unlisted : Bytes → List Bytes → List Bytes
unlisted x [] = []
unlisted x (y ∷ ys) = if equal x y then unlisted x ys else y ∷ unlisted x ys

-- `s[x] = struct{}{}`
unfoldable pub enlisted : Bytes → List Bytes → List Bytes
unfolding listed
enlisted x ys = if listed x ys then ys else x ∷ ys

pub listed-unlisted :
    (id x : Bytes) (xs : List Bytes) → listed id (unlisted x xs) ≡ listed id xs && not (equal id x)
unfolding listed unlisted
listed-unlisted id x [] = refl
listed-unlisted id x (y ∷ ys) =
    ground
      (arith, listed-unlisted id x ys, equal_iff x y, equal_iff id x, equal_iff id y, equal_refl id)

pub listed-enlisted :
    (id x : Bytes) (xs : List Bytes) → listed id (enlisted x xs) ≡ equal id x || listed id xs
unfolding enlisted listed
listed-enlisted id x xs = ground (arith, equal_iff id x)

module _ {ℓ} {V : Type ℓ} where
  -- `v, ok := m[k]`
  unfoldable pub value_of : Bytes → List (Bytes × V) → Option V
  value_of k [] = none
  value_of k ((j, v) ∷ m) = if equal k j then some v else value_of k m

  -- `m[k] = v`
  unfoldable pub store : Bytes → V → List (Bytes × V) → List (Bytes × V)
  store k v [] = (k, v) ∷ []
  store k v ((j, w) ∷ m) = if equal k j then (k, v) ∷ m else (j, w) ∷ store k v m

  pub value_of-store :
      (k j : Bytes) (v : V) (m : List (Bytes × V))
      → value_of j (store k v m) ≡ (if equal j k then some v else value_of j m)
  unfolding value_of store
  value_of-store k j v [] = refl
  value_of-store k j v ((i, w) ∷ m) =
      ground (arith, equal_iff k i, equal_iff j k, equal_iff j i, value_of-store k j v m)
