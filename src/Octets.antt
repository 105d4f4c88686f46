-- ===== src/Octets.antt =====
-- The four bytes of a 32-bit number, the high one first.
use fern.Prelude.{ℕ, ◌/◌, ◌%◌, ◌<◌, ◌≡◌, ◌∷◌, Bytes, arith}

pub head_eq : (x y : ℕ) (xs ys : Bytes) → x ∷ xs ≡ y ∷ ys → (x ≡ y) × (xs ≡ ys)
head_eq x y xs ys e = (ground (arith, e), ground (arith, e))

pub bytes-eq :
    (i j : ℕ)
    → i < 4294967296
    → j < 4294967296
    → i / 16777216 % 256 ≡ j / 16777216 % 256
    → i / 65536 % 256 ≡ j / 65536 % 256
    → i / 256 % 256 ≡ j / 256 % 256
    → i % 256 ≡ j % 256
    → i ≡ j
bytes-eq i j hi hj a b c d = omega arith
