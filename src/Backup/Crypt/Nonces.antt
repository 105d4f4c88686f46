-- ===== src/Backup/Crypt/Nonces.antt =====
-- The nonces of the chunks: prefix, number and whether it is the last.
use fern.Prelude.{
  ℕ, ◌^◌, ◌≤◌, ◌<◌, ◌≡◌, refl, sym, ◌∙◌, Bool, true, false, [], ◌∷◌, ◌++◌, Bytes, length, take,
  if◌then◌else◌, arith, length-take,
}
use fern.Octets.{head_eq, bytes-eq}
use fern.Backup.Crypt.{nonce_for, big_endian}

pub length-seven : (p : Bytes) → 7 ≤ length p → length (take 7 p) ≡ 7
length-seven p h = omega (arith, length-take 7 p)

append-eq :
    (xs ys us vs : Bytes) → length xs ≡ length ys → xs ++ us ≡ ys ++ vs → (xs ≡ ys) × (us ≡ vs)
append-eq [] [] us vs h e = (refl, e)
append-eq [] (y ∷ ys) us vs h e = absurd (omega arith)
append-eq (x ∷ xs) [] us vs h e = absurd (omega arith)
append-eq (x ∷ xs) (y ∷ ys) us vs h e = ground (arith, append-eq xs ys us vs)

abbrev bit : Bool → ℕ
bit k = if k then 1 else 0

bit-eq : (k l : Bool) → bit k ≡ bit l → k ≡ l
bit-eq true true e = refl
bit-eq true false e = absurd (omega arith)
bit-eq false true e = absurd (omega arith)
bit-eq false false e = refl

big_endian-eq :
    (i j : ℕ) (k l : Bool)
    → i < 2 ^ 32
    → j < 2 ^ 32
    → big_endian i ++ bit k ∷ [] ≡ big_endian j ++ bit l ∷ []
    → (i ≡ j) × (k ≡ l)
big_endian-eq i j k l hi hj e =
    let (a, e1) = head_eq _ _ _ _ e in
    let (b, e2) = head_eq _ _ _ _ e1 in
    let (c, e3) = head_eq _ _ _ _ e2 in
    let (d, e4) = head_eq _ _ _ _ e3 in
    (bytes-eq i j hi hj a b c d, bit-eq k l (head_eq _ _ _ _ e4).0)

-- A nonce says which chunk it is for.
pub nonce_for-eq :
    (p q : Bytes) (i j : ℕ) (k l : Bool)
    → length (take 7 p) ≡ 7
    → length (take 7 q) ≡ 7
    → i < 2 ^ 32
    → j < 2 ^ 32
    → nonce_for p i k ≡ nonce_for q j l
    → (i ≡ j) × (k ≡ l)
unfolding nonce_for
nonce_for-eq p q i j k l hp hq hi hj e =
    big_endian-eq i j k l hi hj (append-eq (take 7 p) (take 7 q) _ _ (hp ∙ sym hq) e).1
