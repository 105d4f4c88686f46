-- ===== src/Watch/Slices.antt =====
-- Go's byte slices, with the panic of an index out of range, and encoding/binary's numbers. The
-- machine's byte order is little-endian, as on the nodes' amd64 and arm64.
use fern.Prelude.{
  ℕ, ◌+◌, ◌-◌, ◌*◌, ◌≤◌, ◌≡◌, refl, Bool, true, false, ◌&&◌, [], ◌∷◌, arith, Bytes, leb,
  if◌then◌else◌, length, take, drop, length-take, length-drop,
}

pub data Error : Type 0 where
  short : Error
  version : ℕ → Error

-- What a call ends in. `diverges` stands for a loop that has not ended when its fuel is used up.
pub data Out {ℓ} (A : Type ℓ) : Type ℓ where
  ok : A → Out A
  err : Error → Out A
  panic diverges : Out A

infixl 5 ◌>>=◌ ◌>>◌
abbrev pub ◌>>=◌ {ℓ κ} : {A : Type ℓ} {B : Type κ} → Out A → (A → Out B) → Out B
ok a >>= f = f a
err e >>= f = err e
panic >>= f = panic
diverges >>= f = diverges

abbrev pub ◌>>◌ {ℓ} : {B : Type ℓ} → Out (Unit {0}) → Out B → Out B
m >> k = m >>= λ _. k

-- `if bad { return nil, e }`
abbrev pub fail_if : Bool → Error → Out (Unit {0})
fail_if true e = err e
fail_if false e = ok tt

-- The call returns, with a value or with an error.
abbrev pub Returns {ℓ} : {A : Type ℓ} → Out A → Type 0
Returns (ok a) = Unit
Returns (err e) = Unit
Returns panic = ⊥
Returns diverges = ⊥

pub Returns-bind {ℓ κ} :
    {A : Type ℓ} {B : Type κ} (m : Out A) (f : A → Out B)
    → Returns m
    → ((a : A) → m ≡ ok a → Returns (f a))
    → Returns (m >>= f)
Returns-bind (ok a) f r k = k a refl
Returns-bind (err e) f r k = tt
Returns-bind panic f r k = r
Returns-bind diverges f r k = r

-- A call that returns a value made each of its parts return one.
pub bind-ok {ℓ κ} :
    {A : Type ℓ} {B : Type κ} (m : Out A) (f : A → Out B) {b : B}
    → (m >>= f) ≡ ok b
    → (a : A) × (m ≡ ok a) × (f a ≡ ok b)
bind-ok (ok a) f h = (a, refl, h)
bind-ok (err e) f h = absurd (cc)
bind-ok panic f h = absurd (cc)
bind-ok diverges f h = absurd (cc)

-- buf[a:b]
unfoldable pub slice : Bytes → ℕ → ℕ → Out Bytes
slice buf a b = if leb a b && leb b (length buf) then ok (take (b - a) (drop a buf)) else panic

-- buf[a:]
unfoldable pub slice_from : Bytes → ℕ → Out Bytes
unfolding slice
slice_from buf a = slice buf a (length buf)

abbrev pub le_number : Bytes → ℕ
le_number [] = 0
le_number (b ∷ bs) = b + 256 * le_number bs

-- NativeEndian.Uint16, Uint32 and Uint64 of buf[off:], for `n` bytes.
unfoldable pub uint : ℕ → Bytes → ℕ → Out ℕ
uint n buf off =
    if leb (off + n) (length buf) then ok (le_number (take n (drop off buf))) else panic

-- buf[i]
unfoldable pub byte_at : Bytes → ℕ → Out ℕ
unfolding uint
byte_at buf i = uint 1 buf i

pub slice-Returns : (buf : Bytes) (a b : ℕ) → a ≤ b → b ≤ length buf → Returns (slice buf a b)
unfolding slice
slice-Returns buf a b h k = ground arith

pub uint-Returns : (n : ℕ) (buf : Bytes) (off : ℕ) → off + n ≤ length buf → Returns (uint n buf off)
unfolding uint
uint-Returns n buf off h = ground arith

pub slice-length : (buf : Bytes) (a b : ℕ) {s : Bytes} → slice buf a b ≡ ok s → length s ≡ b - a
unfolding slice
slice-length buf a b h = ground (arith, length-take (b - a) (drop a buf), length-drop a buf)

pub fail_if-ok : (b : Bool) (e : Error) {u : Unit {0}} → fail_if b e ≡ ok u → b ≡ false
fail_if-ok true e h = cc
fail_if-ok false e h = refl
