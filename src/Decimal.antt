-- ===== src/Decimal.antt =====
-- What the program uses of Go's `strconv`: decimal numbers, in a 64-bit `int`.
use fern.Prelude.{
  ℕ, zero, suc, ◌+◌, ◌-◌, ◌*◌, ◌/◌, ◌%◌, ◌^◌, ◌≤◌, ◌<◌, ◌≡◌, subst, Bool, ◌&&◌, Option, none, some,
  [], ◌∷◌, ◌++◌, arith, Bytes, ltb, leb, ◌==◌, if◌then◌else◌, All, All-append,
}
use native.Mathlib.Decide.{dec_lt}

-- `negsuc n` is -(n + 1).
pub data ℤ : Type 0 where
  pos : ℕ → ℤ
  negsuc : ℕ → ℤ

abbrev pub digit : ℕ → ℕ
digit n = 48 + n % 10

-- The digits of `n`, with more fuel than `n` has digits.
unfoldable pub itoa_fuel : ℕ → ℕ → Bytes
itoa_fuel zero n = []
itoa_fuel (suc fuel) n =
    let high = itoa_fuel fuel (n / 10) in if ltb n 10 then digit n ∷ [] else high ++ digit n ∷ []

-- strconv.Itoa, of a number that is not negative.
unfoldable pub itoa : ℕ → Bytes
unfolding itoa_fuel
itoa n = itoa_fuel (suc n) n

abbrev pub is_digit : ℕ → Bool
is_digit c = leb b'0' c && leb c b'9'

unfoldable pub digits : ℕ → Bytes → Option ℕ
digits n [] = some n
digits n (c ∷ cs) = if is_digit c then digits (n * 10 + (c - 48)) cs else none

abbrev pub magnitude : Bytes → Option ℕ
magnitude [] = none
magnitude (c ∷ cs) = digits 0 (c ∷ cs)

abbrev pub max_int : ℕ
max_int = 2 ^ 63

abbrev positive : Option ℕ → Option ℤ
positive none = none
positive (some n) = if ltb n max_int then some (pos n) else none

abbrev negative : Option ℕ → Option ℤ
negative none = none
negative (some zero) = some (pos 0)
negative (some (suc n)) = if ltb n max_int then some (negsuc n) else none

-- strconv.Atoi: an optional sign, at least one digit, and the range of an int.
unfoldable pub atoi : Bytes → Option ℤ
unfolding digits
atoi [] = none
atoi (c ∷ cs) =
    if c == b'-'
    then negative (magnitude cs)
    else if c == b'+'
    then positive (magnitude cs)
    else positive (magnitude (c ∷ cs))

digits-append :
    (cs ds : Bytes) (acc m : ℕ) → digits acc cs ≡ some m → digits acc (cs ++ ds) ≡ digits m ds
unfolding digits
digits-append [] ds acc m h = ground arith
digits-append (c ∷ cs) ds acc m h = ground (arith, digits-append cs ds (acc * 10 + (c - 48)) m)

digits-digit : (acc n : ℕ) → digits acc (digit n ∷ []) ≡ some (acc * 10 + n % 10)
unfolding digits
digits-digit acc n = ground arith

digits-itoa_fuel : (fuel n : ℕ) → n < fuel → digits 0 (itoa_fuel fuel n) ≡ some n
unfolding itoa_fuel digits
digits-itoa_fuel zero n h = elim h [ ]
digits-itoa_fuel (suc fuel) n h = ground (
  arith,
  digits-itoa_fuel fuel (n / 10),
  digits-append (itoa_fuel fuel (n / 10)) (digit n ∷ []) 0 (n / 10),
  digits-digit (n / 10) n,
)

abbrev pub IsDigit : ℕ → Type 0
IsDigit c = (48 ≤ c) × (c ≤ 57)

itoa_fuel-IsDigit : (fuel n : ℕ) → All IsDigit (itoa_fuel fuel n)
unfolding itoa_fuel
itoa_fuel-IsDigit zero n = tt
itoa_fuel-IsDigit (suc fuel) n = ground (
  arith,
  itoa_fuel-IsDigit fuel (n / 10),
  All-append IsDigit (itoa_fuel fuel (n / 10)) (digit n ∷ []),
)

-- What Itoa writes is digits only.
pub itoa-IsDigit : (n : ℕ) → All IsDigit (itoa n)
unfolding itoa
itoa-IsDigit n = itoa_fuel-IsDigit (suc n) n

itoa_fuel-cons : (fuel n : ℕ) → n < fuel → (c : ℕ) × (cs : Bytes) × (itoa_fuel fuel n ≡ c ∷ cs)
unfolding itoa_fuel
itoa_fuel-cons zero n h = elim h [ ]
itoa_fuel-cons (suc fuel) n h = elim (dec_lt n 10) [
  | yes p ↦ (digit n, [], ground arith)
  | no p ↦
      let (c, cs, e) = itoa_fuel-cons fuel (n / 10) (omega arith) in
      (c, cs ++ digit n ∷ [], ground arith)
]

-- Itoa writes something.
pub itoa-cons : (n : ℕ) → (c : ℕ) × (cs : Bytes) × (itoa n ≡ c ∷ cs)
unfolding itoa
itoa-cons n = itoa_fuel-cons (suc n) n (omega arith)

atoi-digits :
    (c : ℕ) (cs : Bytes) (n : ℕ)
    → IsDigit c
    → n < max_int
    → digits 0 (c ∷ cs) ≡ some n
    → atoi (c ∷ cs) ≡ some (pos n)
unfolding atoi
atoi-digits c cs n d h e = ground arith

-- Atoi reads back what Itoa writes of a number that an int holds.
pub atoi-itoa : (n : ℕ) → n < max_int → atoi (itoa n) ≡ some (pos n)
atoi-itoa n h =
    let (c, cs, e) = itoa-cons n in
    let d : IsDigit c = (subst (All IsDigit) e (itoa-IsDigit n)).0 in
    rw e (
      atoi-digits c cs n d h (
        subst (λ s. digits 0 s ≡ some n) e
          (unfold itoa in digits-itoa_fuel (suc n) n (omega arith))))
