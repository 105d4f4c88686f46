-- ===== src/Backup/Chunks.antt =====
-- A reader, read in pieces of one size (chunks, next and full of internal/backup/crypt.go).
use fern.Prelude.{
  ℕ, zero, suc, ◌≤◌, ◌<◌, ◌≡◌, refl, Bool, true, false, ◌||◌, Option, none, some, [], ◌∷◌, Bytes,
  if◌then◌else◌, ltb, leb, is_empty, length, take, drop, length-take, length-drop, arith, inl, inr,
  Bool-cases, ap,
}

-- What an io.Reader still has, and the error that it ends with, if not io.EOF.
pub record Source : Type 0 where
  pub bytes : Bytes
  pub fault : Option ℕ

-- full: as many bytes as there are, up to `size`.
pub data Full : Type 0 where
  read : Bytes → Source → Full
  broken : ℕ → Full

abbrev pub short : Option ℕ → Source → Full
short none s = read s.bytes (record s { bytes = [] })
short (some e) s = broken e

unfoldable pub full : ℕ → Source → Full
full size s =
    if leb size (length s.bytes)
    then read (take size s.bytes) (record s { bytes = drop size s.bytes })
    else short s.fault s

-- chunks: `cur` is the part of the buffer that has been read.
pub record Chunks : Type 0 where
  pub source : Source
  pub size : ℕ
  pub cur : Bytes
  pub started : Bool
  pub last : Bool

abbrev pub new_chunks : Source → ℕ → Chunks
new_chunks s size = record { source = s; size = size; cur = []; started = false; last = false }

pub data Next : Type 0 where
  piece : Bytes → Bool → Chunks → Next
  end : Next
  fault : ℕ → Next

-- A short piece, or nothing after this one: this one is the last.
abbrev pub look_ahead : Chunks → Full → Next
look_ahead c (broken e) = fault e
look_ahead c (read m s) =
    if ltb (length c.cur) c.size || is_empty m
    then piece c.cur true (record c { source = s; last = true })
    else piece c.cur false (record c { source = s; cur = m })

abbrev pub with_first : Chunks → Full → Next
with_first c (broken e) = fault e
with_first c (read b s) =
    look_ahead (record c { cur = b; source = s; started = true }) (full c.size s)

unfoldable pub next : Chunks → Next
unfolding full
next c =
    if c.last
    then end
    else if c.started
    then look_ahead c (full c.size c.source)
    else with_first c (full c.size c.source)

-- The pieces that are still to come are those of `bytes`, of which the first has been read.
abbrev pub ready : ℕ → Bytes → Chunks
ready size bytes = record {
  source = record { bytes = drop size bytes; fault = none };
  size = size;
  cur = take size bytes;
  started = true;
  last = false;
}

pub take_all : (n : ℕ) (bs : Bytes) → length bs ≤ n → take n bs ≡ bs
take_all zero [] h = refl
take_all zero (b ∷ bs) h = absurd (omega arith)
take_all (suc n) [] h = refl
take_all (suc n) (b ∷ bs) h = ap (◌∷◌ b) (take_all n bs (omega arith))

pub drop_all : (n : ℕ) (bs : Bytes) → length bs ≤ n → drop n bs ≡ []
drop_all zero [] h = refl
drop_all zero (b ∷ bs) h = absurd (omega arith)
drop_all (suc n) [] h = refl
drop_all (suc n) (b ∷ bs) h = drop_all n bs (omega arith)

pub is_empty-false : (bs : Bytes) → 0 < length bs → is_empty bs ≡ false
is_empty-false [] h = absurd (omega arith)
is_empty-false (b ∷ bs) h = refl

-- A reader that ends with io.EOF is cut in two.
full-eof :
    (size : ℕ) (bs : Bytes)
    → full size (record { bytes = bs; fault = none })
      ≡ read (take size bs) (record { bytes = drop size bs; fault = none })
unfolding full
full-eof size bs = elim (Bool-cases (leb size (length bs))) [
  | inl h ↦ rw h refl
  | inr h ↦
      let few : length bs ≤ size = ground arith in
      rw (h, take_all size bs few, drop_all size bs few) refl
]

pub next-new_chunks :
    (size : ℕ) (bs : Bytes)
    → next (new_chunks (record { bytes = bs; fault = none }) size) ≡ next (ready size bs)
unfolding next
next-new_chunks size bs = rw (full-eof size bs) refl

pub next-last :
    (size : ℕ) (bs : Bytes)
    → 0 < size
    → length bs ≤ size
    → (c : Chunks) × (next (ready size bs) ≡ piece bs true c) × (next c ≡ end)
unfolding next
next-last size bs p h =
    let none_left = drop_all size bs h in
    let all = take_all size bs h in
    (
      record (ready size bs) {
        source = record { bytes = []; fault = none };
        last = true;
        cur = bs;
      },
      rw
          (
            none_left,
            all,
            full-eof size [],
            take_all size [] (omega arith),
            drop_all size [] (omega arith),
          )
          (ground arith),
      refl,
    )

pub next-more :
    (size : ℕ) (bs : Bytes)
    → 0 < size
    → size < length bs
    → next (ready size bs) ≡ piece (take size bs) false (ready size (drop size bs))
unfolding next
next-more size bs p h =
    let whole : length (take size bs) ≡ size = omega (arith, length-take size bs) in
    let left : 0 < length (take size (drop size bs)) =
      omega (arith, length-take size (drop size bs), length-drop size bs) in
    let more : is_empty (take size (drop size bs)) ≡ false = is_empty-false _ left in
    rw (full-eof size (drop size bs), more) (ground (arith, whole))
