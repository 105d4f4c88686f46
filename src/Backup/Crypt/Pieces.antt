-- ===== src/Backup/Crypt/Pieces.antt =====
-- A text in pieces, as Encrypt cuts it, and a stream as Decrypt does.
use fern.Prelude.{
  ℕ, zero, suc, ◌+◌, ◌<◌, ◌≡◌, refl, sym, ap, Bool, true, false, Option, none, some, List, [], ◌∷◌,
  ◌++◌, Bytes, length, take, drop, if◌then◌else◌, leb, arith, inl, inr, Bool-cases, length-take,
  take-append-drop, append-nil, subst,
}
use fern.Backup.Crypt.Reading.{whole}

abbrev pub Piece : Type 0
Piece = Bool × Bytes

-- A text's pieces, and whether each is the last.
unfoldable pub pieces : ℕ → ℕ → Bytes → List Piece
pieces zero size bs = (true, bs) ∷ []
pieces (suc fuel) size bs =
    let more = (false, take size bs) ∷ pieces fuel size (drop size bs) in
    if leb (length bs) size then (true, bs) ∷ [] else more

-- The pieces of a stream, as Decrypt reads it.
unfoldable pub cut_up : ℕ → ℕ → Bytes → List Bytes
cut_up zero size t = t ∷ []
cut_up (suc fuel) size t =
    let more = take size t ∷ cut_up fuel size (drop size t) in
    if leb (length t) size then t ∷ [] else more

abbrev pub piece_at : List Piece → ℕ → Option Piece
piece_at [] j = none
piece_at (p ∷ ps) zero = some p
piece_at (p ∷ ps) (suc j) = piece_at ps j

abbrev pub texts : List Piece → Bytes
texts [] = []
texts (p ∷ ps) = p.1 ++ texts ps

-- All pieces but the last hold something, and only the last is marked as such.
abbrev pub IsWhole : List Piece → Type 0
IsWhole [] = ⊥
IsWhole ((true, b) ∷ ps) = ps ≡ []
IsWhole ((false, b) ∷ ps) = (0 < length b) × IsWhole ps

pub pieces-IsWhole : (fuel size : ℕ) (bs : Bytes) → 0 < size → IsWhole (pieces fuel size bs)
unfolding pieces
pieces-IsWhole zero size bs h = refl
pieces-IsWhole (suc fuel) size bs h = elim (Bool-cases (leb (length bs) size)) [
  | inl few ↦ rw few refl
  | inr many ↦
      rw many (ground (arith, length-take size bs), pieces-IsWhole fuel size (drop size bs) h)
]

pub texts-pieces : (fuel size : ℕ) (bs : Bytes) → texts (pieces fuel size bs) ≡ bs
unfolding pieces
texts-pieces zero size bs = append-nil bs
texts-pieces (suc fuel) size bs = elim (Bool-cases (leb (length bs) size)) [
  | inl few ↦ rw few (append-nil bs)
  | inr many ↦ rw (many, texts-pieces fuel size (drop size bs)) (take-append-drop size bs)
]

pub some-eq {ℓ} : {A : Type ℓ} (x y : A) → some x ≡ some y → x ≡ y
some-eq x y e = cc

-- The one piece that is marked as the last.
pub last-texts :
    (qs : List Piece) (p : Bytes)
    → IsWhole qs
    → piece_at qs 0 ≡ some (true, p)
    → whole p ≡ whole (texts qs)
last-texts [] p w e = absurd w
last-texts ((true, b) ∷ qs) p w e =
    ap whole (sym (rw (w, append-nil b) (ap (λ q. q.1) (some-eq _ _ e))))
last-texts ((false, b) ∷ qs) p w e =
    let kind : false ≡ true = ap (λ q. q.0) (some-eq _ _ e) in absurd (ground (arith, kind))

-- A piece that is not, and those behind it.
pub more-texts :
    (qs : List Piece) (p : Bytes)
    → IsWhole qs
    → piece_at qs 0 ≡ some (false, p)
    → (rest : List Piece) × (qs ≡ (false, p) ∷ rest) × (0 < length p) × IsWhole rest
more-texts [] p w e = absurd w
more-texts ((true, b) ∷ qs) p w e =
    let kind : true ≡ false = ap (λ q. q.0) (some-eq _ _ e) in absurd (ground (arith, kind))
more-texts ((false, b) ∷ qs) p (some_text, w) e =
    let same : b ≡ p = ap (λ q. q.1) (some-eq _ _ e) in
    (qs, ap (λ c. (false, c) ∷ qs) same, subst (λ c. 0 < length c) same some_text, w)

pub IsWhole-pos : (qs : List Piece) → IsWhole qs → 0 < length qs
IsWhole-pos [] w = absurd w
IsWhole-pos (q ∷ qs) w = omega arith

pub at_first :
    (ps : List Piece) (i : ℕ) (qs : List Piece)
    → ((m : ℕ) → piece_at ps (i + m) ≡ piece_at qs m)
    → piece_at ps i ≡ piece_at qs 0
at_first ps i qs at = subst (λ j. piece_at ps j ≡ piece_at qs 0) (omega arith) (at 0)

pub at_next :
    (ps : List Piece) (i : ℕ) (q : Piece) (qs : List Piece)
    → ((m : ℕ) → piece_at ps (i + m) ≡ piece_at (q ∷ qs) m)
    → (m : ℕ) → piece_at ps (i + 1 + m) ≡ piece_at qs m
at_next ps i q qs at m = subst (λ j. piece_at ps j ≡ piece_at qs m) (omega arith) (at (suc m))
