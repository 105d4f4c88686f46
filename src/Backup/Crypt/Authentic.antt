-- ===== src/Backup/Crypt/Authentic.antt =====
-- Chunks cannot be reordered, dropped, cut off or made up unnoticed.
use fern.Prelude.{
  ℕ, zero, suc, ◌+◌, ◌^◌, ◌≤◌, ◌<◌, ◌≡◌, ◌⊎◌, refl, sym, ap, ◌∙◌, Bool, true, false, Option, none,
  some, List, ◌∷◌, Bytes, length, take, drop, leb, ltb, arith, inl, inr, Bool-cases, length-take,
  subst, All,
}
use fern.Backup.Crypt.{Aead, chunk_size, nonce_for, after, decrypt, open_read}
use fern.Backup.Crypt.Reading.{Ending, whole, bad_key, prepend, Drains}
use fern.Backup.Crypt.Opening.{last_text, more_text, opened_chunks, decrypted, decrypt-Drains}
use fern.Backup.Crypt.Nonces.{length-seven, nonce_for-eq}
use fern.Backup.Crypt.RoundTrip.{IsAead, more_text-prepend}
use fern.Backup.Crypt.Pieces.{
  Piece, pieces, cut_up, piece_at, texts, IsWhole, pieces-IsWhole, texts-pieces, some-eq,
  last-texts, more-texts, IsWhole-pos, at_first, at_next,
}

-- The chunk was sealed under that nonce when the pieces were encrypted.
abbrev pub IsSealed : Aead → Bytes → List Piece → Bytes → Bytes → Type 0
IsSealed a prefix ps n c =
    (j : ℕ) × (q : Piece) × (piece_at ps j ≡ some q)
    × (j < 2 ^ 32)
    × (n ≡ nonce_for prefix j q.0)
    × (c ≡ a.seal n q.1)

-- What opens under a nonce of that prefix was sealed so.
abbrev pub IsHonest : Aead → Bytes → List Piece → Bytes → Bytes → Type 0
IsHonest a prefix ps other c =
    (i : ℕ) (last : Bool) (p : Bytes)
    → a.unseal (nonce_for other i last) c ≡ some p
    → IsSealed a prefix ps (nonce_for other i last) c

-- Opened to the text, or refused.
abbrev IsOr : Ending → List Piece → Type 0
IsOr r qs = (r ≡ bad_key) ⊎ (r ≡ whole (texts qs))

module _ (a : Aead) (law : IsAead a) (prefix other : Bytes) (ps : List Piece)
    (seven : length (take 7 prefix) ≡ 7) (other_seven : length (take 7 other) ≡ 7) where
  -- What opens as chunk `i` is the `i`th piece, sealed.
  opens-piece :
      (i : ℕ) (last : Bool) (c p : Bytes)
      → i < 2 ^ 32
      → IsHonest a prefix ps other c
      → a.unseal (nonce_for other i last) c ≡ some p
      → piece_at ps i ≡ some (last, p)
  opens-piece i last c p hi honest e =
      let (j, q, at, hj, n, sealed) = honest i last p e in
      let (ij, kind) = nonce_for-eq other prefix i j last q.0 other_seven seven hi hj n in
      let text : p ≡ q.1 = some-eq _ _ (
        sym e
        ∙ ap (a.unseal (nonce_for other i last)) sealed
        ∙ law.opens (nonce_for other i last) q.1) in
      rw (ij, at, kind, text) refl

  last-IsOr :
      (i : ℕ) (t : Bytes) (qs : List Piece) (o : Option Bytes)
      → i < 2 ^ 32
      → piece_at ps i ≡ piece_at qs 0
      → IsWhole qs
      → IsHonest a prefix ps other t
      → a.unseal (nonce_for other i true) t ≡ o
      → IsOr (last_text o) qs
  last-IsOr i t qs none hi at w honest e = inl refl
  last-IsOr i t qs (some p) hi at w honest e =
      inr (last-texts qs p w (sym at ∙ opens-piece i true t p hi honest e))

  prepend-IsOr :
      (p : Bytes) (r : Ending) (qs : List Piece)
      → 0 < length p
      → IsOr r qs
      → IsOr (more_text (some p) r) ((false, p) ∷ qs)
  prepend-IsOr p r qs room (inl e) = inl (more_text-prepend p r room ∙ ap (prepend p) e)
  prepend-IsOr p r qs room (inr e) = inr (more_text-prepend p r room ∙ ap (prepend p) e)

  more-IsOr :
      (i : ℕ) (c : Bytes) (qs : List Piece) (o : Option Bytes) (r : Ending)
      → ((m : ℕ) → piece_at ps (i + m) ≡ piece_at qs m)
      → IsWhole qs
      → i + length qs ≤ 2 ^ 32
      → IsHonest a prefix ps other c
      → a.unseal (nonce_for other i false) c ≡ o
      → ((rest : List Piece)
          → ((m : ℕ) → piece_at ps (after i + m) ≡ piece_at rest m)
          → IsWhole rest
          → after i + length rest ≤ 2 ^ 32
          → IsOr r rest)
      → IsOr (more_text o r) qs
  more-IsOr i c qs none r at w few honest e ih = inl refl
  more-IsOr i c qs (some p) r at w few honest e ih =
      let hi : i < 2 ^ 32 = omega (arith, IsWhole-pos qs w) in
      let (rest, split, room, w') =
        more-texts qs p w (sym (at_first ps i qs at) ∙ opens-piece i false c p hi honest e) in
      let count : i + suc (length rest) ≤ 2 ^ 32 = subst (λ x. i + length x ≤ 2 ^ 32) split few in
      let number : after i ≡ i + 1 = omega (arith, IsWhole-pos rest w') in
      let there =
        at_next ps i (false, p) rest
          (subst (λ x. (m : ℕ) → piece_at ps (i + m) ≡ piece_at x m) split at) in
      subst (IsOr (more_text (some p) r)) (sym split) (
        prepend-IsOr p r rest room (
          ih rest (subst (λ n. (m : ℕ) → piece_at ps (n + m) ≡ piece_at rest m) (sym number) there)
            w' (omega arith)))

  pub opened-IsOr :
      (size fuel i : ℕ) (t : Bytes) (qs : List Piece)
      → ((m : ℕ) → piece_at ps (i + m) ≡ piece_at qs m)
      → IsWhole qs
      → i + length qs ≤ 2 ^ 32
      → All (IsHonest a prefix ps other) (cut_up fuel size t)
      → IsOr (opened_chunks fuel (λ i last c. a.unseal (nonce_for other i last) c) size i t) qs
  unfolding opened_chunks cut_up
  opened-IsOr size zero i t qs at w few (honest, _) =
      last-IsOr i t qs _ (omega (arith, IsWhole-pos qs w)) (at_first ps i qs at) w honest refl
  opened-IsOr size (suc fuel) i t qs at w few honest = elim (Bool-cases (leb (length t) size)) [
    | inl short ↦ rw short (
        last-IsOr i t qs _ (omega (arith, IsWhole-pos qs w)) (at_first ps i qs at) w
          ((rw short at honest).0) refl)
    | inr long ↦ rw long (
        more-IsOr i (take size t) qs _ _ at w few ((rw long at honest).0) refl
          λ rest there w' count.
            opened-IsOr size fuel (after i) (drop size t) rest there w' count
              ((rw long at honest).1))
  ]

-- Reading a stream to its end, whoever wrote it, ends in ErrKey or gives a whole text that was
-- encrypted: under the assumption that every one of the stream's chunks that opens under a nonce of
-- the stream's prefix was sealed under that nonce when the text was encrypted, and that the text is
-- of at most 2^32 chunks.
pub decrypt-authentic :
    (a : Aead) (k : ℕ) (prefix bs t : Bytes)
    → IsAead a
    → 0 < k
    → length prefix ≡ 7
    → length (pieces (length bs) chunk_size bs) ≤ 2 ^ 32
    → All
        (IsHonest a prefix (pieces (length bs) chunk_size bs) (take 7 t))
        (cut_up (length (drop 7 t)) (chunk_size + a.overhead) (drop 7 t))
    → Drains (open_read a k) (decrypt a (record { bytes = t; fault = none })) bad_key
      ⊎ Drains (open_read a k) (decrypt a (record { bytes = t; fault = none })) (whole bs)
unfolding decrypted
decrypt-authentic a k prefix bs t law room seven few honest =
    elim (decrypted-IsOr (Bool-cases (ltb (length t) 7))) [
      | inl e ↦ inl (subst (Drains _ _) e (decrypt-Drains a k t room))
      | inr e ↦ inr (subst (Drains _ _) e (decrypt-Drains a k t room))
    ]
  where
    decrypted-IsOr :
        (ltb (length t) 7 ≡ true) ⊎ (ltb (length t) 7 ≡ false)
        → (decrypted a t ≡ bad_key) ⊎ (decrypted a t ≡ whole bs)
    decrypted-IsOr (inl cut) = rw cut (inl refl)
    decrypted-IsOr (inr long) =
        rw long
          (elim (opened-IsOr a law prefix (take 7 t) (pieces (length bs) chunk_size bs)
            (length-seven prefix (omega arith))
            (length-seven (take 7 t) (ground (arith, length-take 7 t))) (chunk_size + a.overhead)
            (length (drop 7 t)) 0 (drop 7 t) (pieces (length bs) chunk_size bs)
            (λ m. ap (piece_at (pieces (length bs) chunk_size bs)) (omega arith))
            (pieces-IsWhole (length bs) chunk_size bs (omega arith)) (omega (arith, few)) honest) [
              | inl e ↦ inl e
              | inr e ↦ inr (e ∙ ap whole (texts-pieces (length bs) chunk_size bs))
            ])
