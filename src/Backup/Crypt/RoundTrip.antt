-- ===== src/Backup/Crypt/RoundTrip.antt =====
-- Decrypt reads what Encrypt writes.
use fern.Prelude.{
  ℕ, zero, suc, ◌+◌, ◌≤◌, ◌<◌, ◌≡◌, refl, ap, ◌∙◌, Bool, true, false, Option, none, some, [], ◌∷◌,
  ◌++◌, Bytes, length, take, drop, leb, ltb, arith, inl, inr, Bool-cases, length-drop, length-take,
  length-append, take-append-drop, take-append_length, drop-append_length, subst,
}
use fern.Backup.Crypt.{
  Aead, chunk_size, nonce_for, after, decrypt, open_read, encrypt, seal_read, encrypt, seal_read,
}
use fern.Backup.Crypt.Reading.{Ending, whole, prepend, Drains}
use fern.Backup.Crypt.Sealing.{sealed_chunks, encrypted, encrypt-Drains}
use fern.Backup.Crypt.Opening.{last_text, more_text, opened_chunks, decrypted, decrypt-Drains}

-- What cipher.AEAD documents: Open undoes Seal, which adds Overhead bytes.
pub record IsAead (a : Aead) : Type 0 where
  pub opens : (n p : Bytes) → a.unseal n (a.seal n p) ≡ some p
  pub grows : (n p : Bytes) → length (a.seal n p) ≡ length p + a.overhead
  pub adds : 0 < a.overhead

pub take-append_eq : (n : ℕ) (xs ys : Bytes) → length xs ≡ n → take n (xs ++ ys) ≡ xs
take-append_eq n xs ys h = subst (λ m. take m (xs ++ ys) ≡ xs) h (take-append_length xs ys)

pub drop-append_eq : (n : ℕ) (xs ys : Bytes) → length xs ≡ n → drop n (xs ++ ys) ≡ ys
drop-append_eq n xs ys h = subst (λ m. drop m (xs ++ ys) ≡ ys) h (drop-append_length xs ys)

pub more_text-prepend : (p : Bytes) (r : Ending) → 0 < length p → more_text (some p) r ≡ prepend p r
more_text-prepend [] r h = absurd (omega arith)
more_text-prepend (b ∷ bs) r h = refl

module _ (a : Aead) (law : IsAead a) (prefix : Bytes) (size : ℕ) (some_size : 0 < size) where
  abbrev sealing : ℕ → Bool → Bytes → Bytes
  sealing i last b = a.seal (nonce_for prefix i last) b

  abbrev opening : ℕ → Bool → Bytes → Option Bytes
  opening i last c = a.unseal (nonce_for prefix i last) c

  pub sealed_chunks_pos :
      (fuel i : ℕ) (bs : Bytes) → 0 < length (sealed_chunks fuel sealing size i bs)
  unfolding sealed_chunks
  sealed_chunks_pos zero i bs = omega (arith, law.grows (nonce_for prefix i true) bs, law.adds)
  sealed_chunks_pos (suc fuel) i bs = elim (Bool-cases (leb (length bs) size)) [
    | inl few ↦ rw few (omega (arith, law.grows (nonce_for prefix i true) bs, law.adds))
    | inr many ↦ rw many (
        omega (
          arith,
          length-append (sealing i false (take size bs))
              (sealed_chunks fuel sealing size (after i) (drop size bs)),
          law.grows (nonce_for prefix i false) (take size bs),
          law.adds,
        ))
  ]

  opened-last :
      (fuel i : ℕ) (bs : Bytes)
      → length bs ≤ size
      → opened_chunks fuel opening (size + a.overhead) i (sealing i true bs) ≡ whole bs
  unfolding opened_chunks
  opened-last zero i bs h = ap last_text (law.opens (nonce_for prefix i true) bs)
  opened-last (suc fuel) i bs h =
      let fits : leb (length (sealing i true bs)) (size + a.overhead) ≡ true =
        ground (arith, law.grows (nonce_for prefix i true) bs) in
      rw fits (ap last_text (law.opens (nonce_for prefix i true) bs))

  -- A chunk that is not the last, and what the ones behind it open to.
  opened-more :
      (fuel i : ℕ) (bs rest : Bytes)
      → size < length bs
      → 0 < length rest
      → length (sealing i false (take size bs) ++ rest) ≤ fuel
      → ((f : ℕ)
          → length rest ≤ f
          → opened_chunks f opening (size + a.overhead) (after i) rest ≡ whole (drop size bs))
      → opened_chunks fuel opening (size + a.overhead) i (sealing i false (take size bs) ++ rest)
        ≡ whole bs
  unfolding opened_chunks
  opened-more zero i bs rest m r k ih =
      absurd (omega (arith, length-append (sealing i false (take size bs)) rest))
  opened-more (suc fuel) i bs rest m r k ih =
      let c = sealing i false (take size bs) in
      let whole_chunk : length c ≡ size + a.overhead =
        omega (arith, law.grows (nonce_for prefix i false) (take size bs), length-take size bs) in
      let more : leb (length (c ++ rest)) (size + a.overhead) ≡ false =
        ground (arith, length-append c rest, whole_chunk) in
      let some_text : 0 < length (take size bs) = omega (arith, length-take size bs) in
      rw
        (
          more,
          take-append_eq (size + a.overhead) c rest whole_chunk,
          drop-append_eq (size + a.overhead) c rest whole_chunk,
          law.opens (nonce_for prefix i false) (take size bs),
          ih fuel (omega (arith, length-append c rest, law.adds)),
        )
        (more_text-prepend (take size bs) (whole (drop size bs)) some_text
          ∙ ap whole (take-append-drop size bs))

  pub opened-sealed :
      (fuel fuel' i : ℕ) (bs : Bytes)
      → length bs ≤ fuel
      → length (sealed_chunks fuel sealing size i bs) ≤ fuel'
      → opened_chunks fuel' opening (size + a.overhead) i (sealed_chunks fuel sealing size i bs)
        ≡ whole bs
  unfolding sealed_chunks
  opened-sealed zero fuel' i bs h k = opened-last fuel' i bs (omega arith)
  opened-sealed (suc fuel) fuel' i bs h k = elim (Bool-cases (leb (length bs) size)) [
    | inl few ↦ rw few (opened-last fuel' i bs (ground arith))
    | inr many ↦ rw many (
        opened-more fuel' i bs (sealed_chunks fuel sealing size (after i) (drop size bs))
          (ground arith) (sealed_chunks_pos fuel (after i) (drop size bs)) (rw many at k)
          λ f j.
            opened-sealed fuel f (after i) (drop size bs) (omega (arith, length-drop size bs)) j)
  ]

-- The decryption of what a text encrypts to.
decrypt-encrypted :
    (a : Aead) (k : ℕ) (prefix bs : Bytes)
    → IsAead a
    → 0 < k
    → length prefix ≡ 7
    → Drains
        (open_read a k)
        (decrypt a (record { bytes = encrypted a prefix bs; fault = none }))
        (whole bs)
unfolding encrypted decrypted
decrypt-encrypted a k prefix bs law room seven =
    let stream =
      sealed_chunks (length bs) (λ i last b. a.seal (nonce_for prefix i last) b) chunk_size 0 bs in
    let long : ltb (length (prefix ++ stream)) 7 ≡ false =
      ground (arith, length-append prefix stream) in
    let e : decrypted a (prefix ++ stream) ≡ whole bs =
      rw (long, take-append_eq 7 prefix stream seven, drop-append_eq 7 prefix stream seven)
        (opened-sealed a law prefix chunk_size (omega arith) (length bs) (length stream) 0 bs
          (omega arith) (omega arith)) in
    subst (Drains (open_read a k) (decrypt a (record { bytes = prefix ++ stream; fault = none }))) e
      (decrypt-Drains a k (prefix ++ stream) room)

-- Under a cipher that is one: reading Encrypt's reader of a text to its end, through a buffer of any
-- size, ends and gives a stream, and reading Decrypt's reader of that to its end, through a buffer of
-- any size, ends and gives the text.
pub decrypt-encrypt :
    (a : Aead) (k k' : ℕ) (prefix bs : Bytes)
    → IsAead a
    → 0 < k
    → 0 < k'
    → length prefix ≡ 7
    → (t : Bytes) × Drains
        (seal_read a k)
        (encrypt a prefix (record { bytes = bs; fault = none }))
        (whole t)
      × Drains (open_read a k') (decrypt a (record { bytes = t; fault = none })) (whole bs)
decrypt-encrypt a k k' prefix bs law room room' seven = (
  encrypted a prefix bs,
  encrypt-Drains a k prefix bs room,
  decrypt-encrypted a k' prefix bs law room' seven,
)
