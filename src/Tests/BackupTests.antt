-- ===== src/Tests/BackupTests.antt =====
-- internal/backup/crypt.go, under a cipher that writes the nonce before the text.
use fern.Prelude.{
  ◌≡◌, ◌⊎◌, refl, sym, ap, true, false, Bool-cases, inl, inr, none, some, [], ◌∷◌, ◌++◌, Bytes,
  equal, equal_iff, equal_refl, if◌then◌else◌, take, drop, length, length-take, length-append,
  arith,
}
use fern.Backup.Chunks.{new_chunks, next, piece, ready, fault}
use fern.Backup.Crypt.{Aead, nonce_for, encrypt, seal_read, decrypt, open_read}
use fern.Backup.Crypt.Reading.{Drains, whole, bad_key}
use fern.Backup.Crypt.Sealing.{encrypted, encrypt-Drains}
use fern.Backup.Crypt.Opening.{decrypted, decrypt-Drains}
use fern.Backup.Crypt.RoundTrip.{IsAead, decrypt-encrypt, take-append_eq, drop-append_eq}
use fern.Backup.Crypt.Pieces.{pieces, cut_up}
use fern.Backup.Crypt.Authentic.{IsHonest, decrypt-authentic}

abbrev pad : Bytes → Bytes
pad n = take 12 (n ++ 0 ∷ 0 ∷ 0 ∷ 0 ∷ 0 ∷ 0 ∷ 0 ∷ 0 ∷ 0 ∷ 0 ∷ 0 ∷ 0 ∷ [])

abbrev toy : Aead
toy = record {
  seal = λ n p. pad n ++ p;
  unseal = λ n c. if equal (take 12 c) (pad n) then some (drop 12 c) else none;
  overhead = 12;
}

length-pad : (n : Bytes) → length (pad n) ≡ 12
length-pad n =
    let zeros : Bytes = 0 ∷ 0 ∷ 0 ∷ 0 ∷ 0 ∷ 0 ∷ 0 ∷ 0 ∷ 0 ∷ 0 ∷ 0 ∷ 0 ∷ [] in
    omega (arith, length-take 12 (n ++ zeros), length-append n zeros)

toy-IsAead : IsAead toy
toy-IsAead = record {
  opens = λ n p.
      rw
        (
          take-append_eq 12 (pad n) p (length-pad n),
          equal_refl (pad n),
          drop-append_eq 12 (pad n) p (length-pad n),
        )
        refl;
  grows = λ n p. omega (arith, length-append (pad n) p, length-pad n);
  adds = omega arith;
}

abbrev prefix : Bytes
prefix = 1 ∷ 2 ∷ 3 ∷ 4 ∷ 5 ∷ 6 ∷ 7 ∷ []

abbrev text : Bytes
text = 8 ∷ 9 ∷ 10 ∷ []

abbrev stream : Bytes
stream = prefix ++ (prefix ++ 0 ∷ 0 ∷ 0 ∷ 0 ∷ 1 ∷ []) ++ text

encrypts : encrypted toy prefix text ≡ stream
unfolding encrypted nonce_for
encrypts = refl

decrypts : decrypted toy stream ≡ whole text
unfolding decrypted nonce_for equal
decrypts = refl

decrypts_tampered : decrypted toy (0 ∷ drop 1 stream) ≡ bad_key
unfolding decrypted nonce_for equal
decrypts_tampered = refl

-- Three bytes in pieces of two.
first_piece :
    next (new_chunks (record { bytes = text; fault = none }) 2)
    ≡ piece (8 ∷ 9 ∷ []) false (ready 2 (10 ∷ []))
unfolding next
first_piece = refl

-- An error of the reader, behind the piece that is whole.
broken_reader : next (new_chunks (record { bytes = text; fault = some 5 }) 2) ≡ fault 5
unfolding next
broken_reader = refl

encrypt-Drains_example :
    Drains
      (seal_read toy 2)
      (encrypt toy prefix (record { bytes = text; fault = none }))
      (whole (encrypted toy prefix text))
encrypt-Drains_example = encrypt-Drains toy 2 prefix text (omega arith)

decrypt-Drains_example :
    Drains
      (open_read toy 2)
      (decrypt toy (record { bytes = stream; fault = none }))
      (decrypted toy stream)
decrypt-Drains_example = decrypt-Drains toy 2 stream (omega arith)

decrypt-encrypt_example :
    (t : Bytes) × Drains
      (seal_read toy 2)
      (encrypt toy prefix (record { bytes = text; fault = none }))
      (whole t)
    × Drains (open_read toy 3) (decrypt toy (record { bytes = t; fault = none })) (whole text)
decrypt-encrypt_example =
    decrypt-encrypt toy 2 3 prefix text toy-IsAead (omega arith) (omega arith) refl

-- The one chunk opens under no other nonce.
chunk-IsHonest :
    IsHonest toy prefix ((true, text) ∷ []) prefix ((prefix ++ 0 ∷ 0 ∷ 0 ∷ 0 ∷ 1 ∷ []) ++ text)
unfolding nonce_for
chunk-IsHonest i last p opened = elim (Bool-cases (equal own (nonce_for prefix i last))) [
  | inl same ↦
      let e = (equal_iff own (nonce_for prefix i last)).0 same in
      (0, (true, text), refl, omega arith, sym e, ap (λ n. pad n ++ text) e)
  | inr other ↦ absurd (ground (arith, rw other at opened))
]
  where
    own : Bytes
    own = prefix ++ 0 ∷ 0 ∷ 0 ∷ 0 ∷ 1 ∷ []

decrypt-authentic_example :
    Drains (open_read toy 2) (decrypt toy (record { bytes = stream; fault = none })) bad_key
    ⊎ Drains (open_read toy 2) (decrypt toy (record { bytes = stream; fault = none })) (whole text)
unfolding pieces cut_up
decrypt-authentic_example =
    decrypt-authentic toy 2 prefix text stream toy-IsAead (omega arith) refl (omega arith)
      (chunk-IsHonest, tt)
