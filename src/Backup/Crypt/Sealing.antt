-- ===== src/Backup/Crypt/Sealing.antt =====
-- What Encrypt makes of a text.
use fern.Prelude.{
  ℕ, zero, suc, ◌≤◌, ◌<◌, ◌≡◌, refl, ◌∙◌, Bool, true, false, none, [], ◌∷◌, ◌++◌, Bytes, length,
  take, drop, if◌then◌else◌, leb, append-nil, arith, inl, inr, Bool-cases, length-drop,
}
use fern.Backup.Chunks.{
  Chunks, new_chunks, piece, end, next, ready, next-new_chunks, next-last, next-more,
}
use fern.Backup.Crypt.{Aead, chunk_size, nonce_for, after, got, Sealer, encrypt, seal_read}
use fern.Backup.Crypt.Reading.{whole, Drains, ends, pending-Drains, refilled-Drains}

-- A text cut into pieces of one size, each sealed with its number and whether it is the last.
unfoldable pub sealed_chunks : ℕ → (ℕ → Bool → Bytes → Bytes) → ℕ → ℕ → Bytes → Bytes
sealed_chunks zero f size i bs = f i true bs
sealed_chunks (suc fuel) f size i bs =
    let more = f i false (take size bs) ++ sealed_chunks fuel f size (after i) (drop size bs) in
    if leb (length bs) size then f i true bs else more

-- The encryption of a text.
unfoldable pub encrypted : Aead → Bytes → Bytes → Bytes
unfolding sealed_chunks
encrypted a prefix bs =
    prefix
    ++ sealed_chunks (length bs) (λ i last b. a.seal (nonce_for prefix i last) b) chunk_size 0 bs

module _ (a : Aead) (k : ℕ) (room : 0 < k) where
  abbrev sealer : Bytes → Chunks → ℕ → Bytes → Sealer
  sealer prefix c i p = record { prefix = prefix; chunks = c; i = i; pending = p }

  hands-pending :
      (prefix : Bytes) (c : Chunks) (i : ℕ) (x : ℕ) (xs : Bytes)
      → seal_read a k (sealer prefix c i (x ∷ xs))
        ≡ got (take k (x ∷ xs)) (sealer prefix c i (drop k (x ∷ xs)))
  unfolding seal_read
  hands-pending prefix c i x xs = refl

  seals-piece :
      (prefix : Bytes) (c d : Chunks) (i : ℕ) (b : Bytes) (last : Bool)
      → next c ≡ piece b last d
      → seal_read a k (sealer prefix c i [])
        ≡ got
            (take k (a.seal (nonce_for prefix i last) b))
            (sealer prefix d (after i) (drop k (a.seal (nonce_for prefix i last) b)))
  unfolding seal_read
  seals-piece prefix c d i b last e = rw e refl

  seals-end :
      (prefix : Bytes) (c : Chunks) (i : ℕ)
      → next c ≡ end
      → Drains (seal_read a k) (sealer prefix c i []) (whole [])
  unfolding seal_read
  seals-end prefix c i e = ends _ (rw e refl)

  last-Drains :
      (prefix : Bytes) (c d : Chunks) (i : ℕ) (bs : Bytes)
      → next c ≡ piece bs true d
      → next d ≡ end
      → Drains (seal_read a k) (sealer prefix c i []) (whole (a.seal (nonce_for prefix i true) bs))
  last-Drains prefix c d i bs e f =
      let p = a.seal (nonce_for prefix i true) bs in
      rw⁻¹ (append-nil p) (
        refilled-Drains (seal_read a k) k (sealer prefix d (after i))
          (hands-pending prefix d (after i)) room (sealer prefix c i []) p (whole [])
          (seals-piece prefix c d i bs true e) (seals-end prefix d (after i) f))

  ready-Drains :
      (size fuel : ℕ) (prefix : Bytes) (c : Chunks) (i : ℕ) (bs : Bytes)
      → 0 < size
      → length bs ≤ fuel
      → next c ≡ next (ready size bs)
      → Drains
          (seal_read a k)
          (sealer prefix c i [])
          (whole (sealed_chunks fuel (λ i last b. a.seal (nonce_for prefix i last) b) size i bs))
  unfolding sealed_chunks
  ready-Drains size zero prefix c i bs s h e =
      let (d, f, g) = next-last size bs s (omega arith) in last-Drains prefix c d i bs (e ∙ f) g
  ready-Drains size (suc fuel) prefix c i bs s h e = elim (Bool-cases (leb (length bs) size)) [
    | inl few ↦ rw few (
        let (d, f, g) = next-last size bs s (ground arith) in last-Drains prefix c d i bs (e ∙ f) g)
    | inr many ↦ rw many (
        let f = next-more size bs s (ground arith) in
        refilled-Drains (seal_read a k) k (sealer prefix (ready size (drop size bs)) (after i))
          (hands-pending prefix (ready size (drop size bs)) (after i)) room (sealer prefix c i [])
          (a.seal (nonce_for prefix i false) (take size bs)) _
          (seals-piece prefix c (ready size (drop size bs)) i (take size bs) false (e ∙ f))
          (ready-Drains size fuel prefix (ready size (drop size bs)) (after i) (drop size bs) s
            (omega (arith, length-drop size bs)) refl))
  ]

-- Reading an encrypted text to its end, through a buffer of any size, ends and gives the prefix and
-- the text's pieces of chunk_size bytes, the last of at most that, each sealed with its number and
-- whether it is the last.
pub encrypt-Drains :
    (a : Aead) (k : ℕ) (prefix bs : Bytes)
    → 0 < k
    → Drains
        (seal_read a k)
        (encrypt a prefix (record { bytes = bs; fault = none }))
        (whole (encrypted a prefix bs))
unfolding encrypt encrypted
encrypt-Drains a k prefix bs room =
    let c = new_chunks (record { bytes = bs; fault = none }) chunk_size in
    pending-Drains (seal_read a k) k (sealer a k room prefix c 0)
      (hands-pending a k room prefix c 0) room (length prefix) prefix _ (omega arith)
      (ready-Drains a k room chunk_size (length bs) prefix c 0 bs (omega arith) (omega arith)
        (next-new_chunks chunk_size bs))
