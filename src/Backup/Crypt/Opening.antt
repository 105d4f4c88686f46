-- ===== src/Backup/Crypt/Opening.antt =====
-- What Decrypt makes of a stream, whoever made it.
use fern.Prelude.{
  ℕ, zero, suc, ◌+◌, ◌≤◌, ◌<◌, ◌≡◌, refl, ◌∙◌, Bool, true, false, Option, none, some, [], ◌∷◌,
  Bytes, length, take, drop, if◌then◌else◌, leb, ltb, append-nil, arith, inl, inr, Bool-cases,
  length-drop,
}
use fern.Backup.Chunks.{
  Source, Chunks, new_chunks, piece, end, next, ready, next-new_chunks, next-last, next-more,
}
use fern.Backup.Crypt.{
  Aead, chunk_size, nonce_for, after, Answer, got, err_key, Opener, decrypt, open_read, hand_plain,
}
use fern.Backup.Crypt.Reading.{
  Ending, whole, bad_key, prepend, Drains, ends, refuses, breaks, reads, refilled-Drains,
}

-- The text of a last chunk, if it opens, and that of another, before those that follow.
abbrev pub last_text : Option Bytes → Ending
last_text none = bad_key
last_text (some bs) = whole bs

abbrev pub more_text : Option Bytes → Ending → Ending
more_text none r = bad_key
more_text (some []) r = whole []
more_text (some (b ∷ bs)) r = prepend (b ∷ bs) r

-- The chunks of a stream, each opened with its number and whether it is the last.
unfoldable pub opened_chunks : ℕ → (ℕ → Bool → Bytes → Option Bytes) → ℕ → ℕ → Bytes → Ending
opened_chunks zero f size i t = last_text (f i true t)
opened_chunks (suc fuel) f size i t =
    let more =
      more_text (f i false (take size t)) (opened_chunks fuel f size (after i) (drop size t)) in
    if leb (length t) size then last_text (f i true t) else more

-- What a stream decrypts to.
unfoldable pub decrypted : Aead → Bytes → Ending
unfolding opened_chunks
decrypted a t =
    if ltb (length t) 7
    then bad_key
    else opened_chunks (length (drop 7 t)) (λ i last c. a.unseal (nonce_for (take 7 t) i last) c)
        (chunk_size + a.overhead) 0 (drop 7 t)

module _ (a : Aead) (k : ℕ) (room : 0 < k) (src : Source) (prefix : Bytes) where
  abbrev opener : Chunks → ℕ → Bytes → Opener
  opener c i p = record { source = src; prefix = some prefix; chunks = c; i = i; pending = p }

  hands-pending :
      (c : Chunks) (i : ℕ) (x : ℕ) (xs : Bytes)
      → open_read a k (opener c i (x ∷ xs)) ≡ got (take k (x ∷ xs)) (opener c i (drop k (x ∷ xs)))
  unfolding open_read
  hands-pending c i x xs = refl

  opens-piece :
      (c d : Chunks) (i : ℕ) (b : Bytes) (last : Bool)
      → next c ≡ piece b last d
      → open_read a k (opener c i [])
        ≡ hand_plain a k (opener c i []) d (a.unseal (nonce_for prefix i last) b)
  unfolding open_read
  opens-piece c d i b last e = rw e refl

  opens-end :
      (c : Chunks) (i : ℕ) → next c ≡ end → Drains (open_read a k) (opener c i []) (whole [])
  unfolding open_read
  opens-end c i e = ends _ (rw e refl)

  last-Drains :
      (c d : Chunks) (i : ℕ) (t : Bytes)
      → next c ≡ piece t true d
      → next d ≡ end
      → Drains (open_read a k) (opener c i []) (last_text (a.unseal (nonce_for prefix i true) t))
  last-Drains c d i t e f =
      opens (a.unseal (nonce_for prefix i true) t) (opens-piece c d i t true e)
    where
      opens :
          (o : Option Bytes)
          → open_read a k (opener c i []) ≡ hand_plain a k (opener c i []) d o
          → Drains (open_read a k) (opener c i []) (last_text o)
      opens none h = refuses _ h
      opens (some []) h = ends _ h
      opens (some (b ∷ bs)) h = rw⁻¹ (append-nil (b ∷ bs)) (
          refilled-Drains (open_read a k) k (opener d (after i)) (hands-pending d (after i)) room
            (opener c i []) (b ∷ bs) (whole []) h (opens-end d (after i) f))

  more-Drains :
      (c d : Chunks) (i : ℕ) (b : Bytes) (r : Ending)
      → next c ≡ piece b false d
      → Drains (open_read a k) (opener d (after i) []) r
      → Drains (open_read a k) (opener c i []) (more_text (a.unseal (nonce_for prefix i false) b) r)
  more-Drains c d i t r e f =
      opens (a.unseal (nonce_for prefix i false) t) (opens-piece c d i t false e)
    where
      opens :
          (o : Option Bytes)
          → open_read a k (opener c i []) ≡ hand_plain a k (opener c i []) d o
          → Drains (open_read a k) (opener c i []) (more_text o r)
      opens none h = refuses _ h
      opens (some []) h = ends _ h
      opens (some (b ∷ bs)) h =
          refilled-Drains (open_read a k) k (opener d (after i)) (hands-pending d (after i)) room
            (opener c i []) (b ∷ bs) r h f

  ready-Drains :
      (size fuel : ℕ) (c : Chunks) (i : ℕ) (t : Bytes)
      → 0 < size
      → length t ≤ fuel
      → next c ≡ next (ready size t)
      → Drains
          (open_read a k)
          (opener c i [])
          (opened_chunks fuel (λ i last c. a.unseal (nonce_for prefix i last) c) size i t)
  unfolding opened_chunks
  ready-Drains size zero c i t s h e =
      let (d, f, g) = next-last size t s (omega arith) in last-Drains c d i t (e ∙ f) g
  ready-Drains size (suc fuel) c i t s h e = elim (Bool-cases (leb (length t) size)) [
    | inl few ↦
        rw few (let (d, f, g) = next-last size t s (ground arith) in last-Drains c d i t (e ∙ f) g)
    | inr many ↦ rw many (
        more-Drains c (ready size (drop size t)) i (take size t) _
          (e ∙ next-more size t s (ground arith))
          (ready-Drains size fuel (ready size (drop size t)) (after i) (drop size t) s
            (omega (arith, length-drop size t)) refl))
  ]

-- The first read is that of a reader that has read the prefix.
first-Drains :
    {S : Type 0} (read : S → Answer S) (s t : S) (r : Ending)
    → read s ≡ read t
    → Drains read t r
    → Drains read s r
first-Drains read s t r e (ends _ h) = ends s (e ∙ h)
first-Drains read s t r e (refuses _ h) = refuses s (e ∙ h)
first-Drains read s t r e (breaks _ n h) = breaks s n (e ∙ h)
first-Drains read s t r e (reads _ u b q _ h d k) = reads s u b q r (e ∙ h) d k

-- Reading any stream to its end, through a buffer of any size, ends, and gives what its chunks open
-- to, one after the other, or ErrKey at the first that does not open.
pub decrypt-Drains :
    (a : Aead) (k : ℕ) (t : Bytes)
    → 0 < k
    → Drains (open_read a k) (decrypt a (record { bytes = t; fault = none })) (decrypted a t)
unfolding decrypt decrypted open_read
decrypt-Drains a k t room = elim (Bool-cases (ltb (length t) 7)) [
  | inl cut ↦ rw cut (refuses _ (no_prefix cut))
  | inr long ↦ rw long (
      first-Drains (open_read a k) _
        (opener a k room rest (take 7 t) (new_chunks rest (chunk_size + a.overhead)) 0 []) _
        (with_prefix long)
        (ready-Drains a k room rest (take 7 t) (chunk_size + a.overhead) (length (drop 7 t))
          (new_chunks rest (chunk_size + a.overhead)) 0 (drop 7 t) (omega arith) (omega arith)
          (next-new_chunks (chunk_size + a.overhead) (drop 7 t))))
]
  where
    rest : Source
    rest = record { bytes = drop 7 t; fault = none }

    no_prefix :
        ltb (length t) 7 ≡ true
        → open_read a k (decrypt a (record { bytes = t; fault = none })) ≡ err_key
    no_prefix cut = rw cut refl

    with_prefix :
        ltb (length t) 7 ≡ false
        → open_read a k (decrypt a (record { bytes = t; fault = none }))
          ≡ open_read a k
              (opener a k room rest (take 7 t) (new_chunks rest (chunk_size + a.overhead)) 0 [])
    with_prefix long = rw long refl
