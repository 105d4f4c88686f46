-- ===== src/Backup/Crypt.antt =====
-- The encryption of backups (internal/backup/crypt.go). The cipher, AES-GCM under one key, is an
-- argument.
pub mod Reading
pub mod Sealing
pub mod Opening
pub mod RoundTrip
pub mod Nonces
pub mod Pieces
pub mod Authentic
use fern.Prelude.{
  ℕ, zero, suc, ◌+◌, ◌-◌, ◌*◌, ◌/◌, ◌%◌, ◌^◌, ◌≤◌, ◌<◌, ◌≡◌, Bool, true, false, Option, none, some,
  List, [], ◌∷◌, ◌++◌, Bytes, if◌then◌else◌, ltb, leb, is_empty, length, take, drop,
}
use fern.Backup.Chunks.{Source, Chunks, new_chunks, Next, piece, end, fault, next}

abbrev pub chunk_size : ℕ
chunk_size = 65536

-- cipher.AEAD, less the additional data, of which there is none: Seal, Open and Overhead.
pub record Aead : Type 0 where
  pub seal : Bytes → Bytes → Bytes
  pub unseal : Bytes → Bytes → Option Bytes
  pub overhead : ℕ

-- binary.BigEndian.PutUint32
abbrev pub big_endian : ℕ → Bytes
big_endian n = n / 2 ^ 24 % 256 ∷ n / 2 ^ 16 % 256 ∷ n / 2 ^ 8 % 256 ∷ n % 256 ∷ []

unfoldable pub nonce_for : Bytes → ℕ → Bool → Bytes
nonce_for prefix n last = take 7 prefix ++ (big_endian n ++ (if last then 1 else 0) ∷ [])

-- The counter of chunks is a uint32.
abbrev pub after : ℕ → ℕ
after i = (i + 1) % 2 ^ 32

-- What a Read returns: bytes and the reader afterwards, io.EOF, ErrKey, or an error of the reader
-- below.
pub data Answer (S : Type 0) : Type 0 where
  got : Bytes → S → Answer S
  eof err_key : Answer S
  broken : ℕ → Answer S

-- sealer
pub record Sealer : Type 0 where
  pub prefix : Bytes
  pub chunks : Chunks
  pub i : ℕ
  pub pending : Bytes

-- opener: `prefix` is none before the first read.
pub record Opener : Type 0 where
  pub source : Source
  pub prefix : Option Bytes
  pub chunks : Chunks
  pub i : ℕ
  pub pending : Bytes

module _ (a : Aead) where
  -- Encrypt, with the prefix that was drawn.
  unfoldable pub encrypt : Bytes → Source → Sealer
  encrypt prefix r = record {
    prefix = prefix;
    chunks = new_chunks r chunk_size;
    i = 0;
    pending = prefix;
  }

  -- `n := copy(p, s.pending)`, for a `p` of `k` bytes.
  abbrev pub hand_sealed : ℕ → Sealer → Answer Sealer
  hand_sealed k s = got (take k s.pending) (record s { pending = drop k s.pending })

  abbrev pub seal_next : ℕ → Sealer → Next → Answer Sealer
  seal_next k s end = eof
  seal_next k s (fault e) = broken e
  seal_next k s (piece b last c) =
      hand_sealed k
        (record s { chunks = c; pending = a.seal (nonce_for s.prefix s.i last) b; i = after s.i })

  unfoldable pub seal_read : ℕ → Sealer → Answer Sealer
  unfolding nonce_for
  seal_read k s = if is_empty s.pending then seal_next k s (next s.chunks) else hand_sealed k s

  -- Decrypt
  unfoldable pub decrypt : Source → Opener
  decrypt r = record {
    source = r;
    prefix = none;
    chunks = new_chunks r (chunk_size + a.overhead);
    i = 0;
    pending = [];
  }

  abbrev pub hand_opened : ℕ → Opener → Answer Opener
  hand_opened k o = got (take k o.pending) (record o { pending = drop k o.pending })

  -- An empty text is the end.
  abbrev pub hand_plain : ℕ → Opener → Chunks → Option Bytes → Answer Opener
  hand_plain k o c none = err_key
  hand_plain k o c (some []) = eof
  hand_plain k o c (some (b ∷ bs)) =
      hand_opened k (record o { chunks = c; pending = b ∷ bs; i = after o.i })

  abbrev pub open_next : ℕ → Bytes → Opener → Next → Answer Opener
  open_next k prefix o end = eof
  open_next k prefix o (fault e) = broken e
  open_next k prefix o (piece b last c) = hand_plain k o c (a.unseal (nonce_for prefix o.i last) b)

  abbrev pub open_from : ℕ → Bytes → Opener → Answer Opener
  open_from k prefix o =
      if is_empty o.pending then open_next k prefix o (next o.chunks) else hand_opened k o

  -- The prefix comes first; a stream without one does not open.
  abbrev pub open_first : ℕ → Option Bytes → Opener → Answer Opener
  open_first k (some prefix) o = open_from k prefix o
  open_first k none o =
      let rest = record o.source { bytes = drop 7 o.source.bytes } in
      if ltb (length o.source.bytes) 7
      then err_key
      else open_from k (take 7 o.source.bytes) (record o {
        source = rest;
        prefix = some (take 7 o.source.bytes);
        chunks = new_chunks rest (chunk_size + a.overhead);
      })

  unfoldable pub open_read : ℕ → Opener → Answer Opener
  unfolding nonce_for
  open_read k o = open_first k o.prefix o
