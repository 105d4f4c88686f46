-- ===== src/Hibernate/Output.antt =====
-- lineWriter of internal/hibernate/hibernate.go: Claude's output, passed on line by line. What
-- decides of a line (`keep`, with its state) and where lines are written are arguments.
pub mod Pieces
use fern.Prelude.{
  ℕ, Bool, true, false, Option, none, some, List, [], ◌∷◌, ◌++◌, Bytes, ◌==◌, if◌then◌else◌,
  is_empty,
}

-- `keep` decides, and `put` writes, or fails.
pub record Sink (K W : Type 0) : Type 0 where
  pub keep : K → Bytes → K × Bool
  pub put : W → Bytes → Option W

pub record Writer (K W : Type 0) : Type 0 where
  pub kept : K
  pub out : W
  pub buf : Bytes
  pub failed : Bool

-- "\n"
abbrev pub newline : ℕ
newline = 10

module _ {K W : Type 0} (s : Sink K W) where
  -- A line that is written, or not, or whose write fails.
  abbrev pub after_put : K → Option W → W → (K → W → Writer K W) → Writer K W
  after_put k none w f = record { kept = k; out = w; buf = []; failed = true }
  after_put k (some v) w f = f k v

  abbrev pub after_keep : K × Bool → W → Bytes → (K → W → Writer K W) → Writer K W
  after_keep (k, true) w line f = after_put k (s.put w line) w f
  after_keep (k, false) w line f = f k w

  -- The loop of Write: `acc` is the start of the line that the bytes go on with.
  unfoldable pub pass : Bytes → Bytes → K → W → Writer K W
  pass acc [] k w = record { kept = k; out = w; buf = acc; failed = false }
  pass acc (c ∷ cs) k w =
      let ended = after_keep (s.keep k acc) w (acc ++ newline ∷ []) (pass [] cs) in
      let more = pass (acc ++ c ∷ []) cs k w in if c == newline then ended else more

  -- A write that failed leaves all of the buffer.
  unfoldable pub write : Bytes → Writer K W → Writer K W
  unfolding pass
  write p l =
      let r = pass [] (l.buf ++ p) l.kept l.out in
      if r.failed then record r { buf = l.buf ++ p } else r

  abbrev pub flushed : K × Bool → Writer K W → Writer K W
  flushed (k, false) l = record l { kept = k }
  flushed (k, true) l = elim (s.put l.out l.buf) [
    | none ↦ record l { kept = k; buf = []; failed = true }
    | some v ↦ record l { kept = k; out = v; buf = [] }
  ]

  -- What is left of a line that was not ended.
  unfoldable pub flush : Writer K W → Writer K W
  flush l = if is_empty l.buf then l else flushed (s.keep l.kept l.buf) l
