-- ===== src/Services/Backoff.antt =====
-- The pauses between a service's restarts.
use fern.Prelude.{
  ℕ, zero, suc, ◌+◌, ◌*◌, ◌<◌, ◌≤◌, ◌≡◌, ◌⊎◌, refl, sym, ap, ◌∙◌, true, false, ◌||◌, inl, inr,
  Option, none, some, List, [], ◌∷◌, ◌++◌, append_assoc, if◌then◌else◌, min, length, length-append,
  All, All-append, arith,
}
use fern.Services.{
  second, min_backoff, max_backoff, stable_run, Run, after_run, supervise_from, supervise,
}

-- One second, doubled `k` times
abbrev pub doubled : ℕ → ℕ
doubled zero = second
doubled (suc k) = 2 * doubled k

abbrev pub nth {ℓ} : {A : Type ℓ} → ℕ → List A → Option A
nth n [] = none
nth zero (x ∷ xs) = some x
nth (suc n) (x ∷ xs) = nth n xs

-- The service is started again after it.
abbrev pub IsGoing : Run → Type 0
IsGoing r = (r.quit ≡ false) × (r.quit_in_pause ≡ false)

abbrev pub IsLong : Run → Type 0
IsLong r = stable_run < r.lasted

abbrev pub IsShort : Run → Type 0
IsShort r = r.lasted ≤ stable_run

-- The pause that a last run begins, if the service is to stop only in it
abbrev pub last_pause : Run → ℕ
last_pause r = if r.quit then 0 else 1

abbrev backoff_of : ℕ → ℕ
backoff_of k = min (doubled k) max_backoff

next_backoff : (k : ℕ) → min (2 * backoff_of k) max_backoff ≡ backoff_of (suc k)
next_backoff k = omega arith

after_run-IsShort : (b : ℕ) (r : Run) → IsShort r → after_run b r ≡ b
after_run-IsShort b r h = ground arith

after_run-IsLong : (b : ℕ) (r : Run) → IsLong r → after_run b r ≡ min_backoff
after_run-IsLong b r h = ground arith

-- The pause after a run that goes on, and what follows it
going :
    (b : ℕ) (r : Run) (rs : List Run)
    → IsGoing r
    → (supervise_from b (r ∷ rs)).0
      ≡ after_run b r ∷ (supervise_from (min (2 * after_run b r) max_backoff) rs).0
unfolding supervise_from
going b r rs h = rw (h.0, h.1) refl

shorts-nth :
    (k : ℕ) (shorts rest : List Run)
    → All IsGoing shorts
    → All IsShort shorts
    → nth (length shorts) (backoff_of k ∷ (supervise_from (backoff_of (suc k)) (shorts ++ rest)).0)
      ≡ some (backoff_of (k + length shorts))
shorts-nth k [] rest g h = ap (λ n. some (backoff_of n)) (omega arith)
shorts-nth k (r ∷ shorts) rest g h =
    ap (nth (length shorts)) (
      going (backoff_of (suc k)) r (shorts ++ rest) g.0
      ∙ ap (λ b. b ∷ (supervise_from (min (2 * b) max_backoff) (shorts ++ rest)).0)
          (after_run-IsShort (backoff_of (suc k)) r h.0)
      ∙ ap (λ b. backoff_of (suc k) ∷ (supervise_from b (shorts ++ rest)).0) (next_backoff (suc k)))
    ∙ shorts-nth (suc k) shorts rest g.1 h.1
    ∙ ap (λ n. some (backoff_of n)) (omega arith)

stretch-nth :
    (b : ℕ) (first : Run) (shorts rest : List Run)
    → IsGoing first
    → All IsGoing shorts
    → All IsShort shorts
    → after_run b first ≡ min_backoff
    → nth (length shorts) (supervise_from b (first ∷ (shorts ++ rest))).0
      ≡ some (backoff_of (length shorts))
stretch-nth b first shorts rest g gs h e =
    ap (nth (length shorts)) (
      going b first (shorts ++ rest) g
      ∙ ap (λ p. p ∷ (supervise_from (min (2 * p) max_backoff) (shorts ++ rest)).0) e)
    ∙ shorts-nth 0 shorts rest gs h
    ∙ ap (λ n. some (backoff_of n)) (omega arith)

long-nth :
    (b : ℕ) (earlier shorts rest : List Run) (first : Run)
    → All IsGoing earlier
    → IsGoing first
    → All IsGoing shorts
    → All IsShort shorts
    → IsLong first
    → nth
        (length earlier + length shorts)
        (supervise_from b (earlier ++ first ∷ (shorts ++ rest))).0
      ≡ some (backoff_of (length shorts))
long-nth b [] shorts rest first ge g gs h l =
    ap (λ n. nth n (supervise_from b (first ∷ (shorts ++ rest))).0) (omega arith)
    ∙ stretch-nth b first shorts rest g gs h (after_run-IsLong b first l)
long-nth b (r ∷ earlier) shorts rest first ge g gs h l =
    ap (λ n. nth n (supervise_from b (r ∷ (earlier ++ first ∷ (shorts ++ rest)))).0) (omega arith)
    ∙ ap (nth (suc (length earlier + length shorts)))
        (going b r (earlier ++ first ∷ (shorts ++ rest)) ge.0)
    ∙ long-nth (min (2 * after_run b r) max_backoff) earlier shorts rest first ge.1 g gs h l

-- How many pauses there are before a run that ends the loop
stops :
    (b : ℕ) (before later : List Run) (r : Run)
    → All IsGoing before
    → r.quit || r.quit_in_pause ≡ true
    → (length (supervise_from b (before ++ r ∷ later)).0 ≡ length before + last_pause r)
      × ((supervise_from b (before ++ r ∷ later)).1 ≡ true)
unfolding supervise_from
stops b [] later r g q = ground arith
stops b (x ∷ before) later r g q =
    let (n, e) = stops (min (2 * after_run b x) max_backoff) before later r g.1 q in
    rw (g.0.0, g.0.1) (ap suc n ∙ omega arith, e)

-- While a service is run, its runs being `earlier`, `first`, `shorts` and `mid` up to the one that
-- ends in its stop: if none of `shorts` lasted more than a minute, and `first` did or is the first run
-- of all, the pause after the last of `shorts` (after `first`, if there are none) is one second,
-- doubled for each of `shorts`, and half a minute at most. Each run but the last is followed by one
-- pause, the last one by one only if it was to stop in it, and the loop has returned, whatever runs
-- would come later.
pub supervise_lem :
    (earlier shorts mid later : List Run) (first r : Run)
    → All IsGoing earlier
    → IsGoing first
    → All IsGoing shorts
    → All IsGoing mid
    → All IsShort shorts
    → (earlier ≡ []) ⊎ IsLong first
    → r.quit || r.quit_in_pause ≡ true
    → let (pauses, ended) = supervise (earlier ++ first ∷ (shorts ++ (mid ++ r ∷ later))) in
      (nth (length earlier + length shorts) pauses
        ≡ some (min (doubled (length shorts)) max_backoff))
      × (length pauses ≡ length earlier + suc (length shorts + length mid) + last_pause r)
      × (ended ≡ true)
unfolding supervise
supervise_lem earlier shorts mid later first r ge g gs gm h start q =
    let rest = mid ++ r ∷ later in
    let before = earlier ++ first ∷ (shorts ++ mid) in
    let same : before ++ r ∷ later ≡ earlier ++ first ∷ (shorts ++ rest) =
      append_assoc earlier (first ∷ (shorts ++ mid)) (r ∷ later)
      ∙ ap (λ t. earlier ++ first ∷ t) (append_assoc shorts mid (r ∷ later)) in
    let all : All IsGoing before =
      All-append IsGoing earlier (first ∷ (shorts ++ mid)) ge
        (g, All-append IsGoing shorts mid gs gm) in
    let (n, e) = stops min_backoff before later r all q in
    (
      elim start [
        | inl none_yet ↦ rw none_yet (
            ap (λ n. nth n (supervise_from min_backoff (first ∷ (shorts ++ rest))).0) (omega arith)
            ∙ stretch-nth min_backoff first shorts rest g gs h (ground arith))
        | inr l ↦ long-nth min_backoff earlier shorts rest first ge g gs h l
      ],
      ap (λ rs. length (supervise_from min_backoff rs).0) (sym same)
          ∙ n
          ∙ omega
              (arith, length-append earlier (first ∷ (shorts ++ mid)), length-append shorts mid),
      ap (λ rs. (supervise_from min_backoff rs).1) (sym same) ∙ e,
    )
