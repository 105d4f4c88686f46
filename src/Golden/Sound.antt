-- ===== src/Golden/Sound.antt =====
-- What the snapshots of a builder are taken of, wherever its builds end.
use fern.Prelude.{
  ℕ, zero, suc, ◌≡◌, refl, sym, ap, subst, inl, inr, Bool, Bool-cases, true, false, Option, none,
  some, List, [], ◌∷◌, Bytes, if◌then◌else◌, ◌==◌, arith,
}
use fern.Golden.{
  Work, gone, other, copied, used, half, Builder, written, Fate, done, from_option, try, call,
  ◌>>=◌, ◌>>◌, all_done, create, stop_box, wake_box, build_source, stripped_some, stripped_all,
  strip_source, has_key, or_missing, has_snapshot, with_snapshot, take_snapshot, keep_turns,
  count_beyond, without_at, drop_beyond, prune, both, first_start, run_and_keep, unless_there,
  read_key, build_golden,
}
use fern.Golden.Calls.{
  After, result, error, After-bind, After-caught, After-weaken, AreGolden, IsGolden, Stage, Any,
  IsDown, IsListed, IsCopied, IsUsed, IsStopped, IsHalf, IsStripped, call-After, step-After,
}

module _ (key : Work → Option Bytes) where
  create-After :
      (b : Builder) (fs : List Fate)
      → Stage key Any b
      → After (λ _ v. Stage key Any v) (IsGolden key) (create b fs)
  unfolding create
  create-After =
      step-After key Any Any
        (λ b. if b.exists then b else record b { exists = true; work = other; listed = none })
        (λ w l h. h) made
    where
      made :
          (v : Builder)
          → Stage key Any v
          → Stage key Any
              (if v.exists then v else record v { exists = true; work = other; listed = none })
      made v h = elim (Bool-cases v.exists) [ inl y ↦ rw y h | inr n ↦ rw n (h.0, tt) ]

  stop_box-After :
      (P R : Work → Option ℕ → Bool → Type 0)
      → ((w : Work) (l : Option ℕ) → P w l true → P (written w) l true)
      → ((w : Work) (l : Option ℕ) (up : Bool) → P w l up → R w l false)
      → (b : Builder) (fs : List Fate) → Stage key P b
      → After (λ _ v. Stage key R v) (IsGolden key) (stop_box b fs)
  unfolding stop_box
  stop_box-After P R kept r =
      step-After key P R (λ b. record b { up = false }) kept
        λ v h. (h.0, r v.work v.listed v.up h.1)

  wake_box-After :
      (c : ℕ) (b : Builder) (fs : List Fate)
      → Stage key (IsCopied c) b
      → After (λ _ v. Stage key (IsUsed c) v) (IsGolden key) (wake_box b fs)
  unfolding wake_box
  wake_box-After c =
      step-After key (IsCopied c) (IsUsed c) (λ b. record b { up = true; work = written b.work })
        (λ w l h. absurd (ground (arith, h.0))) λ v h. (h.0, (h.1.1, ap written h.1.2))

  build_source-After :
      (c : ℕ) (b : Builder) (fs : List Fate)
      → Stage key IsDown b
      → After (λ _ v. Stage key (IsCopied c) v) (IsGolden key) (build_source c b fs)
  unfolding build_source
  build_source-After c b fs h =
      After-bind
        ((call (λ b. all_done (record b { listed = some c }))
            >> call (λ b. all_done (record b { work = gone })))
          b fs)
        (λ _. call (λ b. all_done (record b { work = copied c })))
        (After-bind (call (λ b. all_done (record b { listed = some c })) b fs)
          (λ _. call (λ b. all_done (record b { work = gone })))
          (step-After key IsDown (IsListed c) (λ b. record b { listed = some c }) (λ w l h. h)
            (λ v i. (i.0, (i.1, refl))) b fs h)
          λ _ v gs i.
            step-After key (IsListed c) (IsListed c) (λ b. record b { work = gone }) (λ w l h. h)
              (λ v j. j) v gs i)
        λ _ w hs j.
          step-After key (IsListed c) (IsCopied c) (λ b. record b { work = copied c })
            (λ w l h. absurd (ground (arith, h.0))) (λ v k. (k.0, (k.1.0, k.1.1, refl))) w hs j

  strip_source-After :
      (c : ℕ) (b : Builder) (fs : List Fate)
      → Stage key (IsStopped c) b
      → After (λ _ v. Stage key (IsStripped c) v) (IsGolden key) (strip_source b fs)
  unfolding strip_source
  strip_source-After c b fs h =
      After-bind
        ((call (λ b. all_done (record b { work = stripped_some b.listed b.work }))
            >> call (λ b. all_done (record b { work = stripped_all b.work })))
          b fs)
        (λ _. call (λ b. all_done (record b { listed = none })))
        (After-bind (call (λ b. all_done (record b { work = stripped_some b.listed b.work })) b fs)
          (λ _. call (λ b. all_done (record b { work = stripped_all b.work })))
          (step-After key (IsStopped c) (IsHalf c)
            (λ b. record b { work = stripped_some b.listed b.work })
            (λ w l h. absurd (ground (arith, h.0)))
            (λ v i. (i.0, (i.1.0, some_gone v.listed v.work i.1.1 i.1.2))) b fs h)
          λ _ v gs i.
            step-After key (IsHalf c) (IsStripped c) (λ b. record b { work = stripped_all b.work })
              (λ w l h. absurd (ground (arith, h.0))) (λ v j. (j.0, (j.1.0, ap stripped_all j.1.1)))
              v gs i)
        λ _ w hs j.
          step-After key (IsStripped c) (IsStripped c) (λ b. record b { listed = none })
            (λ w l h. absurd (ground (arith, h.0))) (λ v k. k) w hs j
    where
      some_gone : (l : Option ℕ) (w : Work) → l ≡ some c → w ≡ used c → stripped_some l w ≡ half c
      some_gone l w e f =
          let g : c == c ≡ true = ground arith in
          subst (λ l. stripped_some l w ≡ half c) (sym e)
            (subst (λ w. stripped_some (some c) w ≡ half c) (sym f) (rw g refl))

  -- A stage is kept by what only reads.
  has_snapshot-After :
      (P : Work → Option ℕ → Bool → Type 0) (k : Bytes)
      → ((w : Work) (l : Option ℕ) → P w l true → P (written w) l true)
      → (b : Builder) (fs : List Fate) → Stage key P b
      → After (λ _ v. Stage key P v) (Stage key P) (has_snapshot k b fs)
  unfolding has_snapshot
  has_snapshot-After P k kept b fs h =
      After-bind (try (call λ b. (some (has_key k b.snaps), b)) b fs)
        (λ r v gs. done (or_missing r) v gs)
        (After-caught {R = λ _ v. Stage key P v} (call (λ b. (some (has_key k b.snaps), b)) b fs)
          (call-After key {Q = λ _ v. Stage key P v} {E = Stage key P} P
            (λ b. (some (has_key k b.snaps), b)) kept b fs h λ v i. (i, i, λ _ _. i))
          (λ _ v i. i) (λ v i. i) (λ v i. i))
        λ r v gs i. result (or_missing r) v gs i

  read_key-After :
      (c : ℕ) (b : Builder) (fs : List Fate)
      → Stage key (IsCopied c) b
      → After
          (λ k v. Stage key (IsCopied c) v × (key (copied c) ≡ some k))
          (IsGolden key)
          (read_key key b fs)
  read_key-After c b fs h =
      call-After key (IsCopied c) (λ b. (key b.work, b)) (λ w l h. absurd (ground (arith, h.0))) b
        fs h λ v i. (i.0, i.0, λ k e. (i, subst (λ w. key w ≡ some k) i.1.2 e))

  -- Whatever the wake and the stop end with, the next step is of a box that was stopped.
  first_start-After :
      (c : ℕ) (b : Builder) (fs : List Fate)
      → Stage key (IsCopied c) b
      → After (λ _ v. Stage key (IsStopped c) v) (IsGolden key) (first_start b fs)
  unfolding wake_box stop_box
  first_start-After c b fs h =
      After-bind {Q = Woke} (try wake_box b fs) (λ woke. try stop_box >>= both woke)
        (After-caught (wake_box b fs) (wake_box-After c b fs h) (λ _ v i. (i.0, λ _ _. i))
          (λ v i. (i, λ _ e. absurd (ground (arith, e)))) (λ v i. i))
        λ woke v gs i.
          After-bind {Q = Halted woke} (try stop_box v gs) (both woke) (halting woke v gs i)
            λ halted w hs j. ends woke halted w hs j
    where
      Woke : Option (Unit {0}) → Builder → Type 0
      Woke o v = IsGolden key v × ((u : Unit {0}) → o ≡ some u → Stage key (IsUsed c) v)

      Halted : Option (Unit {0}) → Option (Unit {0}) → Builder → Type 0
      Halted o p v =
          IsGolden key v × ((u w : Unit {0}) → o ≡ some u → p ≡ some w → Stage key (IsStopped c) v)

      halting :
          (o : Option (Unit {0})) (v : Builder) (gs : List Fate)
          → Woke o v
          → After (Halted o) (IsGolden key) (try stop_box v gs)
      halting none v gs i =
          After-caught (stop_box v gs)
            (stop_box-After Any Any (λ w l h. h) (λ w l up h. h) v gs (i.0, tt))
            (λ _ w j. (j.0, λ _ _ e _. absurd (ground (arith, e))))
            (λ w j. (j, λ _ _ e _. absurd (ground (arith, e)))) (λ w j. j)
      halting (some u) v gs i =
          After-caught (stop_box v gs)
            (stop_box-After (IsUsed c) (IsStopped c) (λ w l h. (h.0, ap written h.1))
              (λ w l up h. (refl, h.0, h.1)) v gs (i.1 u refl))
            (λ _ w j. (j.0, λ _ _ _ _. j)) (λ w j. (j, λ _ _ _ e. absurd (ground (arith, e))))
            (λ w j. j)

      ends :
          (o p : Option (Unit {0})) (v : Builder) (gs : List Fate)
          → Halted o p v
          → After (λ _ v. Stage key (IsStopped c) v) (IsGolden key) (both o p v gs)
      ends none p v gs i = error v gs i.0
      ends (some tt) none v gs i = error v gs i.0
      ends (some tt) (some u) v gs i = result tt v gs (i.1 tt u refl refl)

  take_snapshot-After :
      (c : ℕ) (k : Bytes) (b : Builder) (fs : List Fate)
      → key (copied c) ≡ some k
      → Stage key (IsStripped c) b
      → After (λ _ v. IsGolden key v) (IsGolden key) (take_snapshot k b fs)
  unfolding take_snapshot
  take_snapshot-After c k b fs e h =
      call-After key (IsStripped c) (with_snapshot k) (λ w l h. absurd (ground (arith, h.0))) b fs h
        λ v i. (i.0, taken v i, λ _ _. taken v i)
    where
      taken : (v : Builder) → Stage key (IsStripped c) v → IsGolden key (with_snapshot k v).1
      taken v i = elim (Bool-cases (has_key k v.snaps)) [
        | inl y ↦ rw y i.0
        | inr n ↦ rw n ((c, e, i.1.1), i.0)
      ]

  without_at-AreGolden :
      (n : ℕ) (ss : List (Bytes × Work)) → AreGolden key ss → AreGolden key (without_at n ss)
  unfolding without_at
  without_at-AreGolden n [] h = h
  without_at-AreGolden zero (x ∷ ss) h = h.1
  without_at-AreGolden (suc n) (x ∷ ss) h = (h.0, without_at-AreGolden n ss h.1)

  drop_beyond-After :
      (n : ℕ) (b : Builder) (fs : List Fate)
      → IsGolden key b
      → After (λ _ v. IsGolden key v) (IsGolden key) (drop_beyond n b fs)
  unfolding drop_beyond
  drop_beyond-After zero b fs h = result tt b fs h
  drop_beyond-After (suc n) b fs h =
      After-bind (call (λ b. all_done (record b { snaps = without_at keep_turns b.snaps })) b fs)
        (λ _. drop_beyond n)
        (step-After key Any Any (λ b. record b { snaps = without_at keep_turns b.snaps })
          (λ w l h. h) (λ v i. (without_at-AreGolden keep_turns v.snaps i.0, tt)) b fs (h, tt))
        λ _ v gs i. drop_beyond-After n v gs i.0

  prune-After :
      (b : Builder) (fs : List Fate)
      → IsGolden key b
      → After (λ _ v. IsGolden key v) (IsGolden key) (prune b fs)
  unfolding prune
  prune-After b fs h =
      After-bind (call (λ b. (some (count_beyond keep_turns b.snaps), b)) b fs) drop_beyond
        (call-After key {Q = λ _ v. IsGolden key v} Any
          (λ b. (some (count_beyond keep_turns b.snaps), b)) (λ w l h. h) b fs (h, tt)
          λ v i. (i.0, i.0, λ _ _. i.0))
        λ n v gs i. drop_beyond-After n v gs i

  run_and_keep-After :
      (c : ℕ) (k : Bytes) (b : Builder) (fs : List Fate)
      → key (copied c) ≡ some k
      → Stage key (IsCopied c) b
      → After (λ _ v. IsGolden key v) (IsGolden key) (run_and_keep k b fs)
  run_and_keep-After c k b fs e h =
      After-bind ((first_start >> strip_source >> take_snapshot k) b fs)
        (λ _. try prune >>= λ _ v gs. done tt v gs)
        (After-bind ((first_start >> strip_source) b fs) (λ _. take_snapshot k)
          (After-bind (first_start b fs) (λ _. strip_source) (first_start-After c b fs h)
            λ _ v gs i. strip_source-After c v gs i)
          λ _ v gs i. take_snapshot-After c k v gs e i)
        λ _ v gs i.
          After-bind (try prune v gs) (λ _ w hs. done tt w hs)
            (After-caught {R = λ _ v. IsGolden key v} (prune v gs) (prune-After v gs i) (λ _ w j. j)
              (λ w j. j) (λ w j. j))
            λ _ w hs j. result tt w hs j

  -- A build keeps what the snapshots are, wherever it ends.
  pub build_golden-After :
      (found : Bool) (src : Option ℕ) (b : Builder) (fs : List Fate)
      → AreGolden key b.snaps
      → After
          (λ _ v. AreGolden key v.snaps)
          (λ v. AreGolden key v.snaps)
          (build_golden key found src b fs)
  unfolding build_golden
  build_golden-After false src b fs h = error b fs h
  build_golden-After true src b fs h =
      After-bind ((create >> stop_box >> from_option src) b fs)
        (λ c. build_source c >> read_key key >>= λ k. has_snapshot k >>= unless_there k)
        (After-bind ((create >> stop_box) b fs) (λ _. from_option src)
          (After-bind (create b fs) (λ _. stop_box) (create-After b fs (h, tt))
            λ _ v gs i. stop_box-After Any IsDown (λ w l h. h) (λ w l up h. refl) v gs i)
          λ _ v gs i. source src v gs i)
        λ c v gs i.
          After-bind ((build_source c >> read_key key) v gs)
            (λ k. has_snapshot k >>= unless_there k)
            (After-bind (build_source c v gs) (λ _. read_key key) (build_source-After c v gs i)
              λ _ w hs j. read_key-After c w hs j)
            λ k w hs j.
              After-bind (has_snapshot k w hs) (unless_there k)
                (After-weaken (has_snapshot k w hs) (λ x m. m.0)
                  (has_snapshot-After (IsCopied c) k (λ w l h. absurd (ground (arith, h.0))) w hs
                    j.0))
                λ there x is m. unless c k there x is j.1 m
    where
      source :
          (o : Option ℕ) (v : Builder) (gs : List Fate)
          → Stage key IsDown v
          → After (λ _ v. Stage key IsDown v) (IsGolden key) (from_option o v gs)
      source none v gs i = error v gs i.0
      source (some c) v gs i = result c v gs i

      unless :
          (c : ℕ) (k : Bytes) (there : Bool) (x : Builder) (is : List Fate)
          → key (copied c) ≡ some k
          → Stage key (IsCopied c) x
          → After (λ _ v. IsGolden key v) (IsGolden key) (unless_there k there x is)
      unless c k true x is e m = result tt x is m.0
      unless c k false x is e m = run_and_keep-After c k x is e m
