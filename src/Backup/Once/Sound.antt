-- ===== src/Backup/Once/Sound.antt =====
-- What holds of the node and of the streams at any time, and of an environment's backup.
use fern.Prelude.{
  ℕ, ◌≤◌, ◌<◌, ◌≡◌, refl, sym, ap, ◌∙◌, subst, inl, inr, Bool-cases, true, Option, none, some, List,
  [], ◌∷◌, Bytes, if◌then◌else◌, equal, equal_iff, arith,
}
use fern.Sets.{value_of}
use fern.Backup.Bucket.{
  Name, taken_at, stray, kept, same_name, Taken, Env, SendStream, Send, EnvBackup, State, stream_at,
  snap_at, without_snap, without_env,
}

-- A snapshot of a backup is older than now; if the workspace has not changed since, it holds the same
-- files; and if it was sent, its stream makes those too.
abbrev pub IsTaken : State → Bytes → Env → ℕ → Taken → Type 0
IsTaken s id e n x =
    (n < s.now)
    × (x.created ≤ s.clock)
    × (e.generation ≡ x.created → e.tree ≡ x.tree)
    × ((y : SendStream) → stream_at id n s.bucket.streams ≡ some y → y.tree ≡ x.tree)

pub record IsSound (s : State) : Type 0 where
  pub old :
      (id : Bytes) (n : ℕ) (y : SendStream) → stream_at id n s.bucket.streams ≡ some y → n < s.now
  pub past : (id : Bytes) (e : Env) → value_of id s.envs ≡ some e → e.generation ≤ s.clock
  pub snaps :
      (id : Bytes) (e : Env) (n : ℕ) (x : Taken)
      → value_of id s.envs ≡ some e
      → snap_at (taken_at n) e.snaps ≡ some x
      → IsTaken s id e n x

-- Receiving a chain, after `cur`, ends in a snapshot and its files.
abbrev pub Plays :
    List (Bytes × ℕ × SendStream) → Bytes → Option (ℕ × ℕ) → List Send → ℕ × ℕ → Type 0
Plays ss id cur [] r = cur ≡ some r
Plays ss id cur (s ∷ rest) r =
    (x : SendStream) × (s.id ≡ id)
    × (stream_at id s.snapshot ss ≡ some x)
    × (x.parent ≡ cur)
    × Plays ss id (some (s.snapshot, x.tree)) rest r

-- The workspace, if it has not changed since `g`, holds the files `t`.
abbrev pub IsCurrent : State → Bytes → ℕ → ℕ → Type 0
IsCurrent s id g t =
    (g ≤ s.clock) × ((e : Env) → value_of id s.envs ≡ some e → e.generation ≡ g → e.tree ≡ t)

abbrev pub IsBackup : State → Bytes → EnvBackup → Type 0
IsBackup s id eb =
    (n : ℕ) × (t : ℕ) × Plays s.bucket.streams id none eb.chain (n, t)
    × IsCurrent s id eb.generation t

-- What others do keeps the bucket, and whatever is sound.
abbrev pub Keeps : State → State → Type 0
Keeps s v =
    (v.bucket ≡ s.bucket)
    × (v.now ≡ s.now)
    × IsSound v
    × ((id : Bytes) (g t : ℕ) → IsCurrent s id g t → IsCurrent v id g t)

-- One environment is another, or a new one.
abbrev pub Becomes : State → State → Bytes → Env → Type 0
Becomes s v id e' =
    (k : Bytes) → value_of k v.envs ≡ (if equal k id then some e' else value_of k s.envs)

-- The snapshots that are there are as they should be.
abbrev pub AreTaken : State → Bytes → Env → Type 0
AreTaken v id e = (n : ℕ) (x : Taken) → snap_at (taken_at n) e.snaps ≡ some x → IsTaken v id e n x

module _ (s v : State) (sound : IsSound s) (bucket : v.bucket ≡ s.bucket) (now : s.now ≤ v.now)
    (clock : s.clock ≤ v.clock) where
  IsTaken-next_time :
      (id : Bytes) (e : Env) (n : ℕ) (x : Taken) → IsTaken s id e n x → IsTaken v id e n x
  IsTaken-next_time id e n x (a, b, c, d) = (
    omega arith,
    omega arith,
    c,
    λ y h. d y (subst (λ b. stream_at id n b.streams ≡ some y) bucket h),
  )

  old-next_time :
      (id : Bytes) (n : ℕ) (y : SendStream) → stream_at id n v.bucket.streams ≡ some y → n < v.now
  old-next_time id n y h =
      omega (arith, sound.old id n y (subst (λ b. stream_at id n b.streams ≡ some y) bucket h))

  -- With one environment changed.
  pub become-IsSound :
      (id : Bytes) (e' : Env)
      → Becomes s v id e'
      → e'.generation ≤ v.clock
      → AreTaken v id e'
      → IsSound v
  become-IsSound id e' b g t = record {
    old = old-next_time;
    past = λ k e h. elim (Bool-cases (equal k id)) [
      | inl y ↦ let f : some e' ≡ some e = rw (b k, y) at h in ground (arith, f, g)
      | inr n ↦
          let f : value_of k s.envs ≡ some e = rw (b k, n) at h in
          omega (arith, sound.past k e f, clock)
    ];
    snaps = λ k e n x h i. elim (Bool-cases (equal k id)) [
      | inl y ↦
          let f : some e' ≡ some e = rw (b k, y) at h in
          let same : k ≡ id = (equal_iff k id).0 y in
          let e_same : e' ≡ e = ground (arith, f) in
          subst (λ k. IsTaken v k e n x) (sym same)
            (subst (λ e. snap_at (taken_at n) e.snaps ≡ some x → IsTaken v id e n x) e_same (t n x)
              i)
      | inr m ↦
          let f : value_of k s.envs ≡ some e = rw (b k, m) at h in
          IsTaken-next_time k e n x (sound.snaps k e n x f i)
    ];
  }

  pub become-IsCurrent :
      (id : Bytes) (e' : Env)
      → Becomes s v id e'
      → ((g t : ℕ) → IsCurrent s id g t → e'.generation ≡ g → e'.tree ≡ t)
      → (k : Bytes) (g t : ℕ) → IsCurrent s k g t
      → IsCurrent v k g t
  become-IsCurrent id e' b c k g t (p, q) = (
    omega arith,
    λ e h i. elim (Bool-cases (equal k id)) [
      | inl y ↦
          let f : some e' ≡ some e = rw (b k, y) at h in
          let e_same : e' ≡ e = ground (arith, f) in
          let here : IsCurrent s id g t =
            subst (λ k. IsCurrent s k g t) ((equal_iff k id).0 y) (p, q) in
          subst (λ e. e.generation ≡ g → e.tree ≡ t) e_same (c g t here) i
      | inr m ↦ q e (rw (b k, m) at h) i
    ],
  )

  -- With fewer environments.
  pub fewer-IsSound :
      ((k : Bytes) (e : Env) → value_of k v.envs ≡ some e → value_of k s.envs ≡ some e) → IsSound v
  fewer-IsSound h = record {
    old = old-next_time;
    past = λ k e i. omega (arith, sound.past k e (h k e i), clock);
    snaps = λ k e n x i j. IsTaken-next_time k e n x (sound.snaps k e n x (h k e i) j);
  }

  pub fewer-IsCurrent :
      ((k : Bytes) (e : Env) → value_of k v.envs ≡ some e → value_of k s.envs ≡ some e)
      → (k : Bytes) (g t : ℕ) → IsCurrent s k g t
      → IsCurrent v k g t
  fewer-IsCurrent h k g t (p, q) = (omega arith, λ e i. q e (h k e i))

same_name-eq : (a b : Name) → same_name a b ≡ true → a ≡ b
same_name-eq (taken_at n) (taken_at m) h = ap taken_at (ground (arith, h))
same_name-eq (stray s) (stray t) h = ap stray ((equal_iff s t).0 h)
same_name-eq (kept s) (kept t) h = ap kept ((equal_iff s t).0 h)
same_name-eq (taken_at n) (stray t) h = absurd (ground (arith, h))
same_name-eq (taken_at n) (kept t) h = absurd (ground (arith, h))
same_name-eq (stray s) (taken_at m) h = absurd (ground (arith, h))
same_name-eq (stray s) (kept t) h = absurd (ground (arith, h))
same_name-eq (kept s) (taken_at m) h = absurd (ground (arith, h))
same_name-eq (kept s) (stray t) h = absurd (ground (arith, h))

snap_at-without_snap_self :
    (a : Name) (ss : List (Name × Taken)) → snap_at a (without_snap a ss) ≡ none
unfolding snap_at without_snap
snap_at-without_snap_self a [] = refl
snap_at-without_snap_self a ((c, y) ∷ ss) = elim (Bool-cases (same_name a c)) [
  | inl y ↦ rw y (snap_at-without_snap_self a ss)
  | inr n ↦ rw (n, n) (snap_at-without_snap_self a ss)
]

pub snap_at-without_snap :
    (a b : Name) (x : Taken) (ss : List (Name × Taken))
    → snap_at a (without_snap b ss) ≡ some x
    → snap_at a ss ≡ some x
unfolding snap_at without_snap
snap_at-without_snap a b x [] h = h
snap_at-without_snap a b x ((c, y) ∷ ss) h = elim (Bool-cases (same_name b c)) [
  | inr n ↦ elim (Bool-cases (same_name a c)) [
    | inl y ↦ rw y (rw (n, y) at h)
    | inr m ↦ rw m (snap_at-without_snap a b x ss (rw (n, m) at h))
  ]
  | inl y ↦
      let k : snap_at a (without_snap b ss) ≡ some x = rw y at h in
      elim (Bool-cases (same_name a c)) [
        | inl z ↦
            let same : b ≡ a = same_name-eq b c y ∙ sym (same_name-eq a c z) in
            let none_left : snap_at a (without_snap b ss) ≡ none =
              subst (λ d. snap_at a (without_snap d ss) ≡ none) (sym same)
                (snap_at-without_snap_self a ss) in
            absurd (ground (arith, k, none_left))
        | inr m ↦ rw m (snap_at-without_snap a b x ss k)
      ]
]

pub value_of-without_env :
    (k id : Bytes) (es : List (Bytes × Env))
    → value_of k (without_env id es) ≡ (if equal k id then none else value_of k es)
unfolding value_of without_env
value_of-without_env k id [] = ground arith
value_of-without_env k id ((i, e) ∷ es) = ground (
  arith,
  equal_iff id i,
  equal_iff k i,
  equal_iff k id,
  equal_iff id k,
  value_of-without_env k id es,
)
