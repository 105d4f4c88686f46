-- ===== src/Backup/Restore/Sound.antt =====
-- What a restore gives after any backups, whichever of their calls failed.
use fern.Prelude.{
  ℕ, zero, suc, ◌==◌, ◌≤◌, ◌≡◌, refl, sym, ap, ◌∙◌, subst, inl, inr, Bool, Bool-cases, true, false,
  ◌&&◌, ◌||◌, Option, none, some, List, [], ◌∷◌, Bytes, equal, equal_refl, not, arith, All, All-map,
}
use fern.Backup.Bucket.{SendStream, Send, EnvBackup, Bucket, State, stream_at}
use fern.Backup.Send.{last_snapshot}
use fern.Backup.Once.Sound.{IsCurrent, Plays}
use fern.Backup.Once.Ends.{AreBackups}
use fern.Backup.Once.Streams.{Plays-last}
use fern.Backup.Restore.{
  Folder, holds_snapshot, has_parent, files_of, receive, receive_all, then_all, outside, Placed,
  halted, placed, and_then, each_workspace,
}

-- A snapshot is `k` receives from nothing.
abbrev IsDepth : List (Bytes × ℕ × SendStream) → Bytes → ℕ → Option (ℕ × ℕ) → Type 0
IsDepth ss id zero o = o ≡ none
IsDepth ss id (suc k) o =
    (n : ℕ) × (x : SendStream) × (o ≡ some (n, x.tree))
    × (stream_at id n ss ≡ some x)
    × IsDepth ss id k x.parent

-- A snapshot's stream says what it is from, so the number is its own.
IsDepth-unique :
    (ss : List (Bytes × ℕ × SendStream)) (id : Bytes) (j k : ℕ) (o p : Option (ℕ × ℕ))
    → o ≡ p
    → IsDepth ss id j o
    → IsDepth ss id k p
    → j ≡ k
IsDepth-unique ss id zero zero o p e h i = refl
IsDepth-unique ss id zero (suc k) o p e h (n, x, a, b, c) = absurd (ground (arith, e, h, a))
IsDepth-unique ss id (suc j) zero o p e (n, x, a, b, c) i = absurd (ground (arith, e, i, a))
IsDepth-unique ss id (suc j) (suc k) o p e (n, x, a, b, c) (m, y, f, g, d) =
    let nm : n ≡ m = ground (arith, e, a, f) in
    let b' : stream_at id m ss ≡ some x = subst (λ n. stream_at id n ss ≡ some x) nm b in
    let xy : x.parent ≡ y.parent = ground (arith, b', g) in
    ap suc (IsDepth-unique ss id j k x.parent y.parent xy c d)

-- What has been received is fewer receives from nothing.
abbrev AreEarlier : List (Bytes × ℕ × SendStream) → Bytes → ℕ → Folder → Type 0
AreEarlier ss id k rs = All (λ r. (j : ℕ) × (suc j ≤ k) × IsDepth ss id (suc j) (some r)) rs

not_received :
    (ss : List (Bytes × ℕ × SendStream)) (id : Bytes) (k n : ℕ) (x : SendStream) (rs : Folder)
    → stream_at id n ss ≡ some x
    → IsDepth ss id (suc k) (some (n, x.tree))
    → AreEarlier ss id k rs
    → holds_snapshot n rs ≡ false
not_received ss id k n x [] a d h = refl
not_received ss id k n x ((m, t) ∷ rs) a d ((j, b, (i, y, f, g, e)), h) =
    elim (Bool-cases (n == m)) [
      | inr z ↦ ground (arith, z, not_received ss id k n x rs a d h)
      | inl z ↦
          let ni : i ≡ n = ground (arith, z, f) in
          let g' : stream_at id n ss ≡ some y = subst (λ i. stream_at id i ss ≡ some y) ni g in
          let same : some (n, x.tree) ≡ some (m, t) = ground (arith, g', a, f, z) in
          let u : suc k ≡ suc j =
            IsDepth-unique ss id (suc k) (suc j) (some (n, x.tree)) (some (m, t)) same d
              (i, y, f, g, e) in
          absurd (ground (arith, b, u))
    ]

abbrev IsThere : Option (ℕ × ℕ) → Folder → Type 0
IsThere cur rs = (n t : ℕ) → cur ≡ some (n, t) → files_of n rs ≡ some t

files_of-has_parent :
    (n t : ℕ) (rs : Folder) → files_of n rs ≡ some t → has_parent (some (n, t)) rs ≡ true
unfolding files_of
files_of-has_parent n t [] h = absurd (ground (arith, h))
files_of-has_parent n t ((m, u) ∷ rs) h = ground (arith, h, files_of-has_parent n t rs)

IsThere-has_parent :
    (cur : Option (ℕ × ℕ)) (rs : Folder) → IsThere cur rs → has_parent cur rs ≡ true
IsThere-has_parent none rs h = refl
IsThere-has_parent (some (n, t)) rs h = files_of-has_parent n t rs (h n t refl)

-- A chain that plays is received.
receive_all-Plays :
    (b : Bucket) (id : Bytes) (chain : List Send) (rs : Folder) (k : ℕ) (cur : Option (ℕ × ℕ))
    (n t : ℕ)
    → AreEarlier b.streams id k rs
    → IsThere cur rs
    → IsDepth b.streams id k cur
    → Plays b.streams id cur chain (n, t)
    → (ts : Folder) × (receive_all b chain rs ≡ some ts) × (files_of n ts ≡ some t)
unfolding receive_all receive files_of
receive_all-Plays b id [] rs k cur n t h i d p = (rs, refl, i n t p)
receive_all-Plays b id (s ∷ chain) rs k cur n t h i d (x, a, at, e, p) =
    let d' : IsDepth b.streams id (suc k) (some (s.snapshot, x.tree)) =
      (s.snapshot, x, refl, at, subst (IsDepth b.streams id k) (sym e) d) in
    let (ts, f, g) =
      receive_all-Plays b id chain ((s.snapshot, x.tree) ∷ rs) (suc k) (some (s.snapshot, x.tree)) n
        t ((k, omega arith, d'), All-map _ _ rs (λ r (j, l, m). (j, omega (arith, l), m)) h)
        (λ m u q. ground (arith, q)) d' p in
    (ts, ap (then_all (receive_all b chain)) (one d') ∙ f, g)
  where
    one :
        IsDepth b.streams id (suc k) (some (s.snapshot, x.tree))
        → receive b s rs ≡ some ((s.snapshot, x.tree) ∷ rs)
    one d' =
        let there : stream_at s.id s.snapshot b.streams ≡ some x =
          subst (λ i. stream_at i s.snapshot b.streams ≡ some x) (sym a) at in
        let from : has_parent x.parent rs ≡ true =
          subst (λ c. has_parent c rs ≡ true) (sym e) (IsThere-has_parent cur rs i) in
        rw (there, from, not_received b.streams id k s.snapshot x rs at d' h) refl

-- The last files of a chain that plays are there, under the name of its last send.
received_last :
    (b : Bucket) (id : Bytes) (chain : List Send) (n t : ℕ)
    → Plays b.streams id none chain (n, t)
    → (ts : Folder) × (receive_all b chain [] ≡ some ts)
      × (last_snapshot chain ≡ some n)
      × (files_of n ts ≡ some t)
received_last b id [] n t p = absurd (ground (arith, p))
received_last b id (s ∷ chain) n t p =
    let (ts, f, g) =
      receive_all-Plays b id (s ∷ chain) [] 0 none n t tt (λ m u e. absurd (ground (arith, e))) refl
        p in
    (ts, f, Plays-last b.streams id chain s none n t p, g)

-- The environments and their paths, each with files that are current for its backup.
abbrev pub AreRestored : State → List (Bytes × Bytes × ℕ) → List (Bytes × EnvBackup) → Type 0
AreRestored s [] [] = Unit
AreRestored s [] (e ∷ es) = ⊥
AreRestored s (w ∷ ws) [] = ⊥
AreRestored s ((i, p, t) ∷ ws) ((id, eb) ∷ es) =
    (i ≡ id) × (p ≡ eb.workspace) × IsCurrent s id eb.generation t × AreRestored s ws es

-- A workspace of the manifest that is not in the pool.
abbrev pub has_outside : (Bytes → Bool) → Bytes → List (Bytes × EnvBackup) → Bool
has_outside is_local id [] = false
has_outside is_local id ((i, eb) ∷ es) =
    (equal id i && not (is_local eb.workspace)) || has_outside is_local id es

pub data Places (is_local : Bytes → Bool) (s : State) (es : List (Bytes × EnvBackup))
    : Placed → Type 0 where
  all_placed :
      (ws : List (Bytes × Bytes × ℕ)) → AreRestored s ws es → Places is_local s es (placed ws)
  not_local :
      (id : Bytes) → has_outside is_local id es ≡ true → Places is_local s es (halted (outside id))

then-Places :
    (is_local : Bytes → Bool) (s : State) (id : Bytes) (eb : EnvBackup)
    (es : List (Bytes × EnvBackup)) (t : ℕ) (r : Placed)
    → IsCurrent s id eb.generation t
    → Places is_local s es r
    → Places is_local s ((id, eb) ∷ es) (and_then (id, eb.workspace, t) r)
then-Places is_local s id eb es t (placed ws) c (all_placed _ h) =
    all_placed ((id, eb.workspace, t) ∷ ws) (refl, refl, c, h)
then-Places is_local s id eb es t (halted e) c (not_local i h) = not_local i (ground (arith, h))

pub each_workspace-Places :
    (is_local : Bytes → Bool) (s : State) (es : List (Bytes × EnvBackup))
    → AreBackups s es
    → Places is_local s es (each_workspace is_local s.bucket es)
unfolding each_workspace
each_workspace-Places is_local s [] h = all_placed [] tt
each_workspace-Places is_local s ((id, eb) ∷ es) ((n, t, p, c), h) =
    let (ts, f, g, k) = received_last s.bucket id eb.chain n t p in
    rw (f, g)
      (elim (Bool-cases (is_local eb.workspace)) [
        | inl y ↦
            rw (y, k)
              (then-Places is_local s id eb es t (each_workspace is_local s.bucket es) c
                (each_workspace-Places is_local s es h))
        | inr z ↦ rw z (not_local id (ground (arith, z, equal_refl id)))
      ])
