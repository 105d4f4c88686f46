-- ===== src/Backup/Once/Sending.antt =====
-- The send of a snapshot to the bucket, and what is known of it there.
use fern.Prelude.{
  ℕ, ◌<◌, ◌≡◌, refl, sym, subst, ◌⊎◌, inl, inr, Bool, Option, none, some, List, [], ◌∷◌, Bytes,
  arith,
}
use fern.Sets.{value_of}
use fern.Backup.Bucket.{
  taken_at, Taken, Env, SendStream, Send, EnvBackup, Bucket, State, Fate, stream_at, snap_at,
  without_stream,
}
use fern.Backup.Send.{
  last_snapshot, parent_of, put_stream, stream_from, stream_of, send_env, send, creation, found_in,
  created_at, full_or_more,
}
use fern.Backup.Once.Sound.{IsBackup, Plays}
use fern.Backup.Once.Ends.{Archived, AreBackups, Holds, Holds-weaken, After, ask-After}
use fern.Backup.Once.Streams.{
  Plays-append, Plays-last, Plays-stream, put-Holds, put-Plays, stream_at-put_self,
}

-- The archive stays, and the stream's key is a new one.
abbrev pub Fresh : Bool → Option ℕ → Bytes → ℕ → Bucket → ℕ → Type 0
Fresh backed a id n b now = Archived backed a b now × (n < now) × (stream_at id n b.streams ≡ none)

-- The archive stays, and the chain with the new stream plays.
abbrev pub IsSent : Bool → Option ℕ → Bytes → ℕ → List Send → Bucket → ℕ → Type 0
IsSent backed a id n chain b now =
    Archived backed a b now
    × ((x : SendStream) × (stream_at id n b.streams ≡ some x)
        × Plays b.streams id none chain (n, x.tree))

abbrev pub IsLast : Option ℕ → List Send → Type 0
IsLast parent chain = (p : ℕ) → parent ≡ some p → last_snapshot chain ≡ some p

pub parent_of-IsLast : (chain : List Send) → IsLast (parent_of chain) chain
unfolding parent_of
parent_of-IsLast chain p h = ground (arith, h)

Plays-parent :
    (ss : List (Bytes × ℕ × SendStream)) (id : Bytes) (chain : List Send) (n t p : ℕ)
    → last_snapshot chain ≡ some p
    → Plays ss id none chain (n, t)
    → (n ≡ p) × ((z : SendStream) × (stream_at id n ss ≡ some z) × (z.tree ≡ t))
unfolding last_snapshot
Plays-parent ss id [] n t p l h = absurd (ground (arith, l))
Plays-parent ss id (s ∷ chain) n t p l h =
    (ground (arith, l, Plays-last ss id chain s none n t h), Plays-stream ss id chain s none n t h)

module _ (backed : Bool) (ks : List (Bytes × EnvBackup)) (a : Option ℕ) (id : Bytes)
    (eb : EnvBackup)
    (known : (v : State) → AreBackups v ks → (eb.chain ≡ []) ⊎ IsBackup v id eb) where
  abbrev pub Before : State → Type 0
  Before v = Holds ks (Archived backed a) v

  abbrev pub chain_to : Option ℕ → ℕ → List Send
  chain_to parent n = full_or_more parent eb.chain (record { snapshot = n; id = id })

  abbrev pub backed_up : Bytes → Option ℕ → ℕ → ℕ → EnvBackup
  backed_up p parent n created = record {
    workspace = p;
    generation = created;
    chain = chain_to parent n;
  }

  abbrev pub Done : EnvBackup → State → Type 0
  Done eb' v = Holds ((id, eb') ∷ ks) (Archived backed a) v

  put_full :
      (n : ℕ) (v : State) (e : Env) (x : Taken)
      → Holds ks (Fresh backed a id n) v
      → value_of id v.envs ≡ some e
      → snap_at (taken_at n) e.snaps ≡ some x
      → Holds ks
          (IsSent backed a id n (chain_to none n))
          (put_stream id n (record { parent = none; tree = x.tree }) v).1
  put_full n v e x h i j =
      let y : SendStream = record { parent = none; tree = x.tree } in
      let at = stream_at-put_self id n y v.bucket.streams in
      put-Holds v ks (Fresh backed a id n) (IsSent backed a id n (chain_to none n)) id n y h
        (h.3.1, h.3.2) (λ e' x' i' j'. ground (arith, i, i', j, j'))
        (h.3.0, (y, at, (y, refl, at, refl, refl)))

  put_more :
      (n p : ℕ) (v : State) (e : Env) (x y : Taken)
      → last_snapshot eb.chain ≡ some p
      → Holds ks (Fresh backed a id n) v
      → value_of id v.envs ≡ some e
      → snap_at (taken_at n) e.snaps ≡ some x
      → snap_at (taken_at p) e.snaps ≡ some y
      → Holds ks
          (IsSent backed a id n (chain_to (some p) n))
          (put_stream id n (record { parent = some (p, y.tree); tree = x.tree }) v).1
  unfolding last_snapshot
  put_more n p v e x y l h i j k = elim (known v h.1) [
    | inl none_yet ↦
        let f : last_snapshot [] ≡ some p = subst (λ c. last_snapshot c ≡ some p) none_yet l in
        absurd (ground (arith, f))
    | inr (m, t, plays, _) ↦
        let (mp, (z, z_at, zt)) = Plays-parent v.bucket.streams id eb.chain m t p l plays in
        let z_there : stream_at id p v.bucket.streams ≡ some z =
          subst (λ m. stream_at id m v.bucket.streams ≡ some z) mp z_at in
        let same : z.tree ≡ y.tree = (h.0.snaps id e p y i k).3 z z_there in
        let w : SendStream = record { parent = some (p, y.tree); tree = x.tree } in
        let ts = (id, n, w) ∷ without_stream id n v.bucket.streams in
        let at = stream_at-put_self id n w v.bucket.streams in
        let from : w.parent ≡ some (m, t) = rw (mp, sym zt, same) refl in
        put-Holds v ks (Fresh backed a id n) (IsSent backed a id n (chain_to (some p) n)) id n w h
          (h.3.1, h.3.2) (λ e' x' i' j'. ground (arith, i, i', j, j'))
          (
            h.3.0,
            (
              w,
              at,
              Plays-append ts id eb.chain (record { snapshot = n; id = id }) none (m, t) (n, x.tree)
                  (put-Plays v.bucket.streams id eb.chain none (m, t) n w h.3.2 plays)
                  (w, refl, at, from, refl),
            ),
          )
  ]

  send_env_lem :
      (parent : Option ℕ) (n : ℕ) (v : State)
      → IsLast parent eb.chain
      → Holds ks (Fresh backed a id n) v
      → Before (send_env id n parent v (value_of id v.envs)).1
        × ((u : Unit)
            → (send_env id n parent v (value_of id v.envs)).0 ≡ some u
            → Holds ks
                (IsSent backed a id n (chain_to parent n))
                (send_env id n parent v (value_of id v.envs)).1)
  send_env_lem parent n v l h = there (value_of id v.envs) refl
    where
      before : Before v
      before = Holds-weaken v ks (Fresh backed a id n) (Archived backed a) (λ b. b.0) h

      forget : (w : State) (chain : List Send) → Holds ks (IsSent backed a id n chain) w → Before w
      forget w chain = Holds-weaken w ks (IsSent backed a id n chain) (Archived backed a) λ b. b.0

      from_parent :
          (p : ℕ) (e : Env) (x : Taken)
          → last_snapshot eb.chain ≡ some p
          → value_of id v.envs ≡ some e
          → snap_at (taken_at n) e.snaps ≡ some x
          → (o : Option Taken) → snap_at (taken_at p) e.snaps ≡ o
          → Before (stream_from id n p v x o).1
            × ((u : Unit {0})
                → (stream_from id n p v x o).0 ≡ some u
                → Holds ks
                    (IsSent backed a id n (chain_to (some p) n))
                    (stream_from id n p v x o).1)
      from_parent p e x m i j none k = (before, λ u f. absurd (ground (arith, f)))
      from_parent p e x m i j (some y) k =
          let g = put_more n p v e x y m h i j k in
          (
            forget (put_stream id n (record { parent = some (p, y.tree); tree = x.tree }) v).1
                (chain_to (some p) n) g,
            λ u f. g,
          )

      snapshot :
          (q : Option ℕ)
          → IsLast q eb.chain
          → (e : Env) → value_of id v.envs ≡ some e
          → (o : Option Taken) → snap_at (taken_at n) e.snaps ≡ o
          → Before (stream_of id n q v e o).1
            × ((u : Unit {0})
                → (stream_of id n q v e o).0 ≡ some u
                → Holds ks (IsSent backed a id n (chain_to q n)) (stream_of id n q v e o).1)
      snapshot q m e i none j = (before, λ u f. absurd (ground (arith, f)))
      snapshot none m e i (some x) j =
          let g = put_full n v e x h i j in
          (
            forget (put_stream id n (record { parent = none; tree = x.tree }) v).1 (chain_to none n)
                g,
            λ u f. g,
          )
      snapshot (some p) m e i (some x) j =
          from_parent p e x (m p refl) i j (snap_at (taken_at p) e.snaps) refl

      there :
          (o : Option Env)
          → value_of id v.envs ≡ o
          → Before (send_env id n parent v o).1
            × ((u : Unit {0})
                → (send_env id n parent v o).0 ≡ some u
                → Holds ks (IsSent backed a id n (chain_to parent n)) (send_env id n parent v o).1)
      there none i = (before, λ u f. absurd (ground (arith, f)))
      there (some e) i = snapshot parent l e i (snap_at (taken_at n) e.snaps) refl

  pub send-After :
      (parent : Option ℕ) (n : ℕ) (s : State) (fs : List Fate)
      → IsLast parent eb.chain
      → Holds ks (Fresh backed a id n) s
      → After
          (λ _ v. Holds ks (IsSent backed a id n (chain_to parent n)) v)
          Before
          (send id n parent s fs)
  unfolding send
  send-After parent n s fs l h =
      ask-After (λ v. send_env id n parent v (value_of id v.envs)) ks (Fresh backed a id n) s fs h
        λ v i.
          let (b, c) = send_env_lem parent n v l i in
          (Holds-weaken v ks (Fresh backed a id n) (Archived backed a) (λ b. b.0) i, b, c)

  pub created_at-After :
      (parent : Option ℕ) (n : ℕ) (s : State) (fs : List Fate)
      → Holds ks (IsSent backed a id n (chain_to parent n)) s
      → After (λ c v. Done (backed_up [] parent n c) v) Before (created_at id n s fs)
  unfolding created_at
  created_at-After parent n s fs h =
      ask-After (λ v. (creation (found_in (taken_at n) (value_of id v.envs)), v)) ks
        (IsSent backed a id n (chain_to parent n)) s fs h
        λ v i. (before v i, before v i, λ c f. taken c v i (value_of id v.envs) refl f)
    where
      before : (v : State) → Holds ks (IsSent backed a id n (chain_to parent n)) v → Before v
      before v =
          Holds-weaken v ks (IsSent backed a id n (chain_to parent n)) (Archived backed a) λ b. b.0

      snapshot :
          (c : ℕ) (v : State) (e : Env)
          → Holds ks (IsSent backed a id n (chain_to parent n)) v
          → value_of id v.envs ≡ some e
          → (o : Option Taken) → snap_at (taken_at n) e.snaps ≡ o
          → creation o ≡ some c
          → Done (backed_up [] parent n c) v
      snapshot c v e i j none k f = absurd (ground (arith, f))
      snapshot c v e (h, l, m, (b, (x, at, plays))) j (some y) k f =
          let cy : y.created ≡ c = ground (arith, f) in
          let (_, r, u, w) = h.snaps id e n y j k in
          let same : x.tree ≡ y.tree = w x at in
          (
            h,
            (
              (n, x.tree, plays, (omega arith, λ e' j' g. ground (arith, j, j', g, cy, u, same))),
              l,
            ),
            m,
            b,
          )

      taken :
          (c : ℕ) (v : State)
          → Holds ks (IsSent backed a id n (chain_to parent n)) v
          → (o : Option Env) → value_of id v.envs ≡ o
          → creation (found_in (taken_at n) o) ≡ some c
          → Done (backed_up [] parent n c) v
      taken c v i none j f = absurd (ground (arith, f))
      taken c v i (some e) j f = snapshot c v e i j (snap_at (taken_at n) e.snaps) refl f
