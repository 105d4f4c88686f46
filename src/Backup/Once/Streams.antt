-- ===== src/Backup/Once/Streams.antt =====
-- The streams in the bucket, as a backup puts and deletes them.
use fern.Prelude.{
  ℕ, ◌≡◌, sym, ap, subst, inl, inr, Bool, Bool-cases, true, false, ◌&&◌, Option, none, some, List,
  [], ◌∷◌, ◌++◌, Bytes, if◌then◌else◌, ◌==◌, arith, equal, equal_iff, equal_refl,
}
use fern.Sets.{value_of}
use fern.Backup.Bucket.{
  Taken, Env, SendStream, Send, EnvBackup, Manifest, Bucket, State, stream_at, without_stream,
  snap_at, taken_at,
}
use fern.Backup.Send.{last_snapshot, put_stream}
use fern.Backup.Once.{names_send, names_stream}
use fern.Backup.Once.Sound.{IsSound, IsBackup, Plays}
use fern.Backup.Once.Changes.{IsFresh}
use fern.Backup.Once.Ends.{AreBackups, IsManifest, Holds}

abbrev pub is_stream : Bytes → ℕ → Bytes → ℕ → Bool
is_stream j m id n = equal j id && m == n

stream_at-without_stream :
    (j : Bytes) (m : ℕ) (id : Bytes) (n : ℕ) (ss : List (Bytes × ℕ × SendStream))
    → stream_at j m (without_stream id n ss)
      ≡ (if is_stream j m id n then none else stream_at j m ss)
unfolding stream_at without_stream
stream_at-without_stream j m id n [] = ground arith
stream_at-without_stream j m id n ((i, k, x) ∷ ss) = ground (
  arith,
  equal_iff id i,
  equal_iff j i,
  equal_iff j id,
  equal_iff id j,
  stream_at-without_stream j m id n ss,
)

stream_at-put :
    (j : Bytes) (m : ℕ) (id : Bytes) (n : ℕ) (x : SendStream) (ss : List (Bytes × ℕ × SendStream))
    → stream_at j m ((id, n, x) ∷ without_stream id n ss)
      ≡ (if is_stream j m id n then some x else stream_at j m ss)
unfolding stream_at
stream_at-put j m id n x ss = ground (arith, stream_at-without_stream j m id n ss)

-- A chain plays in any streams that have those it names.
pub Plays-map :
    (ss ts : List (Bytes × ℕ × SendStream)) (id : Bytes)
    → (chain : List Send)
    → ((n : ℕ) (x : SendStream)
        → names_send id n chain ≡ true
        → stream_at id n ss ≡ some x
        → stream_at id n ts ≡ some x)
    → (cur : Option (ℕ × ℕ)) (r : ℕ × ℕ) → Plays ss id cur chain r
    → Plays ts id cur chain r
unfolding names_send
Plays-map ss ts id [] f cur r h = h
Plays-map ss ts id (s ∷ chain) f cur r (x, a, b, c, d) = (
  x,
  a,
  (f s.snapshot x (ground (arith, equal_iff id s.id, a)) b),
  c,
  Plays-map ss ts id chain (λ n y e. f n y (ground (arith, e))) (some (s.snapshot, x.tree)) r d,
)

pub Plays-append :
    (ss : List (Bytes × ℕ × SendStream)) (id : Bytes) (chain : List Send) (s : Send)
    (cur : Option (ℕ × ℕ)) (q r : ℕ × ℕ)
    → Plays ss id cur chain q
    → Plays ss id (some q) (s ∷ []) r
    → Plays ss id cur (chain ++ s ∷ []) r
Plays-append ss id [] s cur q r h k = subst (λ c. Plays ss id c (s ∷ []) r) (sym h) k
Plays-append ss id (t ∷ chain) s cur q r (x, a, b, c, d) k =
    (x, a, b, c, Plays-append ss id chain s (some (t.snapshot, x.tree)) q r d k)

pub Plays-last :
    (ss : List (Bytes × ℕ × SendStream)) (id : Bytes) (chain : List Send) (s : Send)
    (cur : Option (ℕ × ℕ)) (n t : ℕ)
    → Plays ss id cur (s ∷ chain) (n, t)
    → last_snapshot (s ∷ chain) ≡ some n
unfolding last_snapshot
Plays-last ss id [] s cur n t (x, a, b, c, d) = ap some (ground (arith, d))
Plays-last ss id (u ∷ chain) s cur n t (x, a, b, c, d) =
    Plays-last ss id chain u (some (s.snapshot, x.tree)) n t d

-- The last stream of a chain makes its files.
pub Plays-stream :
    (ss : List (Bytes × ℕ × SendStream)) (id : Bytes) (chain : List Send) (s : Send)
    (cur : Option (ℕ × ℕ)) (n t : ℕ)
    → Plays ss id cur (s ∷ chain) (n, t)
    → (x : SendStream) × (stream_at id n ss ≡ some x) × (x.tree ≡ t)
Plays-stream ss id [] s cur n t (x, a, b, c, d) =
    let e : s.snapshot ≡ n = ground (arith, d) in
    (x, subst (λ k. stream_at id k ss ≡ some x) e b, ground (arith, d))
Plays-stream ss id (u ∷ chain) s cur n t (x, a, b, c, d) =
    Plays-stream ss id chain u (some (s.snapshot, x.tree)) n t d

abbrev pub with_streams : State → List (Bytes × ℕ × SendStream) → State
with_streams s ts = record s { bucket = record s.bucket { streams = ts } }

-- Streams that `f` says of stay as they are.
abbrev Keeping : State → List (Bytes × ℕ × SendStream) → (Bytes → ℕ → Bool) → Type 0
Keeping s ts f =
    (j : Bytes) (m : ℕ) (x : SendStream)
    → f j m ≡ true
    → stream_at j m s.bucket.streams ≡ some x
    → stream_at j m ts ≡ some x

streams-IsBackup :
    (s : State) (ts : List (Bytes × ℕ × SendStream)) (j : Bytes) (eb : EnvBackup)
    → ((m : ℕ) (x : SendStream)
        → names_send j m eb.chain ≡ true
        → stream_at j m s.bucket.streams ≡ some x
        → stream_at j m ts ≡ some x)
    → IsBackup s j eb
    → IsBackup (with_streams s ts) j eb
streams-IsBackup s ts j eb f (n, t, p, c) =
    (n, t, Plays-map s.bucket.streams ts j eb.chain f none (n, t) p, c)

streams-AreBackups :
    (s : State) (ts : List (Bytes × ℕ × SendStream)) (es : List (Bytes × EnvBackup))
    → Keeping s ts (λ j m. names_stream j m es)
    → AreBackups s es
    → AreBackups (with_streams s ts) es
unfolding names_stream
streams-AreBackups s ts [] f h = tt
streams-AreBackups s ts ((i, eb) ∷ es) f (h, k) = (
  streams-IsBackup s ts i eb (λ m x a. f i m x (ground (arith, a))) h,
  streams-AreBackups s ts es (λ j m x a. f j m x (ground (arith, a))) k,
)

-- A new stream, of what the snapshot has that it is of.
pub put-Holds :
    (s : State) (es : List (Bytes × EnvBackup)) (B C : Bucket → ℕ → Type 0) (id : Bytes) (n : ℕ)
    (x : SendStream)
    → Holds es B s
    → IsFresh s id n
    → ((e : Env) (y : Taken)
        → value_of id s.envs ≡ some e
        → snap_at (taken_at n) e.snaps ≡ some y
        → x.tree ≡ y.tree)
    → C (put_stream id n x s).1.bucket s.now
    → Holds es C (put_stream id n x s).1
put-Holds s es B C id n x (h, l, m, b) (past, fresh) same c =
    (sound, streams-AreBackups s ts es (λ j k y _. stay j k y) l, manifest s.bucket.manifest m, c)
  where
    ts : List (Bytes × ℕ × SendStream)
    ts = (id, n, x) ∷ without_stream id n s.bucket.streams

    stay :
        (j : Bytes) (k : ℕ) (y : SendStream)
        → stream_at j k s.bucket.streams ≡ some y
        → stream_at j k ts ≡ some y
    stay j k y i =
        ground (arith, stream_at-put j k id n x s.bucket.streams, i, fresh, equal_iff j id)

    manifest : (o : Option Manifest) → IsManifest s o → IsManifest (with_streams s ts) o
    manifest none i = tt
    manifest (some o) i = (streams-AreBackups s ts o.envs (λ j k y _. stay j k y) i.0, i.1)

    sound : IsSound (with_streams s ts)
    sound = record {
      old = λ j k y i.
          ground (arith, stream_at-put j k id n x s.bucket.streams, i, past, h.old j k y);
      past = h.past;
      snaps = λ j e k y i a.
          let (p, q, r, u) = h.snaps j e k y i a in
          (
            p,
            q,
            r,
            λ z o. ground (
              arith,
              stream_at-put j k id n x s.bucket.streams,
              o,
              u z,
              equal_iff j id,
              same e y,
              i,
              a,
            ),
          );
    }

-- A chain plays with a new stream too, that makes what is asked.
pub put-Plays :
    (ss : List (Bytes × ℕ × SendStream)) (j : Bytes) (chain : List Send) (cur : Option (ℕ × ℕ))
    (r : ℕ × ℕ) (n : ℕ) (x : SendStream)
    → stream_at j n ss ≡ none
    → Plays ss j cur chain r
    → Plays ((j, n, x) ∷ without_stream j n ss) j cur chain r
put-Plays ss j chain cur r n x fresh =
    Plays-map ss ((j, n, x) ∷ without_stream j n ss) j chain
      (λ k y _ i. ground (arith, stream_at-put j k j n x ss, i, fresh)) cur r

pub stream_at-put_self :
    (id : Bytes) (n : ℕ) (x : SendStream) (ss : List (Bytes × ℕ × SendStream))
    → stream_at id n ((id, n, x) ∷ without_stream id n ss) ≡ some x
stream_at-put_self id n x ss = ground (arith, stream_at-put id n id n x ss, equal_refl id)

-- A stream that the manifest does not name is deleted.
pub without_stream-Holds :
    (s : State) (m : Manifest) (C : Bucket → ℕ → Type 0) (id : Bytes) (n : ℕ)
    → Holds [] C s
    → s.bucket.manifest ≡ some m
    → names_stream id n m.envs ≡ false
    → C (with_streams s (without_stream id n s.bucket.streams)).bucket s.now
    → Holds [] C (with_streams s (without_stream id n s.bucket.streams))
without_stream-Holds s m C id n (h, l, o, _) is not_named c =
    (sound, tt, subst (IsManifest (with_streams s ts)) (sym is) manifest, c)
  where
    ts : List (Bytes × ℕ × SendStream)
    ts = without_stream id n s.bucket.streams

    less :
        (j : Bytes) (k : ℕ) (y : SendStream)
        → stream_at j k ts ≡ some y
        → stream_at j k s.bucket.streams ≡ some y
    less j k y i = ground (arith, stream_at-without_stream j k id n s.bucket.streams, i)

    named : Keeping s ts (λ j k. names_stream j k m.envs)
    named j k y a i = elim (Bool-cases (is_stream j k id n)) [
      | inl e ↦
          let f : j ≡ id = (equal_iff j id).0 (ground (arith, e)) in
          let g : k ≡ n = ground (arith, e) in
          absurd (
            ground (
              arith,
              subst (λ j. names_stream j n m.envs ≡ true) f
                  (subst (λ k. names_stream j k m.envs ≡ true) g a),
              not_named,
            ))
      | inr e ↦ rw (stream_at-without_stream j k id n s.bucket.streams, e) i
    ]

    manifest : IsManifest (with_streams s ts) (some m)
    manifest =
        let (a, b) : IsManifest s (some m) = subst (IsManifest s) is o in
        (streams-AreBackups s ts m.envs named a, b)

    sound : IsSound (with_streams s ts)
    sound = record {
      old = λ j k y i. h.old j k y (less j k y i);
      past = h.past;
      snaps = λ j e k y i a.
          let (p, q, r, u) = h.snaps j e k y i a in (p, q, r, λ z o. u z (less j k z o));
    }
