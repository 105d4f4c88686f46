-- ===== src/Backup/Once/Workspace.antt =====
-- One environment's backup (env of internal/backup/backup.go), wherever its calls end.
use fern.Prelude.{
  ℕ, suc, ◌≡◌, refl, ap, ◌⊎◌, inl, inr, Bool, Bool-cases, true, false, not, ◌&&◌, Option, none,
  some, List, [], ◌∷◌, Bytes, if◌then◌else◌, ◌==◌, arith, is_empty,
}
use fern.Backup.Bucket.{taken_at, EnvBackup, State, Fate, done, failed, try, ◌>>=◌}
use fern.Backup.Send.{
  generation_of, names_of, leftovers, parent_of, take_snap, send, created_at, drop_parent,
  delete_snap, in_pool, finish, after_send, send_from, send_changes, env_backup,
}
use fern.Backup.Once.Sound.{IsBackup}
use fern.Backup.Once.Ends.{
  Archived, AreBackups, Holds, Holds-weaken, After, result, error, After-bind, After-caught,
}
use fern.Backup.Once.Node.{
  generation_of-After, names_of-After, delete_snap-After, leftovers-After, take_snap-After,
  tick-Holds,
}
use fern.Backup.Once.Sending.{
  Fresh, IsSent, IsLast, parent_of-IsLast, Before, chain_to, backed_up, Done, send-After,
  created_at-After,
}

module _ (backed : Bool) (ks : List (Bytes × EnvBackup)) (a : Option ℕ) (id : Bytes)
    (path : Option Bytes) (eb : EnvBackup)
    (known : (v : State) → AreBackups v ks → (eb.chain ≡ []) ⊎ IsBackup v id eb) where
  drop_parent-After :
      (parent : Option ℕ) (eb' : EnvBackup) (s : State) (fs : List Fate)
      → (Done backed ks a id eb known) eb' s
      → After
          (λ _ v. (Done backed ks a id eb known) eb' v)
          (Before backed ks a id eb known)
          (drop_parent id parent s fs)
  unfolding delete_snap
  drop_parent-After none eb' s fs h = result none s fs h
  drop_parent-After (some p) eb' s fs h =
      After-caught (delete_snap id (taken_at p) s fs)
        (delete_snap-After ((id, eb') ∷ ks) (Archived backed a) ((Done backed ks a id eb known) eb')
          (λ _ i. i) id (taken_at p) s fs h)
        (λ _ v i. i) (λ v i. i) (λ v i. (i.0, i.1.1, i.2, i.3))

  finish-After :
      (parent : Option ℕ) (n : ℕ) (s : State) (fs : List Fate)
      → Holds ks (IsSent backed a id n (chain_to backed ks a id eb known parent n)) s
      → After
          (Done backed ks a id eb known)
          (Before backed ks a id eb known)
          (finish id path eb parent n s fs)
  finish-After parent n s fs h =
      After-bind (created_at id n s fs)
        (λ c. drop_parent id parent >>= λ _. in_pool id eb parent n c path)
        (created_at-After backed ks a id eb known parent n s fs h)
        λ c v gs i.
          After-bind (drop_parent id parent v gs) (λ _. in_pool id eb parent n c path)
            (drop_parent-After parent (backed_up backed ks a id eb known [] parent n c) v gs i)
            λ _ w hs j. within path c w hs j
    where
      within :
          (p : Option Bytes) (c : ℕ) (w : State) (hs : List Fate)
          → (Done backed ks a id eb known) (backed_up backed ks a id eb known [] parent n c) w
          → After
              (Done backed ks a id eb known)
              (Before backed ks a id eb known)
              (in_pool id eb parent n c p w hs)
      within none c w hs j = error w hs (j.0, j.1.1, j.2, j.3)
      within (some p) c w hs j = result (backed_up backed ks a id eb known p parent n c) w hs j

  after_send-After :
      (parent : Option ℕ) (n : ℕ) (o : Option (Unit {0})) (s : State) (fs : List Fate)
      → (o ≡ none → (Before backed ks a id eb known) s)
      → ((u : Unit {0})
          → o ≡ some u
          → Holds ks (IsSent backed a id n (chain_to backed ks a id eb known parent n)) s)
      → After
          (Done backed ks a id eb known)
          (Before backed ks a id eb known)
          (after_send id path eb parent n o s fs)
  unfolding delete_snap
  after_send-After parent n none s fs h k =
      After-bind {E = (Before backed ks a id eb known)} (try (delete_snap id (taken_at n)) s fs)
        (λ _ v gs. failed v gs)
        (After-caught {Q = λ _ v. (Before backed ks a id eb known) v}
          {R = λ _ v. (Before backed ks a id eb known) v} (delete_snap id (taken_at n) s fs)
          (delete_snap-After ks (Archived backed a) (Before backed ks a id eb known) (λ _ i. i) id
            (taken_at n) s fs (h refl))
          (λ _ v i. i) (λ v i. i) (λ v i. i))
        λ _ v gs i. error v gs i
  after_send-After parent n (some tt) s fs h k = finish-After parent n s fs (k tt refl)

  send_from-After :
      (parent : Option ℕ) (s : State) (fs : List Fate)
      → IsLast parent eb.chain
      → (Before backed ks a id eb known) s
      → After
          (Done backed ks a id eb known)
          (Before backed ks a id eb known)
          (send_from id path eb parent s fs)
  send_from-After parent s fs l h =
      After-bind (take_snap id s.now (record s { now = suc s.now }) fs)
        (λ _. try (send id s.now parent) >>= after_send id path eb parent s.now)
        (take_snap-After ks (Fresh backed a id s.now) (Before backed ks a id eb known)
          (λ v i. forget v i) id s.now (record s { now = suc s.now }) fs (λ b now f. (f.1, f.2))
          ticked)
        λ _ v gs i.
          After-bind {Q = Tried} (try (send id s.now parent) v gs)
            (after_send id path eb parent s.now)
            (After-caught (send id s.now parent v gs)
              (send-After backed ks a id eb known parent s.now v gs l i)
              (λ _ w j. (λ e. absurd (ground (arith, e)), λ _ _. j))
              (λ w j. (λ _. j, λ _ e. absurd (ground (arith, e)))) (λ w j. j))
            λ o w hs j. after_send-After parent s.now o w hs j.0 j.1
    where
      Tried : Option (Unit {0}) → State → Type 0
      Tried o v =
          (o ≡ none → (Before backed ks a id eb known) v)
          × ((u : Unit {0})
              → o ≡ some u
              → Holds ks (IsSent backed a id s.now (chain_to backed ks a id eb known parent s.now))
                  v)

      forget :
          (v : State) → Holds ks (Fresh backed a id s.now) v → (Before backed ks a id eb known) v
      forget v = Holds-weaken v ks (Fresh backed a id s.now) (Archived backed a) λ b. b.0

      ticked : Holds ks (Fresh backed a id s.now) (record s { now = suc s.now })
      ticked =
          tick-Holds s ks (Archived backed a) (Fresh backed a id s.now) id (λ f b. (b, f.0, f.1)) h

  send_changes-After :
      (s : State) (fs : List Fate)
      → (Before backed ks a id eb known) s
      → After
          (Done backed ks a id eb known)
          (Before backed ks a id eb known)
          (send_changes id path eb s fs)
  send_changes-After s fs h =
      After-bind (names_of id s fs)
        (λ ns. leftovers id (parent_of eb.chain) ns >>= λ there.
          send_from id path eb (if there then parent_of eb.chain else none))
        (names_of-After ks (Archived backed a) (Before backed ks a id eb known) (λ _ i. i) id s fs
          h)
        λ ns v gs i.
          After-bind (leftovers id (parent_of eb.chain) ns v gs)
            (λ there. send_from id path eb (if there then parent_of eb.chain else none))
            (leftovers-After ks (Archived backed a) (Before backed ks a id eb known) (λ _ i. i) id
              (parent_of eb.chain) ns v gs i)
            λ there w hs j.
              send_from-After (if there then parent_of eb.chain else none) w hs (last there) j
    where
      last : (b : Bool) → IsLast (if b then parent_of eb.chain else none) eb.chain
      last true = parent_of-IsLast eb.chain
      last false = λ p f. absurd (ground (arith, f))

  -- It is backed up, and whatever was backed up before it still is.
  pub env_backup-After :
      (s : State) (fs : List Fate)
      → (Before backed ks a id eb known) s
      → After
          (Done backed ks a id eb known)
          (Before backed ks a id eb known)
          (env_backup id path eb s fs)
  unfolding env_backup
  env_backup-After s fs h =
      After-bind (generation_of id s fs)
        (λ gen.
          if not (is_empty eb.chain) && gen == eb.generation
          then (λ v gs. done eb v gs)
          else send_changes id path eb)
        (generation_of-After ks (Archived backed a) (Before backed ks a id eb known) (λ _ i. i) id s
          fs h)
        λ gen v gs i. elim (Bool-cases (not (is_empty eb.chain) && gen == eb.generation)) [
          | inl y ↦ rw y (result eb v gs (same gen v i y))
          | inr y ↦ rw y (send_changes-After v gs i)
        ]
    where
      same :
          (gen : ℕ) (v : State)
          → (Before backed ks a id eb known) v
          → not (is_empty eb.chain) && gen == eb.generation ≡ true
          → (Done backed ks a id eb known) eb v
      same gen v i y = elim (known v i.1) [
        | inl e ↦ absurd (ground (arith, ap (λ c. not (is_empty c)) e, y))
        | inr k ↦ (i.0, (k, i.1), i.2, i.3)
      ]
