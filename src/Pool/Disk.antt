-- ===== src/Pool/Disk.antt =====
-- The disk of one environment, its rows in the index, and the calls that internal/store makes of
-- both (deleteSubvolume and snapshotSubvolume of ioctl.go; the queries of index/queries.sql).
use fern.Prelude.{ℕ, Bool, Option, none, some, List, [], ◌∷◌, Bytes, if◌then◌else◌, equal}

-- What stands at a path: `nested` says that a box made subvolumes inside it, `tree` names the
-- files.
pub record Node : Type 0 where
  pub subvolume : Bool
  pub nested : Bool
  pub tree : ℕ

-- An environment's paths: its workspace, live.new, adopt.new, and a snapshot under snaps/.
pub data Place : Type 0 where
  workspace live_new adopt_new : Place
  snap : Bytes → Place

pub record Entry : Type 0 where
  pub name : Bytes
  pub node : Node

pub record Disk : Type 0 where
  pub live : Option Node
  pub restored : Option Node
  pub adopted : Option Node
  pub snaps : List Entry

-- A row of the index's table `snapshots`, in the order of their rowids.
pub record Row : Type 0 where
  pub id : Bytes
  pub created_at : ℕ

pub data Fault : Type 0 where
  no_entry exists invalid bad_id unknown pool_full : Fault
  io : ℕ → Fault

-- How the next call ends: it goes as it should, or it fails, or the daemon dies at it. A program
-- that removes several subvolumes has then removed some of them.
pub data Fate : Type 0 where
  goes : Fate
  fails : (Place → Bool) → ℕ → Fate
  dies : (Place → Bool) → Fate

-- `known` says that the index has the environment's row.
pub record World : Type 0 where
  pub disk : Disk
  pub known : Bool
  pub rows : List Row
  pub fates : List Fate

-- How a sequence of calls ends, and the world that it leaves.
pub data Outcome {ℓ} (A : Type ℓ) : Type ℓ where
  done : A → World → Outcome A
  failed : Fault → World → Outcome A
  died : World → Outcome A

abbrev pub Io {ℓ} : Type ℓ → Type ℓ
Io A = World → Outcome A

module _ {ℓ} {A : Type ℓ} where
  abbrev pub give : A → Io A
  give a w = done a w

  abbrev pub fail : Fault → Io A
  fail e w = failed e w

module _ {ℓ κ} {A : Type ℓ} {B : Type κ} where
  abbrev pub go_on : Outcome A → (A → Io B) → Outcome B
  go_on (done a w) f = f a w
  go_on (failed e w) f = failed e w
  go_on (died w) f = died w

  infixl 5 ◌>>=◌
  abbrev pub ◌>>=◌ : Io A → (A → Io B) → Io B
  (m >>= f) w = go_on (m w) f

infixl 5 ◌>>◌
abbrev pub ◌>>◌ {κ} : {B : Type κ} → Io (Unit {0}) → Io B → Io B
m >> k = m >>= λ _. k

-- Reading is a call too: it changes nothing and may fail.
abbrev pub read_on {ℓ} : {A : Type ℓ} → (World → A) → World → List Fate → Outcome A
read_on f w [] = done (f w) w
read_on f w (goes ∷ fs) = done (f w) (record w { fates = fs })
read_on f w (fails gone e ∷ fs) = failed (io e) (record w { fates = fs })
read_on f w (dies gone ∷ fs) = died (record w { fates = fs })

unfoldable pub look {ℓ} : {A : Type ℓ} → (World → A) → Io A
look f w = read_on f w w.fates

unfoldable pub save_disk : Disk → Io (Unit {0})
save_disk d w = done tt (record w { disk = d })

unfoldable pub save_rows : List Row → Io (Unit {0})
save_rows rs w = done tt (record w { rows = rs })

-- The snapshot `id`, if it is there.
unfoldable pub entry : Bytes → List Entry → Option Node
entry id [] = none
entry id (e ∷ es) = if equal id e.name then some e.node else entry id es

unfoldable pub without_entry : Bytes → List Entry → List Entry
without_entry id [] = []
without_entry id (e ∷ es) = if equal id e.name then without_entry id es else e ∷ without_entry id es

unfoldable pub node_at : Place → Disk → Option Node
node_at workspace d = d.live
node_at live_new d = d.restored
node_at adopt_new d = d.adopted
node_at (snap id) d = entry id d.snaps

-- The disk without what stands at a path, and with a new node at one that is free.
unfoldable pub cleared : Place → Disk → Disk
cleared workspace d = record d { live = none }
cleared live_new d = record d { restored = none }
cleared adopt_new d = record d { adopted = none }
cleared (snap id) d = record d { snaps = without_entry id d.snaps }

unfoldable pub placed : Place → Node → Disk → Disk
placed workspace n d = record d { live = some n }
placed live_new n d = record d { restored = some n }
placed adopt_new n d = record d { adopted = some n }
placed (snap id) n d = record d { snaps = record { name = id; node = n } ∷ d.snaps }
