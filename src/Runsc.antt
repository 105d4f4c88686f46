-- ===== src/Runsc.antt =====
-- The networks of boxes (internal/runsc/net.go; allocate, linkAddrs, and what Wake and stop of
-- internal/runsc/runsc.go do with a box's network and directory).
pub mod Apart
mod Numbers
use fern.Prelude.{
  ℕ, zero, suc, ◌+◌, ◌*◌, ◌/◌, ◌%◌, ◌^◌, Bool, true, false, ◌||◌, Option, none, some, List, [], ◌∷◌,
  ◌++◌, Bytes, codes, ltb, ◌==◌, if◌then◌else◌, take, equal, ◌≡◌,
}
use fern.Decimal.{ℤ, pos, negsuc, itoa, atoi}
use fern.Sets.{value_of, store}
use fern.Setup.Words.{trim_space}

abbrev pub max_boxes : ℕ
max_boxes = 2 ^ 14

abbrev pub octets : ℕ → Bytes
octets x = x / 2 ^ 24 % 256 ∷ x / 2 ^ 16 % 256 ∷ x / 2 ^ 8 % 256 ∷ x % 256 ∷ []

-- The base of 10.89.0.0/16 and the /30 number `n`, whose bits are apart.
abbrev pub subnet : ℕ → ℕ
subnet n = 10 * 2 ^ 24 + 89 * 2 ^ 16 + n * 4

-- The host's and the box's address.
unfoldable pub addrs : ℕ → Option (Bytes × Bytes)
addrs n = if ltb n max_boxes then some (octets (subnet n + 1), octets (subnet n + 2)) else none

-- The numbers in the files of the boxes' directories; one that cannot be read, or holds no number, is
-- passed over.
abbrev pub with_number : Option ℤ → List ℕ → List ℕ
with_number none ns = ns
with_number (some (pos n)) ns = n ∷ ns
with_number (some (negsuc n)) ns = ns

unfoldable pub taken : List (Option Bytes) → List ℕ
unfolding trim_space atoi
taken [] = []
taken (none ∷ fs) = taken fs
taken (some text ∷ fs) = with_number (atoi (trim_space text)) (taken fs)

unfoldable pub is_taken : ℕ → List ℕ → Bool
is_taken n [] = false
is_taken n (m ∷ ms) = n == m || is_taken n ms

abbrev pub first_free : ℕ → ℕ → List ℕ → Option ℕ
first_free zero n ms = none
first_free (suc fuel) n ms =
    let rest = first_free fuel (n + 1) ms in if is_taken n ms then rest else some n

-- The net files of the boxes' directories, by the box's ID.
abbrev pub Files : Type 0
Files = List (Bytes × Bytes)

-- os.RemoveAll of a box's directory
unfoldable pub dir_removed : Bytes → Files → Files
dir_removed id [] = []
dir_removed id ((k, text) ∷ fs) =
    let rest = dir_removed id fs in if equal id k then rest else (k, text) ∷ rest

-- What reading each file gives; `gone` are the boxes whose directory goes at that time.
unfoldable pub read_nets : (Bytes → Bool) → Files → List (Option Bytes)
read_nets gone [] = []
read_nets gone ((k, text) ∷ fs) = (if gone k then none else some text) ∷ read_nets gone fs

-- What becomes of the write of a number: it is written, or fails and leaves some text or no file.
pub data Writing : Type 0 where
  written refused : Writing
  spoilt : Bytes → Writing

-- os.WriteFile, and allocate's result after it
abbrev pub write_net : Bytes → ℕ → Writing → Files → Files × Option ℕ
write_net id n written fs = (store id (itoa n) fs, some n)
write_net id n refused fs = (fs, none)
write_net id n (spoilt text) fs = (store id text fs, none)

abbrev pub numbered : Bytes → Option ℕ → Writing → Files → Files × Option ℕ
numbered id none w fs = (fs, none)
numbered id (some n) w fs = write_net id n w fs

-- allocate, under the driver's lock: the files after it, and the number if there is no error
unfoldable pub allocate : Bytes → (Bytes → Bool) → Writing → Files → Files × Option ℕ
unfolding taken is_taken read_nets store
allocate id gone w fs = numbered id (first_free max_boxes 0 (taken (read_nets gone fs))) w fs

abbrev pub addrs_of : Option ℤ → Option (Bytes × Bytes)
addrs_of none = none
addrs_of (some (pos n)) = addrs n
addrs_of (some (negsuc n)) = none

-- linkAddrs, of the file's text
unfoldable pub link_addrs : Option Bytes → Option (Bytes × Bytes)
unfolding addrs trim_space atoi
link_addrs none = none
link_addrs (some text) = addrs_of (atoi (trim_space text))

-- The node: its files, and the number of the network that each box has.
pub record Host : Type 0 where
  pub files : Files
  pub nets : Bytes → Option ℕ

abbrev pub with_net : Bytes → Option ℕ → (Bytes → Option ℕ) → Bytes → Option ℕ
with_net id o nets k = if equal k id then o else nets k

-- A box's stop takes its network down.
abbrev pub unlinked : Bytes → Host → Host
unlinked id s = record s { nets = with_net id none s.nets }

-- A box's stop removes its directory.
abbrev pub dir_cleared : Bytes → Host → Host
dir_cleared id s = record s { files = dir_removed id s.files }

-- netUp of a box: with a number, its commands begin, and it counts as having the network.
abbrev pub netted : Bytes → (Bytes → Bool) → Writing → Host → Host
netted id gone w s =
    let r = allocate id gone w s.files in record { files = r.0; nets = with_net id r.1 s.nets }

-- One step of any box, between which those of others come. A stop removes the directory behind the
-- network; a wake gives a network behind a whole stop; and a file is missed only if its box is being
-- stopped and has lost its network.
pub data Step : Host → Host → Type 0 where
  unlinks : (id : Bytes) (s : Host) → Step s (unlinked id s)
  clears : (id : Bytes) (s : Host) → s.nets id ≡ none → Step s (dir_cleared id s)
  nets_up :
      (id : Bytes) (gone : Bytes → Bool) (w : Writing) (s : Host)
      → s.nets id ≡ none
      → value_of id s.files ≡ none
      → ((k : Bytes) → gone k ≡ true → s.nets k ≡ none)
      → Step s (netted id gone w s)

-- From a node without networks, whatever files there are
pub data NetsReached : Host → Type 0 where
  begins : (files : Files) → NetsReached (record { files = files; nets = λ k. none })
  goes : (s t : Host) → NetsReached s → Step s t → NetsReached t

-- `short` is the first eleven hex digits of the SHA-256 of the box's ID.
abbrev pub ns_name : Bytes → Bytes
ns_name short = codes "fern-" ++ short

pub data Kind : Type 0 where
  services agent builder : Kind

abbrev pub veth : Kind → Bytes → Bytes
veth agent short = codes "fag" ++ short
veth services short = codes "fbx" ++ short
veth builder short = codes "fbx" ++ short

-- netDown
abbrev pub net_down : Bytes → Bytes
net_down short =
    codes "link del "
    ++ veth services short
    ++ codes "\nlink del "
    ++ veth agent short
    ++ codes "\nnetns del "
    ++ ns_name short
    ++ codes "\n"
