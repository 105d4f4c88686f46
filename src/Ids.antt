-- ===== src/Ids.antt =====
-- The names of environments, boxes, forks and snapshots (internal/store/store.go), and those of
-- golden builders (internal/setup/setup.go).
pub mod Boxes
pub mod Forks
use fern.Prelude.{
  ℕ, zero, suc, ◌+◌, ◌-◌, Bool, true, false, ◌&&◌, ◌||◌, not, Option, none, some, List, [], ◌∷◌,
  ◌++◌, Bytes, codes, ltb, leb, ◌==◌, if◌then◌else◌, equal, length, take, drop,
}
use fern.Text.{has_prefix, has_suffix, trim_suffix, last_index}
use fern.Decimal.{ℤ, pos, negsuc, itoa, atoi}

abbrev pub is_lower_alnum : ℕ → Bool
is_lower_alnum c = (leb b'a' c && leb c b'z') || (leb b'0' c && leb c b'9')

abbrev pub is_alnum : ℕ → Bool
is_alnum c = (leb b'A' c && leb c b'Z') || is_lower_alnum c

-- `[-a-z0-9]*[a-z0-9]`
unfoldable pub label_end : Bytes → Bool
label_end [] = false
label_end (c ∷ []) = is_lower_alnum c
label_end (c ∷ d ∷ cs) = (c == b'-' || is_lower_alnum c) && label_end (d ∷ cs)

-- envIDPattern: `^[a-z0-9]([-a-z0-9]{0,61}[a-z0-9])?$`
unfoldable pub env_id_pattern : Bytes → Bool
unfolding label_end
env_id_pattern [] = false
env_id_pattern (c ∷ []) = is_lower_alnum c
env_id_pattern (c ∷ d ∷ cs) = is_lower_alnum c && label_end (d ∷ cs) && leb (length (d ∷ cs)) 62

abbrev name_byte : ℕ → Bool
name_byte c = is_alnum c || c == b'.' || c == b'_' || c == b'-'

unfoldable pub all_name_bytes : Bytes → Bool
all_name_bytes [] = true
all_name_bytes (c ∷ cs) = name_byte c && all_name_bytes cs

-- snapIDPattern: `^[A-Za-z0-9][A-Za-z0-9._-]{0,127}$`
unfoldable pub snap_id_pattern : Bytes → Bool
unfolding all_name_bytes
snap_id_pattern [] = false
snap_id_pattern (c ∷ cs) = is_alnum c && all_name_bytes cs && leb (length cs) 127

-- pathPartPattern: `^[A-Za-z0-9_][A-Za-z0-9._-]{0,127}$`
unfoldable pub path_part_pattern : Bytes → Bool
unfolding all_name_bytes
path_part_pattern [] = false
path_part_pattern (c ∷ cs) = (is_alnum c || c == b'_') && all_name_bytes cs && leb (length cs) 127

abbrev pub agent_suffix : Bytes
agent_suffix = codes ".agent"

unfoldable pub agent_box : Bytes → Bytes
agent_box id = id ++ agent_suffix

unfoldable pub is_agent_box : Bytes → Bool
unfolding has_suffix
is_agent_box box = has_suffix box agent_suffix

unfoldable pub env_of_box : Bytes → Bytes
unfolding trim_suffix
env_of_box box = trim_suffix box agent_suffix

abbrev pub fork_infix : Bytes
fork_infix = codes "-fork-"

unfoldable pub fork_id : Bytes → ℕ → Bytes
unfolding itoa
fork_id id n = id ++ (fork_infix ++ itoa n)

-- What ForkOf does with the number that it read, `whole` the digits it was read from.
fork_number : Bytes → Bytes → Option ℤ → Option (Bytes × ℕ)
unfolding itoa
fork_number parent whole none = none
fork_number parent whole (some (negsuc n)) = none
fork_number parent whole (some (pos n)) =
    if ltb n 1 || not (equal (itoa n) whole) then none else some (parent, n)

fork_at : Bytes → Option ℕ → Option (Bytes × ℕ)
unfolding atoi fork_number
fork_at fork none = none
fork_at fork (some zero) = none
fork_at fork (some (suc i)) =
    let number = drop (length fork_infix) (drop (suc i) fork) in
    fork_number (take (suc i) fork) number (atoi number)

unfoldable pub fork_of : Bytes → Option (Bytes × ℕ)
unfolding fork_at last_index
fork_of fork = fork_at fork (last_index fork fork_infix)

-- setup.IsBuilder
abbrev pub builder_prefix : Bytes
builder_prefix = codes "golden-"

unfoldable pub is_builder : Bytes → Bool
unfolding has_prefix
is_builder id = has_prefix id builder_prefix
