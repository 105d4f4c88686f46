-- ===== src/Watch/Tree.antt =====
-- The folders that a watch has marked, and the changes that it passes on (apply, add, forget, skip and
-- report of internal/watch/watch.go). A path is the names on it, from the watched folder down.
pub mod Clean
pub mod Skipped
use fern.Prelude.{
  ℕ, ◌+◌, ◌/◌, ◌%◌, ◌==◌, Bool, true, false, not, ◌&&◌, ◌||◌, Option, none, some, List, [], ◌∷◌,
  ◌++◌, Bytes, codes, if◌then◌else◌, equal, is_empty,
}
use fern.Decimal.{ℤ}
use fern.Sets.{value_of, store}
use fern.Watch.Event.{Event}

-- skip
unfoldable pub skip : Bytes → Bool
skip name =
    equal name (codes ".git") || equal name (codes "node_modules") || equal name (codes ".fern")

-- How the mark of a folder goes: it has a handle then, it is gone, or there is an error.
pub data Mark : Type 0 where
  marked : Bytes → Mark
  absent refused : Mark

-- What a walk finds in a folder: a file, and whether it is regular, or a folder, and then the rest.
pub data Found : Type 0 where
  nothing : Found
  file : Bytes → Bool → Found → Found
  folder : Bytes → Mark → Found → Found → Found

-- tree.dirs, with the files that a walk found, and whether it goes on.
pub record Walked : Type 0 where
  pub dirs : List (Bytes × List Bytes)
  pub files : List (List Bytes)
  pub goes_on : Bool

abbrev pub noted : Bytes → List Bytes → Walked → Walked
noted h rel w = record w { dirs = store h rel w.dirs }

abbrev pub fails : Walked → Walked
fails w = record w { goes_on = false }

-- The function that add walks with, in the folder `rel`.
unfoldable pub walk : List Bytes → Found → Walked → Walked
unfolding store skip
walk rel nothing w = w
walk rel (file name regular rest) w =
    walk rel rest (if regular then record w { files = w.files ++ (rel ++ name ∷ []) ∷ [] } else w)
walk rel (folder name absent inside rest) w = walk rel rest w
walk rel (folder name refused inside rest) w = if skip name then walk rel rest w else fails w
walk rel (folder name (marked h) inside rest) w =
    let entered = walk (rel ++ name ∷ []) inside (noted h (rel ++ name ∷ []) w) in
    let past = walk rel rest w in
    let after = walk rel rest entered in
    if skip name then past else (if entered.goes_on then after else entered)

-- add, of a folder that its mark and what is in it are known of
unfoldable pub add : List Bytes → Mark → Found → List (Bytes × List Bytes) → Walked
unfolding walk store
add rel absent inside dirs = record { dirs = dirs; files = []; goes_on = true }
add rel refused inside dirs = record { dirs = dirs; files = []; goes_on = false }
add rel (marked h) inside dirs =
    walk rel inside (record { dirs = store h rel dirs; files = []; goes_on = true })

-- Whether a path is `rel` or under it.
unfoldable pub under : List Bytes → List Bytes → Bool
under [] d = true
under (n ∷ rel) [] = false
under (n ∷ rel) (m ∷ d) = equal n m && under rel d

unfoldable pub forget : List Bytes → List (Bytes × List Bytes) → List (Bytes × List Bytes)
unfolding under
forget rel [] = []
forget rel ((h, d) ∷ ds) = let rest = forget rel ds in if under rel d then rest else (h, d) ∷ rest

abbrev pub has_bit : ℕ → ℕ → Bool
has_bit bit mask = mask / bit % 2 == 1

-- The bits of unix.FAN_*
abbrev pub fan_modify : ℕ
fan_modify = 2

abbrev pub fan_moved_from : ℕ
fan_moved_from = 64

abbrev pub fan_moved_to : ℕ
fan_moved_to = 128

abbrev pub fan_create : ℕ
fan_create = 256

abbrev pub fan_delete : ℕ
fan_delete = 512

abbrev pub fan_q_overflow : ℕ
fan_q_overflow = 16384

abbrev pub fan_ondir : ℕ
fan_ondir = 1073741824

unfoldable pub same_path : List Bytes → List Bytes → Bool
same_path [] [] = true
same_path [] (m ∷ d) = false
same_path (n ∷ p) [] = false
same_path (n ∷ p) (m ∷ d) = equal n m && same_path p d

unfoldable pub has_path : List Bytes → List (List Bytes) → Bool
unfolding same_path
has_path p [] = false
has_path p (q ∷ qs) = same_path p q || has_path p qs

-- `pending[p] = true`
abbrev pub with_path : List Bytes → List (List Bytes) → List (List Bytes)
with_path p ps = if has_path p ps then ps else p ∷ ps

unfoldable pub with_paths : List (List Bytes) → List (List Bytes) → List (List Bytes)
unfolding has_path
with_paths [] ps = ps
with_paths (p ∷ qs) ps = with_paths qs (with_path p ps)

pub record Watched : Type 0 where
  pub dirs : List (Bytes × List Bytes)
  pub pending : List (List Bytes)

-- A new folder
abbrev pub with_walked : Bool → Walked → Watched → Watched
with_walked mine r w = record {
  dirs = r.dirs;
  pending = if mine then with_paths r.files w.pending else w.pending;
}

abbrev pub of_folder : Bool → Event → Mark → Found → List Bytes → Watched → Watched
of_folder mine e m inside rel w =
    if has_bit fan_delete e.mask || has_bit fan_moved_from e.mask
    then record w { dirs = forget rel w.dirs }
    else (if (has_bit fan_create e.mask || has_bit fan_moved_to e.mask) && not (skip e.name)
        then with_walked mine (add rel m inside w.dirs) w
        else w)

abbrev pub of_file : Bool → Event → List Bytes → Watched → Watched
of_file mine e rel w =
    if mine
      && (has_bit fan_modify e.mask || has_bit fan_create e.mask || has_bit fan_moved_to e.mask)
    then record w { pending = with_path rel w.pending }
    else w

abbrev pub in_parent : Bool → Event → Mark → Found → Watched → Option (List Bytes) → Watched
in_parent mine e m inside w none = w
in_parent mine e m inside w (some parent) =
    if is_empty e.name || equal e.name (codes ".")
    then w
    else (if has_bit fan_ondir e.mask
        then of_folder mine e m inside (parent ++ e.name ∷ []) w
        else of_file mine e (parent ++ e.name ∷ []) w)

-- A turn of apply's loop: `m` and `inside` are what a new folder's mark and walk find.
unfoldable pub apply_one : Bool → Event → Mark → Found → Watched → Watched
unfolding value_of forget add skip has_path with_paths
apply_one mine e m inside w =
    if has_bit fan_q_overflow e.mask
    then w
    else in_parent mine e m inside w (value_of e.handle w.dirs)

module _ (mine : ℤ → Bool) where
  unfoldable pub apply : List (Event × Mark × Found) → Watched → Watched
  unfolding apply_one
  apply [] w = w
  apply ((e, m, inside) ∷ es) w = apply es (apply_one (mine e.pid) e m inside w)

-- report's state: `timer` says that the batch's timer is set, `batches` what `changed` was called with,
-- the last first and each in some order.
pub record Report : Type 0 where
  pub watched : Watched
  pub timer : Bool
  pub batches : List (List (List Bytes))

-- What report's select takes: a read's events, or the timer.
pub data Turn : Type 0 where
  events : List (Event × Mark × Found) → Turn
  fires : Turn

module _ (mine : ℤ → Bool) where
  unfoldable pub report_one : Turn → Report → Report
  unfolding apply
  report_one (events es) r =
      let next = apply mine es r.watched in
      record r {
        watched = next;
        timer = r.timer || (is_empty r.watched.pending && not (is_empty next.pending));
      }
  report_one fires r =
      if r.timer
      then record {
        watched = record r.watched { pending = [] };
        timer = false;
        batches = r.watched.pending ∷ r.batches;
      }
      else r

  unfoldable pub report : List Turn → Report → Report
  unfolding report_one
  report [] r = r
  report (t ∷ ts) r = report ts (report_one t r)

-- Watch, up to its calls: the watched folder is added, but not what is in it passed on.
unfoldable pub watch : Mark → Found → Report
unfolding add
watch m inside = record {
  watched = record { dirs = (add [] m inside []).dirs; pending = [] };
  timer = false;
  batches = [];
}
