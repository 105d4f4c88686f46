-- ===== src/Preview.antt =====
-- The front door of previews (internal/preview/preview.go).
pub mod Route
use fern.Prelude.{
  ℕ, zero, suc, ◌+◌, ◌-◌, Bool, true, false, ◌&&◌, ◌||◌, not, Option, none, some, List, [], ◌∷◌,
  ◌++◌, Bytes, codes, ltb, leb, ◌==◌, if◌then◌else◌, is_empty, equal,
}
use fern.Text.{has_suffix, trim_suffix}
use fern.Decimal.{ℤ, pos, negsuc, atoi}
use fern.Ids.{env_id_pattern}
use fern.Sets.{value_of, store}
use fern.Setup.Words.{cut}

-- boxexec.Port: the port of a box's exec server.
abbrev pub exec_port : ℕ
exec_port = 7070

abbrev pub has_dot : Bytes → Bool
has_dot [] = false
has_dot (c ∷ cs) = c == b'.' || has_dot cs

-- store.CheckEnvID of what is left
abbrev pub checked : Bytes → ℕ → Option (Bytes × ℕ)
checked id port = if env_id_pattern id then some (id, port) else none

abbrev pub has_plus : Bytes → Bool
has_plus [] = false
has_plus (c ∷ cs) = c == b'+'

abbrev pub bad_port : ℤ → Bool
bad_port (negsuc n) = true
bad_port (pos n) = n == 0 || ltb 65535 n || n == exec_port

abbrev pub number : ℤ → ℕ
number (pos n) = n
number (negsuc n) = 0

-- PORT-ENV, `p` the part that may be a port.
abbrev pub with_port : Bytes → Bytes → Bytes → Option ℤ → Option (Bytes × ℕ)
with_port label p env none = checked label 0
with_port label p env (some n) =
    if has_plus p then checked label 0 else if bad_port n then none else checked env (number n)

abbrev pub from_cut : Bytes → Bytes × Option Bytes → Option (Bytes × ℕ)
from_cut label (p, none) = checked label 0
from_cut label (p, some []) = checked label 0
from_cut label (p, some (c ∷ cs)) = with_port label p (c ∷ cs) (atoi p)

unfoldable pub from_label : Bytes → Option (Bytes × ℕ)
unfolding env_id_pattern atoi cut
from_label label =
    if is_empty label || has_dot label then none else from_cut label (cut (codes "-") label)

-- net.SplitHostPort's host, if there is one
abbrev pub host_in : Bytes → Option Bytes → Bytes
host_in hostport none = hostport
host_in hostport (some h) = h

-- The requests in progress, by environment: count with 1 and with -1, and isLoading.
abbrev pub Loading : Type 0
Loading = List (Bytes × ℕ)

abbrev pub count_of : Option ℕ → ℕ
count_of none = 0
count_of (some n) = n

unfoldable pub loading_of : Bytes → Loading → ℕ
unfolding value_of
loading_of id m = count_of (value_of id m)

unfoldable pub without : Bytes → Loading → Loading
without id [] = []
without id ((k, n) ∷ m) = if equal id k then without id m else (k, n) ∷ without id m

unfoldable pub count_one : Bytes → Loading → Loading
unfolding loading_of store
count_one id m = store id (loading_of id m + 1) m

unfoldable pub uncount_one : Bytes → Loading → Loading
unfolding loading_of store without
uncount_one id m = let n = loading_of id m - 1 in if n == 0 then without id m else store id n m

unfoldable pub is_loading : Bytes → Loading → Bool
unfolding loading_of
is_loading id m = ltb 0 (loading_of id m)

-- `split` is net.SplitHostPort and `lowered` strings.ToLower.
module _ (split : Bytes → Option Bytes) (lowered : Bytes → Bytes) (host : Bytes) where
  unfoldable pub route : Bytes → Option (Bytes × ℕ)
  unfolding has_suffix trim_suffix from_label
  route hostport =
      let name = lowered (host_in hostport (split hostport)) in
      if has_suffix name (b'.' ∷ host) then from_label (trim_suffix name (b'.' ∷ host)) else none

-- What the store, the actors or net.SplitHostPort answer: a value, store.ErrNotFound or another error.
pub data Answer {ℓ} (A : Type ℓ) : Type ℓ where
  answered : A → Answer A
  not_found broken : Answer A

-- What a request does, in order: it is counted and uncounted, wakes a box and says that it is done
-- with it, is passed on to a port of a box's host, or is answered at once.
pub data Effect : Type 0 where
  counted uncounted woken done : Bytes → Effect
  passed : Bytes → ℕ → Effect
  not_a_preview gone : Effect
  no_default no_env not_up : Bytes → Effect

-- What the outside answers to one request: the default preview's port, the box's address, the host of
-- an address, and whether the browser has gone.
pub record Turn : Type 0 where
  pub default_port : Bytes → Answer ℕ
  pub preview : Bytes → Answer Bytes
  pub host_of : Bytes → Option Bytes
  pub browser_gone : Bool

module _ (o : Turn) where
  abbrev pub other_failure : Bytes → Effect
  other_failure id = if o.browser_gone then gone else not_up id

  abbrev pub pass_on : Bytes → ℕ → Option Bytes → Effect
  pass_on id port none = other_failure id
  pass_on id port (some h) = passed h port

  abbrev pub serve_box : Bytes → ℕ → Answer Bytes → List Effect
  serve_box id port not_found = no_env id ∷ []
  serve_box id port broken = other_failure id ∷ []
  serve_box id port (answered addr) = pass_on id port (o.host_of addr) ∷ done id ∷ []

  abbrev pub serve_port : Bytes → ℕ → List Effect
  serve_port id port =
      counted id ∷ woken id ∷ (serve_box id port (o.preview id) ++ uncounted id ∷ [])

  abbrev pub serve_default : Bytes → Answer ℕ → List Effect
  serve_default id not_found = no_env id ∷ []
  serve_default id broken = other_failure id ∷ []
  serve_default id (answered zero) = no_default id ∷ []
  serve_default id (answered (suc n)) = serve_port id (suc n)

  -- ServeHTTP of a request that `route` has read.
  unfoldable pub serve : Option (Bytes × ℕ) → List Effect
  serve none = not_a_preview ∷ []
  serve (some (id, zero)) = serve_default id (o.default_port id)
  serve (some (id, suc n)) = serve_port id (suc n)
