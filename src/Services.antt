-- ===== src/Services.antt =====
-- The services of a box: what fern-init takes from services.yaml, and the supervisor that restarts one
-- (cmd/fern-init/services.go).
pub mod Backoff
use fern.Prelude.{
  ℕ, zero, suc, ◌+◌, ◌*◌, ◌==◌, Bool, true, false, not, ◌&&◌, ◌||◌, Option, none, some, List, [],
  ◌∷◌, Bytes, if◌then◌else◌, ltb, is_empty, min,
}
use fern.Decimal.{ℤ, pos, negsuc}
use fern.OnDemand.{Network, listen_addr}

-- service, as it is in the file
pub record Service : Type 0 where
  pub run : Bytes
  pub stop : Bytes
  pub ready : Bytes
  pub listen : Bytes
  pub port : ℤ

-- Why a file is refused: it is no YAML, or a service's run, port or listen.
pub data Refusal : Type 0 where
  no_yaml : Refusal
  no_run no_port no_listen : Bytes → Refusal

pub data Parsed : Type 0 where
  refused : Refusal → Parsed
  services : List (Bytes × Service) → Parsed

abbrev pub is_port : ℤ → Bool
is_port (pos n) = not (ltb 65535 n)
is_port (negsuc n) = false

abbrev pub takes : Option (Network × Bytes) → Bool
takes none = false
takes (some a) = true

-- The checks of one service
unfoldable pub refusal : Bytes → Service → Option Refusal
unfolding listen_addr
refusal name s =
    if is_empty s.run
    then some (no_run name)
    else (if not (is_port s.port)
        then some (no_port name)
        else (if not (is_empty s.listen) && not (takes (listen_addr s.listen))
            then some (no_listen name)
            else none))

abbrev pub or_refused : List (Bytes × Service) → Option Refusal → Parsed
or_refused all none = services all
or_refused all (some r) = refused r

abbrev pub or_later : Option Refusal → Option Refusal → Option Refusal
or_later none rest = rest
or_later (some r) rest = some r

unfoldable pub first_refusal : List (Bytes × Service) → Option Refusal
unfolding refusal
first_refusal [] = none
first_refusal ((name, s) ∷ ss) = or_later (refusal name s) (first_refusal ss)

-- parseServices, of what the YAML holds, its services in the order that they are taken in.
unfoldable pub parse_services : Option (List (Bytes × Service)) → Parsed
unfolding first_refusal
parse_services none = refused no_yaml
parse_services (some all) = or_refused all (first_refusal all)

-- Times are in nanoseconds.
abbrev pub second : ℕ
second = 1000000000

abbrev pub min_backoff : ℕ
min_backoff = second

abbrev pub max_backoff : ℕ
max_backoff = 30 * second

abbrev pub stable_run : ℕ
stable_run = 60 * second

-- A run of the service: how long it lasted, and whether it was to stop when it exited, or in the pause
-- after it.
pub record Run : Type 0 where
  pub lasted : ℕ
  pub quit : Bool
  pub quit_in_pause : Bool

abbrev pub after_run : ℕ → Run → ℕ
after_run backoff r = if ltb stable_run r.lasted then min_backoff else backoff

-- The loop of run: the pauses that it makes, and whether it has returned.
unfoldable pub supervise_from : ℕ → List Run → List ℕ × Bool
supervise_from backoff [] = ([], false)
supervise_from backoff (r ∷ rs) =
    let pause = after_run backoff r in
    let (ps, ended) = supervise_from (min (2 * pause) max_backoff) rs in
    if r.quit
    then ([], true)
    else (if r.quit_in_pause then (pause ∷ [], true) else (pause ∷ ps, ended))

unfoldable pub supervise : List Run → List ℕ × Bool
unfolding supervise_from
supervise = supervise_from min_backoff
