-- ===== src/OnDemand.antt =====
-- Services that start at the first connection to their socket (cmd/fern-init/ondemand.go), as the
-- events of fern-init's goroutines come, one after the other.
pub mod Connections
use fern.Prelude.{
  ℕ, zero, suc, ◌+◌, ◌==◌, Bool, true, false, not, ◌&&◌, ◌||◌, Option, none, some, List, [], ◌∷◌,
  ◌++◌, Bytes, codes, if◌then◌else◌, equal, is_empty,
}
use fern.Setup.Words.{cut}

pub data Network : Type 0 where
  unix tcp : Network

abbrev pub is_unix : Network → Bool
is_unix unix = true
is_unix tcp = false

abbrev pub addr_of : Bytes × Option Bytes → Option (Network × Bytes)
addr_of (network, none) = none
addr_of (network, some []) = none
addr_of (network, some (a ∷ addr)) =
    if equal network (codes "unix")
    then some (unix, a ∷ addr)
    else (if equal network (codes "tcp") then some (tcp, codes "127.0.0.1:" ++ a ∷ addr) else none)

-- listenAddr
unfoldable pub listen_addr : Bytes → Option (Network × Bytes)
unfolding cut
listen_addr listen = addr_of (cut (codes ":") listen)

-- onDemand. The source's conns are those that wait for the service and those that are relayed to it;
-- `closed` are those that are over, `accepted` is how many there were, `starts` how often `start` was
-- called. Connections are numbers.
pub record OnDemand : Type 0 where
  pub network : Network
  pub listening : Bool
  pub started : Bool
  pub ready : Option Bool
  pub waiting : List ℕ
  pub relayed : List ℕ
  pub closed : List ℕ
  pub accepted : ℕ
  pub starts : ℕ

-- listenOnDemand, when the socket could be taken
abbrev pub listen_on_demand : Network → OnDemand
listen_on_demand n = record {
  network = n;
  listening = true;
  started = false;
  ready = none;
  waiting = [];
  relayed = [];
  closed = [];
  accepted = 0;
  starts = 0;
}

abbrev pub start_service : OnDemand → OnDemand
start_service o =
    if o.started
    then o
    else record o { listening = is_unix o.network; started = true; starts = suc o.starts }

abbrev pub held : ℕ → OnDemand → OnDemand
held c o = record o { waiting = c ∷ o.waiting }

abbrev pub counted : OnDemand → OnDemand
counted o = record o { accepted = suc o.accepted }

-- A turn of serve, for connection `c`; `from_service` says that its peer is in the service's group.
unfoldable pub serve : ℕ → Bool → OnDemand → OnDemand
serve c from_service o =
    if o.listening
    then (if o.started && from_service
        then counted (record o { closed = c ∷ o.closed })
        else counted (held c (start_service o)))
    else o

-- A turn of waitReady's loop: whether the service has put its own socket there, whether its ready
-- check passes, whether the time is over, and whether the context is done before the next turn.
pub record Look : Type 0 where
  pub replaced : Bool
  pub passes : Bool
  pub late : Bool
  pub cancelled : Bool

abbrev pub is_ready : Network → Bool → Look → Bool
is_ready unix check l = l.replaced && (not check || l.passes)
is_ready tcp check l = not check || l.passes

-- waitReady: its error, or that the service is ready, when it has returned. `check` says that the
-- service has a ready check.
unfoldable pub wait_ready : Network → Bool → List Look → Option Bool
wait_ready n check [] = none
wait_ready n check (l ∷ ls) =
    let rest = wait_ready n check ls in
    if is_ready n check l then some true else (if l.late || l.cancelled then some false else rest)

-- The end of waitReady lets go of a unix socket.
abbrev pub let_go : Option Bool → OnDemand → OnDemand
let_go none o = o
let_go (some ok) o = record o {
  ready = some ok;
  listening = if is_unix o.network then false else o.listening;
}

abbrev pub unset : Option Bool → Bool
unset none = true
unset (some b) = false

unfoldable pub waited : Bool → List Look → OnDemand → OnDemand
unfolding wait_ready
waited check ls o =
    if o.started && unset o.ready then let_go (wait_ready o.network check ls) o else o

unfoldable pub holds : ℕ → List ℕ → Bool
holds c [] = false
holds c (d ∷ ds) = c == d || holds c ds

unfoldable pub without : ℕ → List ℕ → List ℕ
without c [] = []
without c (d ∷ ds) = let rest = without c ds in if c == d then ds else d ∷ rest

abbrev pub over : ℕ → OnDemand → OnDemand
over c o = record o { waiting = without c o.waiting; closed = c ∷ o.closed }

abbrev pub on_ready : ℕ → Bool → OnDemand → Option Bool → OnDemand
on_ready c dials o none = o
on_ready c dials o (some false) = over c o
on_ready c dials o (some true) =
    if dials then record o { waiting = without c o.waiting; relayed = c ∷ o.relayed } else over c o

-- relay, up to the copying: `dials` says that the service takes the connection.
unfoldable pub relay : ℕ → Bool → OnDemand → OnDemand
unfolding holds without
relay c dials o = if holds c o.waiting then on_ready c dials o o.ready else o

-- relay of a connection whose wait ends by its context
unfoldable pub give_up : ℕ → OnDemand → OnDemand
unfolding holds without
give_up c o = if holds c o.waiting then over c o else o

-- The end of relay's copying
unfoldable pub forget : ℕ → OnDemand → OnDemand
unfolding holds without
forget c o =
    if holds c o.relayed
    then record o { relayed = without c o.relayed; closed = c ∷ o.closed }
    else o

-- A goroutine's turn.
pub data Event : Type 0 where
  connects : ℕ → Bool → Event
  looks : Bool → List Look → Event
  relays : ℕ → Bool → Event
  gives_up ends : ℕ → Event

unfoldable pub turn : Event → OnDemand → OnDemand
unfolding serve waited relay give_up forget
turn (connects c s) o = serve c s o
turn (looks check ls) o = waited check ls o
turn (relays c d) o = relay c d o
turn (gives_up c) o = give_up c o
turn (ends c) o = forget c o

unfoldable pub turns : List Event → OnDemand → OnDemand
unfolding turn
turns [] o = o
turns (e ∷ es) o = turns es (turn e o)
