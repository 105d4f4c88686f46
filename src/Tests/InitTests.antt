-- ===== src/Tests/InitTests.antt =====
-- fern-init's services: starts on demand, restarts and the file that names them.
use fern.Prelude.{
  All, ◌*◌, ◌+◌, suc, length, inr, arith, equal, ◌≡◌, refl, true, false, Bool, none, some, List, [],
  ◌∷◌, codes,
}
use fern.Text.{has_prefix}
use fern.Setup.Words.{cut}
use fern.Decimal.{pos}
use fern.OnDemand.{
  unix, tcp, listen_on_demand, listen_addr, serve, Look, wait_ready, waited, holds, without, relay,
  forget, Event, connects, looks, relays, turn, turns,
}
use fern.OnDemand.Connections.{IsSound, turns-IsSound}
use fern.Services.{
  Service, no_listen, refused, refusal, first_refusal, parse_services, second, Run, supervise_from,
  supervise,
}
use fern.Services.Backoff.{IsGoing, nth, supervise_lem}

addresses :
    (listen_addr (codes "unix:/run/pg") ≡ some (unix, codes "/run/pg"))
    × (listen_addr (codes "tcp:5432") ≡ some (tcp, codes "127.0.0.1:5432"))
    × (listen_addr (codes "tcp:") ≡ none)
    × (listen_addr (codes "udp:53") ≡ none)
unfolding listen_addr cut equal has_prefix
addresses = (refl, refl, refl, refl)

abbrev look : Bool → Bool → Look
look there late = record { replaced = there; passes = true; late = late; cancelled = false }

-- Two clients come, and the service itself looks; then it is ready, and both are relayed.
abbrev evening : List Event
evening =
    connects 1 false
    ∷ relays 1 true
    ∷ connects 2 true
    ∷ connects 3 false
    ∷ looks true (look false false ∷ look true false ∷ [])
    ∷ relays 1 true
    ∷ relays 3 false
    ∷ connects 4 false
    ∷ []

served : turns evening (listen_on_demand unix) ≡ record {
  network = unix;
  listening = false;
  started = true;
  ready = some true;
  waiting = [];
  relayed = 1 ∷ [];
  closed = 3 ∷ 2 ∷ [];
  accepted = 3;
  starts = 1;
}
unfolding turns turn serve waited wait_ready relay forget holds without
served = refl

turns-IsSound_example : IsSound (turns evening (listen_on_demand unix))
turns-IsSound_example = turns-IsSound unix evening

abbrev short : Run
short = record { lasted = second; quit = false; quit_in_pause = false }

abbrev long : Run
long = record { lasted = 90 * second; quit = false; quit_in_pause = false }

abbrev last : Run
last = record { lasted = second; quit = true; quit_in_pause = false }

abbrev restarts : List Run
restarts = short ∷ short ∷ short ∷ short ∷ short ∷ short ∷ long ∷ short ∷ last ∷ []

restarted : supervise restarts ≡ (
  second
      ∷ 2 * second
      ∷ 4 * second
      ∷ 8 * second
      ∷ 16 * second
      ∷ 30 * second
      ∷ second
      ∷ 2 * second
      ∷ [],
  true,
)
unfolding supervise supervise_from
restarted = refl

six-IsGoing : All IsGoing (short ∷ short ∷ short ∷ short ∷ short ∷ short ∷ [])
six-IsGoing = (
  (refl, refl),
  ((refl, refl), ((refl, refl), ((refl, refl), ((refl, refl), ((refl, refl), tt))))),
)

supervise_lem_example :
    let (pauses, ended) = supervise restarts in
    (nth (6 + 1) pauses ≡ some (2 * second))
    × (length pauses ≡ 6 + suc (1 + 0) + 0)
    × (ended ≡ true)
supervise_lem_example =
    supervise_lem (short ∷ short ∷ short ∷ short ∷ short ∷ short ∷ []) (short ∷ []) [] [] long last
      six-IsGoing (refl, refl) ((refl, refl), tt) tt (omega arith, tt) (inr (omega arith)) refl

abbrev web : Service
web = record {
  run = codes "npm start";
  stop = [];
  ready = [];
  listen = codes "tcp:";
  port = pos 3000;
}

parsed : parse_services (some ((codes "web", web) ∷ [])) ≡ refused (no_listen (codes "web"))
unfolding parse_services first_refusal refusal listen_addr cut equal has_prefix
parsed = refl
