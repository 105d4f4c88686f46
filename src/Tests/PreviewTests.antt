-- ===== src/Tests/PreviewTests.antt =====
-- internal/preview, under a host in lower case.
use fern.Prelude.{
  ℕ, ◌≡◌, refl, Bytes, Option, none, some, [], ◌∷◌, ◌++◌, codes, equal, true, false, if◌then◌else◌,
}
use fern.Preview.{
  route, host_in, count_one, uncount_one, is_loading, answered, Turn, counted, uncounted, woken,
  done, passed, serve,
}
use fern.Preview.Route.{IsRoute, IsHost, IsPort, passes, serve_sound}

abbrev split : Bytes → Option Bytes
split s =
    if equal s (codes "5173-demo.localhost:30780") then some (codes "5173-demo.localhost") else none

abbrev lowered : Bytes → Bytes
lowered s = s

abbrev localhost : Bytes
localhost = codes "localhost"

named_port :
    route split lowered localhost (codes "5173-demo.localhost:30780") ≡ some (codes "demo", 5173)
unfolding route equal
named_port = refl

default_preview : route split lowered localhost (codes "demo.localhost") ≡ some (codes "demo", 0)
unfolding route equal
default_preview = refl

exec_server : route split lowered localhost (codes "7070-demo.localhost") ≡ none
unfolding route equal
exec_server = refl

two_requests :
    is_loading
      (codes "a")
      (uncount_one (codes "a") (count_one (codes "a") (count_one (codes "a") [])))
    ≡ true
unfolding is_loading uncount_one count_one equal
two_requests = refl

last_request :
    uncount_one (codes "a") (count_one (codes "a") ((codes "b", 2) ∷ [])) ≡ (codes "b", 2) ∷ []
unfolding uncount_one count_one equal
last_request = refl

abbrev turn : Turn
turn = record {
  default_port = λ id. answered 7070;
  preview = λ id. answered (codes "10.0.0.2:7070");
  host_of = λ addr. some (codes "10.0.0.2");
  browser_gone = false;
}

-- A service on port 7070 makes the exec server the default preview.
default_exec_server :
    serve turn (route split lowered localhost (codes "demo.localhost"))
    ≡ counted (codes "demo")
      ∷ woken (codes "demo")
      ∷ passed (codes "10.0.0.2") 7070
      ∷ done (codes "demo")
      ∷ uncounted (codes "demo")
      ∷ []
unfolding serve route equal
default_exec_server = refl

named_passes :
    passes
      (codes "10.0.0.2")
      5173
      (serve turn (route split lowered localhost (codes "5173-demo.localhost:30780")))
    ≡ true
unfolding serve route equal
named_passes = refl

serve_sound_example :
    (id : Bytes) × (asked : ℕ) × (label : Bytes) × (lowered
        (host_in (codes "5173-demo.localhost:30780") (split (codes "5173-demo.localhost:30780")))
      ≡ label ++ b'.' ∷ localhost)
    × IsRoute label id asked
    × IsHost turn id (codes "10.0.0.2")
    × IsPort turn id asked 5173
serve_sound_example =
    serve_sound split lowered localhost (codes "5173-demo.localhost:30780") (codes "10.0.0.2") 5173
      turn named_passes
