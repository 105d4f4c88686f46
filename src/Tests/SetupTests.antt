-- ===== src/Tests/SetupTests.antt =====
-- internal/setup, at small checkouts.
use fern.Prelude.{
  ℕ, ◌≡◌, inl, inr, refl, Bool, Bool-cases, true, false, Option, none, some, List, [], ◌∷◌, ◌++◌,
  Bytes, codes, equal, if◌then◌else◌, ◌||◌, ◌==◌, arith,
}
use fern.Ids.{env_id_pattern}
use fern.Setup.Builder.{builder_id, source_id, builder_of}
use fern.Setup.Builder.Names.{builder_of-source_id}
use fern.Setup.Words.{trim_space}
use fern.Setup.Files.{Opened, file, absent, failing, Result, ok, err}
use fern.Setup.Compose.{Service, table, items, Postgres, compose_postgres, compose_env}
use fern.Setup.Compose.Identifiers.{IsSafe, compose_postgres-IsSafe}
use fern.Setup.Guess.{Guess, Package, Outside, make_guess}
use fern.Setup.Guess.Versions.{IsPinned, make_guess-IsPinned}
use fern.Setup.Key.{Checkout, key, key_parts, key_text}
use fern.Setup.Key.Parts.{IsNulFree, IsSane, key-parts}

abbrev digest : Bytes → Bytes
digest text = codes "0123456789abcdef0123456789abcdef0123456789abcdef0123456789abcdef"

abbrev same_runes : Bytes → List ℕ
same_runes s = s

builder : builder_id same_runes digest (codes "my_app") ≡ codes "golden-my-app-01234567"
unfolding builder_id
builder = refl

nameless : builder_id same_runes digest (codes "___") ≡ codes "golden-repo-01234567"
unfolding builder_id
nameless = refl

builder_of-source_id_example :
    (env_id_pattern (builder_id same_runes digest (codes "my_app")) ≡ true)
    × (env_id_pattern (source_id same_runes digest (codes "my_app")) ≡ true)
    × (builder_of (source_id same_runes digest (codes "my_app"))
        ≡ some (builder_id same_runes digest (codes "my_app")))
    × (builder_of (builder_id same_runes digest (codes "my_app")) ≡ none)
builder_of-source_id_example =
    builder_of-source_id same_runes digest (codes "my_app") (refl, ground arith)

trims : trim_space (codes " \tv20\n") ≡ codes "v20"
unfolding trim_space
trims = refl

defaults :
    compose_env (items (some (codes "A=${B:-c}") ∷ none ∷ some (codes "D=e f") ∷ []))
    ≡ (codes "A", codes "c") ∷ []
unfolding compose_env equal
defaults = refl

abbrev services : List (Bytes × Service)
services =
    (codes "web", record { image = codes "node"; environment = items [] })
    ∷ (
      codes "db",
      record {
        image = codes "docker.io/library/postgres:17";
        environment = table (
            (codes "POSTGRES_USER", some (codes "app"))
            ∷ (codes "POSTGRES_PASSWORD", some (codes "${PW:-s3cret}"))
            ∷ (codes "POSTGRES_DB", some (codes "x'; DROP"))
            ∷ []);
      },
    )
    ∷ []

abbrev node_project : Package
node_project = record {
  scripts = (codes "dev", codes "vite") ∷ [];
  dependencies = [];
  dev_dependencies = (codes "vite", codes "^7") ∷ [];
  package_manager = codes "pnpm@10.4.1+sha512.abc";
  node = codes ">=20.9";
}

abbrev root_with : Bytes → Bytes → Opened
root_with more p =
    if equal p (codes "package.json") || equal p (codes "docker-compose.yml") || equal p more
    then file 2 (codes "{}")
    else absent

unfoldable has_nul : Bytes → Bool
has_nul [] = false
has_nul (b ∷ bs) = b == 0 || has_nul bs

abbrev refusing : (Bytes → Opened) → Bytes → Opened
refusing root p = if has_nul p then failing 22 else root p

abbrev outside_with : Bytes → Outside
outside_with more = record {
  root = refusing (root_with more);
  digest = digest;
  package_of = λ text. some node_project;
  services_of = λ text. some services;
  json_text = λ s. s;
  quoted = λ s. codes "\"" ++ (s ++ codes "\"");
}

abbrev pg : Postgres
pg = record { user = codes "app"; password = codes "s3cret"; db = codes "app" }

compose_postgres-IsSafe_example : IsSafe pg
unfolding compose_postgres equal has_nul
compose_postgres-IsSafe_example =
    compose_postgres-IsSafe (outside_with []).root (λ text. some services) pg refl

abbrev config : Bytes
config = codes "# Fern's guess, from package.json.\n[tools]\nnode = \"20\"\npnpm = \"10.4.1\"\n"

abbrev plain : Outside
plain = outside_with (codes "README")

guesses : Result Guess → Option Bytes
guesses (ok g) = g.tools
guesses (err e) = none

has_nul-IsNulFree : (p : Bytes) → has_nul p ≡ false → IsNulFree p
unfolding has_nul
has_nul-IsNulFree [] h = tt
has_nul-IsNulFree (b ∷ bs) h = (ground (arith, h), has_nul-IsNulFree bs (ground (arith, h)))

plain-IsSane : (more : Bytes) → IsSane (outside_with more)
unfolding has_nul
plain-IsSane more = (
  λ p. elim (Bool-cases (has_nul p)) [
    | inl h ↦ inr (22, rw h refl)
    | inr h ↦ inl (has_nul-IsNulFree p h)
  ],
  λ t. has_nul-IsNulFree (digest t) refl,
)

the_guess : guesses (make_guess plain) ≡ some config
unfolding make_guess equal has_nul guesses
the_guess = refl

-- The guess of that checkout.
abbrev guess_of : Result Guess → Guess
guess_of (ok g) = g
guess_of (err e) = record { services = none; tools = none; inputs = [] }

make_guess-IsPinned_example : IsPinned plain config
unfolding make_guess equal has_nul
make_guess-IsPinned_example =
    make_guess-IsPinned plain (guess_of (make_guess plain)) config refl refl

-- A checkout whose golden files are the same as another's with another file beside them.
abbrev checkout : Bytes → Checkout
checkout more = record {
  files = outside_with more;
  is_there = λ p. false;
  inputs_of = λ text. none;
  ports_of = λ text. none;
  clean = λ p. p;
  is_local = λ p. true;
}

abbrev readme : Checkout
readme = checkout (codes "README")

abbrev license : Checkout
license = checkout (codes "LICENSE")

abbrev parts_of : Result (List (Bytes × Bytes)) → List (Bytes × Bytes)
parts_of (ok ps) = ps
parts_of (err e) = []

abbrev image : Bytes
image = codes "box:1"

key-parts_example : (image ≡ image) × (parts_of (key_parts readme) ≡ parts_of (key_parts license))
unfolding key_parts key key_text equal has_nul
key-parts_example =
    key-parts readme license image image (parts_of (key_parts readme))
      (parts_of (key_parts license)) (plain-IsSane (codes "README"))
      (plain-IsSane (codes "LICENSE")) (has_nul-IsNulFree image refl) (has_nul-IsNulFree image refl)
      refl refl (λ same. refl) refl
