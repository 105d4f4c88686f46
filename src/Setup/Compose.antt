-- ===== src/Setup/Compose.antt =====
-- The Postgres that a repository's docker-compose file runs (composePostgres, composeEnv and
-- postgresRun of internal/setup/guess.go).
pub mod Identifiers
use fern.Prelude.{
  ℕ, zero, suc, Bool, true, false, ◌&&◌, ◌||◌, Option, none, some, List, [], ◌∷◌, ◌++◌, Bytes,
  codes, if◌then◌else◌, drop, is_empty,
}
use fern.Text.{has_prefix, trim_suffix, last_index}
use fern.Sets.{value_of, store}
use fern.Setup.Words.{cut, by_key, identifier}
use fern.Setup.Files.{Opened, Result, ok, err, Trouble, is_missing, bad_yaml, read_file}

abbrev pub Env : Type 0
Env = List (Bytes × Bytes)

-- What a YAML document has under `environment`: a map or a list, whose values are strings or not.
pub data Setting : Type 0 where
  table : List (Bytes × Option Bytes) → Setting
  items : List (Option Bytes) → Setting
  neither : Setting

pub record Service : Type 0 where
  pub image : Bytes
  pub environment : Setting

-- The services of a docker-compose file, if it is YAML that fits.
abbrev pub ComposeParser : Type 0
ComposeParser = Bytes → Option (List (Bytes × Service))

abbrev pub keep_plain : Bytes → Bytes → Env → Env
keep_plain k v env = if identifier v then store k v env else env

-- `${NAME:-default}` as its default
abbrev pub keep_default : Bytes → Option Bytes → Env → Env
keep_default k none env = env
keep_default k (some def) env = keep_plain k def env

unfoldable pub keep_setting : Bytes → Bytes → Env → Env
unfolding has_prefix trim_suffix cut identifier store
keep_setting k v env =
    if has_prefix v (codes "${")
    then keep_default k (cut (codes ":-") (trim_suffix v (codes "}"))).1 env
    else keep_plain k v env

abbrev pub keep_table : List (Bytes × Option Bytes) → Env → Env
keep_table [] env = env
keep_table ((k, none) ∷ kvs) env = keep_table kvs env
keep_table ((k, some v) ∷ kvs) env = keep_table kvs (keep_setting k v env)

abbrev pub keep_cut : Bytes × Option Bytes → Env → Env
keep_cut (k, none) env = env
keep_cut (k, some v) env = keep_setting k v env

abbrev pub keep_items : List (Option Bytes) → Env → Env
keep_items [] env = env
keep_items (none ∷ is) env = keep_items is env
keep_items (some s ∷ is) env = keep_items is (keep_cut (cut (codes "=") s) env)

unfoldable pub compose_env : Setting → Env
unfolding keep_setting cut
compose_env (table kvs) = keep_table kvs []
compose_env (items is) = keep_items is []
compose_env neither = []

pub record Postgres : Type 0 where
  pub user : Bytes
  pub password : Bytes
  pub db : Bytes

-- A missing key reads as "".
abbrev pub text_or : Bytes → Option Bytes → Bytes
text_or d none = d
text_or d (some []) = d
text_or d (some (c ∷ cs)) = c ∷ cs

unfoldable pub postgres_of : Env → Postgres
unfolding value_of
postgres_of env =
    let user = text_or (codes "postgres") (value_of (codes "POSTGRES_USER") env) in
    record {
      user = user;
      password = text_or (codes "postgres") (value_of (codes "POSTGRES_PASSWORD") env);
      db = text_or user (value_of (codes "POSTGRES_DB") env);
    }

abbrev pub behind_slash : Bytes → Option ℕ → Bytes
behind_slash image none = image
behind_slash image (some i) = drop (suc i) image

unfoldable pub is_postgres : Bytes → Bool
unfolding last_index has_prefix
is_postgres image =
    let name = behind_slash image (last_index image (codes "/")) in
    has_prefix name (codes "postgres") || has_prefix name (codes "postgis")

unfoldable pub first_postgres : List (Bytes × Service) → Option Postgres
unfolding is_postgres compose_env postgres_of
first_postgres [] = none
first_postgres ((name, svc) ∷ svcs) =
    let rest = first_postgres svcs in
    if is_postgres svc.image then some (postgres_of (compose_env svc.environment)) else rest

abbrev pub compose_files : List Bytes
compose_files =
    codes "docker-compose.yml"
    ∷ codes "docker-compose.yaml"
    ∷ codes "compose.yml"
    ∷ codes "compose.yaml"
    ∷ []

-- What the loop does after a file's services.
abbrev pub or_next : Result (Option Postgres) → Option Postgres → Result (Option Postgres)
or_next rest none = rest
or_next rest (some pg) = ok (some pg)

module _ (root : Bytes → Opened) (parse : ComposeParser) where
  abbrev pub from_parsed :
      Bytes → Option (List (Bytes × Service)) → Result (Option Postgres) → Result (Option Postgres)
  from_parsed p none rest = err (bad_yaml p)
  from_parsed p (some svcs) rest = or_next rest (first_postgres (by_key svcs))

  -- A file that is missing is passed over.
  abbrev pub from_file : Bytes → Result Bytes → Result (Option Postgres) → Result (Option Postgres)
  from_file p (ok text) rest = from_parsed p (parse text) rest
  from_file p (err e) rest = if is_missing e then rest else err e

  unfoldable pub postgres_in : List Bytes → Result (Option Postgres)
  unfolding read_file first_postgres by_key
  postgres_in [] = ok none
  postgres_in (p ∷ ps) = from_file p (read_file root p) (postgres_in ps)

  unfoldable pub compose_postgres : Result (Option Postgres)
  unfolding postgres_in
  compose_postgres = postgres_in compose_files

-- `wait` last; what is run for a database that is there.
unfoldable pub postgres_run : Postgres → Bytes
postgres_run pg =
    codes
      "set -e\nPGDATA=.fern/pg\nif [ ! -s $PGDATA/PG_VERSION ]; then rm -rf $PGDATA; mkdir -p .fern; initdb --no-sync -D $PGDATA -U postgres --auth=trust >/dev/null; fi\n"
    ++ codes
        "rm -f $PGDATA/postmaster.pid\npostgres -D $PGDATA -k /tmp -c listen_addresses=127.0.0.1 &\n"
    ++ codes
        "if [ ! -e .fern/pg-ready ]; then until pg_isready -q -h 127.0.0.1; do sleep 0.2; done\n"
    ++ codes
        "psql -q -h 127.0.0.1 -U postgres -c \"DO \\$\\$BEGIN IF NOT EXISTS (SELECT FROM pg_roles WHERE rolname = '"
    ++ pg.user
    ++ codes "') THEN CREATE ROLE "
    ++ pg.user
    ++ codes " LOGIN SUPERUSER; END IF; END\\$\\$\"\n"
    ++ codes "(psql -q -h 127.0.0.1 -U postgres -tAc \"SELECT 1 FROM pg_database WHERE datname = '"
    ++ pg.db
    ++ codes "'\" | grep -q 1 || createdb -h 127.0.0.1 -U postgres -O "
    ++ pg.user
    ++ codes " "
    ++ pg.db
    ++ codes ")\ntouch .fern/pg-ready; fi\nwait"
