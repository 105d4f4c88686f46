-- ===== src/Setup/Guess.antt =====
-- What Fern makes of a Node project without a services.yaml (internal/setup/guess.go).
pub mod Versions
use fern.Prelude.{
  ℕ, zero, suc, Bool, true, false, ◌&&◌, ◌||◌, not, Option, none, some, List, [], ◌∷◌, ◌++◌, Bytes,
  codes, if◌then◌else◌, is_empty, equal,
}
use fern.Text.{has_prefix}
use fern.Decimal.{itoa}
use fern.Sets.{value_of}
use fern.Setup.Frameworks.{Framework, frameworks, PackageManager, bun, npm, package_managers}
use fern.Setup.Words.{cut, trim_prefix, trim_space, version_re, first_number}
use fern.Setup.Files.{
  Opened, Result, ok, err, then_ok, Trouble, is_missing, bad_package, read_file, has_tool_files,
}
use fern.Setup.Compose.{Postgres, ComposeParser, compose_files, compose_postgres, postgres_run}

pub record Guess : Type 0 where
  pub services : Option Bytes
  pub tools : Option Bytes
  pub inputs : List Bytes

abbrev pub no_guess : Guess
no_guess = record { services = none; tools = none; inputs = [] }

abbrev pub guess_inputs : List Bytes
guess_inputs = codes "package.json" ∷ codes ".nvmrc" ∷ codes ".node-version" ∷ compose_files

-- The part of package.json that is read. A missing key reads as "".
pub record Package : Type 0 where
  pub scripts : List (Bytes × Bytes)
  pub dependencies : List (Bytes × Bytes)
  pub dev_dependencies : List (Bytes × Bytes)
  pub package_manager : Bytes
  pub node : Bytes

abbrev pub filled : Option Bytes → Bool
filled none = false
filled (some v) = not (is_empty v)

-- `m[k] != ""`
unfoldable pub has_value : Bytes → List (Bytes × Bytes) → Bool
unfolding value_of
has_value k m = filled (value_of k m)

unfoldable pub pick_framework : Package → List Framework → Framework
unfolding has_value
pick_framework pkg [] = record { pkg = []; args = []; port = 3000 }
pick_framework pkg (f ∷ fs) =
    let rest = pick_framework pkg fs in
    if has_value f.pkg pkg.dependencies || has_value f.pkg pkg.dev_dependencies then f else rest

abbrev pub is_read : Result Bytes → Bool
is_read (ok text) = true
is_read (err e) = false

-- What stands outside of the package: the checkout, SHA-256 in hex, json.Unmarshal of a package.json,
-- yaml.Unmarshal of a docker-compose file, json.Marshal of a text and fmt's %q.
pub record Outside : Type 0 where
  pub root : Bytes → Opened
  pub digest : Bytes → Bytes
  pub package_of : Bytes → Option Package
  pub services_of : ComposeParser
  pub json_text : Bytes → Bytes
  pub quoted : Bytes → Bytes

abbrev pub from_engines : Bytes → Bytes
from_engines [] = codes "lts"
from_engines (c ∷ cs) = c ∷ cs

module _ (o : Outside) where
  abbrev pub locked_one : Bytes → List PackageManager → Option PackageManager
  locked_one name [] = none
  locked_one name (pm ∷ pms) =
      let rest = locked_one name pms in
      if is_read (read_file o.root pm.lock) && (is_empty name || equal name pm.name)
      then some pm
      else rest

  abbrev pub named_one : Bytes → List PackageManager → PackageManager
  named_one name [] = npm
  named_one name (pm ∷ pms) =
      let rest = named_one name pms in if equal pm.name name then pm else rest

  abbrev pub or_named : Bytes → Option PackageManager → PackageManager × Bool
  or_named name none = (named_one name package_managers, false)
  or_named name (some pm) = (pm, true)

  unfoldable pub pick_package_manager : Bytes → PackageManager × Bool
  unfolding cut read_file
  pick_package_manager field =
      let name = (cut (codes "@") field).0 in or_named name (locked_one name package_managers)

  -- What a version file says, or else `rest`.
  abbrev pub from_version_file : Result Bytes → Bytes → Bytes
  from_version_file (err e) rest = rest
  from_version_file (ok text) rest =
      let v = trim_prefix (trim_space text) (codes "v") in
      if has_prefix v (codes "lts") || equal v (codes "node")
      then codes "lts"
      else if version_re v
      then v
      else rest

  unfoldable pub node_version : Bytes → Bytes
  unfolding read_file trim_space has_prefix version_re first_number
  node_version engines = from_version_file (read_file o.root (codes ".nvmrc")) (
      from_version_file (read_file o.root (codes ".node-version"))
        (from_engines (first_number engines)))

  -- The version of the package manager that package.json asks for.
  abbrev pub asked_version : PackageManager → Bytes × Option Bytes → Bytes
  asked_version pm (name, none) = codes "latest"
  asked_version pm (name, some ver) =
      if equal name pm.name && version_re (cut (codes "+") ver).0
      then (cut (codes "+") ver).0
      else codes "latest"

  abbrev pub node_line : Bytes → Bytes
  node_line v =
      codes "# Fern's guess, from package.json.\n[tools]\nnode = " ++ (o.quoted v ++ codes "\n")

  abbrev pub tool_line : Bytes → Bytes → Bytes
  tool_line name v = name ++ (codes " = " ++ (o.quoted v ++ codes "\n"))

  unfoldable pub guessed_tools : Package → PackageManager → Bytes
  unfolding node_version cut version_re
  guessed_tools pkg pm =
      let more = tool_line pm.name (asked_version pm (cut (codes "@") pkg.package_manager)) in
      node_line (node_version pkg.node) ++ (if pm.tool then more else [])

  unfoldable pub dev_command : PackageManager → Framework → Bytes
  dev_command pm fw =
      let args = (if pm.dashdash then codes " --" else []) ++ (codes " " ++ fw.args) in
      pm.run ++ (codes " dev" ++ (if not (is_empty fw.args) then args else []))

  -- The web service's command, with the database of a Postgres.
  abbrev pub with_database : Option Postgres → Bytes → Bytes
  with_database none web = web
  with_database (some pg) web =
      codes "export DATABASE_URL=${DATABASE_URL:-postgres://"
      ++ pg.user
      ++ codes ":"
      ++ pg.password
      ++ codes "@localhost:5432/"
      ++ pg.db
      ++ codes "}; "
      ++ web

  abbrev pub postgres_service : Option Postgres → Bytes
  postgres_service none = []
  postgres_service (some pg) =
      codes "  postgres:\n    run: "
      ++ o.json_text (postgres_run pg)
      ++ codes
          "\n    stop: pg_ctl stop -D .fern/pg -m fast\n    ready: test -e .fern/pg-ready && pg_isready -q -h 127.0.0.1\n"

  unfoldable pub guessed_services : PackageManager × Bool → Framework → Option Postgres → Bytes
  unfolding dev_command postgres_run itoa
  guessed_services (pm, locked) fw pg =
      let install = if locked then pm.install else pm.fresh in
      codes "# Fern's guess, from package.json: this repository has no services.yaml.\nservices:\n"
      ++ postgres_service pg
      ++ codes "  web:\n    run: "
      ++ o.json_text (with_database pg (install ++ (codes " && exec " ++ dev_command pm fw)))
      ++ codes "\n    ready: "
      ++ o.json_text (codes "bash -c 'exec 3<>/dev/tcp/127.0.0.1/$PORT'")
      ++ codes "\n    port: "
      ++ itoa fw.port
      ++ codes "\n"

  -- A repository that pins its own tools keeps them.
  abbrev pub unless_pinned : Guess → Bool → Result Guess
  unless_pinned g has = ok (if has then record g { tools = none } else g)

  abbrev pub guess_with : Package → Option Postgres → Guess
  guess_with pkg pg =
      let picked = pick_package_manager pkg.package_manager in
      record {
        services = some (guessed_services picked (pick_framework pkg frameworks) pg);
        tools = some (guessed_tools pkg picked.0);
        inputs = guess_inputs;
      }

  abbrev pub guess_from : Option Package → Result Guess
  guess_from none = err bad_package
  guess_from (some pkg) =
      let guess =
        then_ok (compose_postgres o.root o.services_of)
          λ pg. then_ok (has_tool_files o.root o.digest) (unless_pinned (guess_with pkg pg)) in
      if has_value (codes "dev") pkg.scripts then guess else ok no_guess

  abbrev pub guess_package : Result Bytes → Result Guess
  guess_package (ok text) = guess_from (o.package_of text)
  guess_package (err e) = if is_missing e then ok no_guess else err e

  abbrev pub guess_unless : Result Bytes → Result Guess
  guess_unless (ok text) = ok no_guess
  guess_unless (err e) =
      if is_missing e then guess_package (read_file o.root (codes "package.json")) else err e

  unfoldable pub make_guess : Result Guess
  unfolding read_file then_ok compose_postgres has_tool_files has_value pick_package_manager
      pick_framework guessed_services guessed_tools
  make_guess = guess_unless (read_file o.root (codes "services.yaml"))
