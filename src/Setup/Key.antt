-- ===== src/Setup/Key.antt =====
-- The golden key of a checkout, and what else is read from its services.yaml
-- (internal/setup/setup.go).
pub mod Parts
use fern.Prelude.{
  ℕ, zero, suc, Bool, true, false, ◌&&◌, ◌||◌, not, Option, none, some, List, [], ◌∷◌, ◌++◌, Bytes,
  codes, if◌then◌else◌, leb, ltb, take, equal,
}
use fern.Decimal.{ℤ, pos, negsuc}
use fern.Ids.{builder_prefix}
use fern.Setup.Words.{before, by_key}
use fern.Setup.Files.{
  Opened, Result, ok, err, then_ok, Trouble, is_missing, no_contract, bad_yaml, outside, read_file,
  file_sum, contract_files, lock_files, tool_files, has_tool_files,
}
use fern.Setup.Guess.{Guess, Outside, make_guess}

abbrev pub version : Bytes
version = codes "fern-golden-2"

abbrev pub services_yaml : Bytes
services_yaml = codes "services.yaml"

abbrev pub is_some : Option Bytes → Bool
is_some none = false
is_some (some v) = true

-- slices.Sort
abbrev pub insert : Bytes → List Bytes → List Bytes
insert p [] = p ∷ []
insert p (q ∷ qs) = if before q p then q ∷ insert p qs else p ∷ q ∷ qs

unfoldable pub sort : List Bytes → List Bytes
unfolding before
sort [] = []
sort (p ∷ ps) = insert p (sort ps)

-- slices.Compact
unfoldable pub compact : List Bytes → List Bytes
compact [] = []
compact (p ∷ []) = p ∷ []
compact (p ∷ q ∷ qs) = let rest = compact (q ∷ qs) in if equal p q then rest else p ∷ rest

abbrev pub terminated : Bytes → Bytes → Bytes
terminated s rest = s ++ 0 ∷ rest

-- What is hashed: paths and the sums of their files.
unfoldable pub hashed : List (Bytes × Bytes) → Bytes
hashed [] = []
hashed ((p, sum) ∷ ps) = terminated p (terminated sum (hashed ps))

unfoldable pub key_text : Bytes → List (Bytes × Bytes) → Bytes
unfolding hashed
key_text image ps = terminated version (terminated image (hashed ps))

-- Besides what MakeGuess reads: os.Lstat, yaml.Unmarshal of what a services.yaml lists under
-- golden.inputs and of its services' ports, and filepath.Clean and filepath.IsLocal.
pub record Checkout : Type 0 where
  pub files : Outside
  pub is_there : Bytes → Bool
  pub inputs_of : Bytes → Option (List Bytes)
  pub ports_of : Bytes → Option (List (Bytes × ℤ))
  pub clean : Bytes → Bytes
  pub is_local : Bytes → Bool

module _ (c : Checkout) where
  abbrev pub cleaned : List Bytes → Result (List Bytes)
  cleaned [] = ok []
  cleaned (p ∷ ps) =
      let rest = then_ok (cleaned ps) λ qs. ok (c.clean p ∷ qs) in
      if not (c.is_local (c.clean p)) then err (outside p) else rest

  abbrev pub listed_inputs : Option (List Bytes) → Result (List Bytes)
  listed_inputs none = err (bad_yaml services_yaml)
  listed_inputs (some ps) = cleaned ps

  abbrev pub inputs_in : Result Bytes → Result (List Bytes)
  inputs_in (ok text) = listed_inputs (c.inputs_of text)
  inputs_in (err e) = if is_missing e then ok [] else err e

  unfoldable pub golden_inputs : Result (List Bytes)
  unfolding read_file then_ok
  golden_inputs = inputs_in (read_file c.files.root services_yaml)

  -- The sums of some files, up to the first that cannot be read.
  unfoldable pub file_sums : List Bytes → Result (List (Bytes × Bytes))
  unfolding file_sum then_ok
  file_sums [] = ok []
  file_sums (p ∷ ps) =
      let rest = file_sums ps in
      then_ok (file_sum c.files.root c.files.digest p)
        λ sum. then_ok rest λ sums. ok ((p, sum) ∷ sums)

  abbrev pub any_there : List Bytes → Bool
  any_there [] = false
  any_there (p ∷ ps) = c.is_there p || any_there ps

  abbrev pub key_paths : Guess → List Bytes → List Bytes
  key_paths g inputs = compact (
      sort (
        (contract_files ++ lock_files)
        ++ ((if is_some g.services then g.inputs else []) ++ inputs)))

  abbrev pub parts_with : Guess → Result (List (Bytes × Bytes))
  parts_with g =
      let sums = then_ok golden_inputs λ inputs. file_sums (key_paths g inputs) in
      if not (any_there contract_files || is_some g.services) then err no_contract else sums

  -- What the key is made from, besides the image.
  unfoldable pub key_parts : Result (List (Bytes × Bytes))
  unfolding make_guess then_ok golden_inputs file_sums compact sort
  key_parts = then_ok (make_guess c.files) parts_with

  abbrev pub key_of : Bytes → List (Bytes × Bytes) → Bytes
  key_of image ps = builder_prefix ++ take 16 (c.files.digest (key_text image ps))

  unfoldable pub key : Bytes → Result Bytes
  unfolding key_parts key_text then_ok
  key image = then_ok key_parts λ ps. ok (key_of image ps)

  -- The tools' key, "" without tools.
  abbrev pub guessed_sum : Guess → Result Bytes
  guessed_sum g = elim g.tools [ none ↦ ok [] | some t ↦ ok (c.files.digest t) ]

  abbrev pub tools_with : Bool → Result Bytes
  tools_with true = then_ok (file_sums tool_files) λ ps. ok (c.files.digest (hashed ps))
  tools_with false = then_ok (make_guess c.files) guessed_sum

  unfoldable pub tools_key : Result Bytes
  unfolding has_tool_files make_guess then_ok file_sums hashed
  tools_key = then_ok (has_tool_files c.files.root c.files.digest) tools_with

  -- The text of services.yaml or of a guess, and whether it is guessed.
  abbrev pub services_in : Result Bytes → Result (Option Bytes × Bool)
  services_in (ok text) = ok (some text, false)
  services_in (err e) =
      let guessed = then_ok (make_guess c.files) λ g. ok (g.services, is_some g.services) in
      if is_missing e then guessed else err e

  unfoldable pub services_file : Result (Option Bytes × Bool)
  unfolding read_file make_guess then_ok
  services_file = services_in (read_file c.files.root services_yaml)

  abbrev pub is_port : ℤ → Bool
  is_port (pos n) = ltb 0 n && leb n 65535
  is_port (negsuc n) = false

  abbrev pub first_port : List (Bytes × ℤ) → ℤ
  first_port [] = pos 0
  first_port ((name, p) ∷ ps) = let rest = first_port ps in if is_port p then p else rest

  abbrev pub parsed_port : Option (List (Bytes × ℤ)) → Result ℤ
  parsed_port none = err (bad_yaml services_yaml)
  parsed_port (some ps) = ok (first_port (by_key ps))

  abbrev pub port_in : Option Bytes → Result ℤ
  port_in none = ok (pos 0)
  port_in (some text) = parsed_port (c.ports_of text)

  unfoldable pub preview_port : Result ℤ
  unfolding services_file by_key then_ok
  preview_port = then_ok services_file λ s. port_in s.0
