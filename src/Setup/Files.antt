-- ===== src/Setup/Files.antt =====
-- The files of a checkout that internal/setup reads (readFile, fileSum, hasToolFiles of
-- internal/setup/setup.go).
use fern.Prelude.{
  ℕ, ◌*◌, ◌^◌, Bool, true, false, List, [], ◌∷◌, Bytes, codes, ltb, if◌then◌else◌, equal, take, not,
}

-- What opening a path below the checkout's root finds, without following a symlink: a file of some
-- size, something that is not a file, a symlink, nothing, or another error, that of os.OpenRoot, Stat
-- or ReadAll included.
pub data Opened : Type 0 where
  file : ℕ → Bytes → Opened
  irregular symlink absent : Opened
  failing : ℕ → Opened

-- The errors of the package; `missing` is one that is fs.ErrNotExist.
pub data Trouble : Type 0 where
  missing is_symlink not_regular too_big no_contract bad_package : Trouble
  bad_yaml outside : Bytes → Trouble
  other_error : ℕ → Trouble

-- errors.Is(err, fs.ErrNotExist)
abbrev pub is_missing : Trouble → Bool
is_missing missing = true
is_missing is_symlink = false
is_missing not_regular = false
is_missing too_big = false
is_missing no_contract = false
is_missing bad_package = false
is_missing (bad_yaml p) = false
is_missing (outside p) = false
is_missing (other_error e) = false

pub data Result {ℓ} (A : Type ℓ) : Type ℓ where
  ok : A → Result A
  err : Trouble → Result A

module _ {ℓ κ} {A : Type ℓ} {B : Type κ} where
  unfoldable pub then_ok : Result A → (A → Result B) → Result B
  then_ok (ok x) f = f x
  then_ok (err e) f = err e

-- 16 << 20
abbrev pub max_file : ℕ
max_file = 16 * 2 ^ 20

unfoldable pub read_opened : Opened → Result Bytes
read_opened (file size text) = if ltb max_file size then err too_big else ok (take max_file text)
read_opened irregular = err not_regular
read_opened symlink = err is_symlink
read_opened absent = err missing
read_opened (failing e) = err (other_error e)

abbrev pub tool_files : List Bytes
tool_files =
    codes "mise.toml"
    ∷ codes ".mise.toml"
    ∷ codes ".tool-versions"
    ∷ codes ".config/mise.toml"
    ∷ codes ".config/mise/config.toml"
    ∷ []

abbrev pub contract_files : List Bytes
contract_files =
    codes "services.yaml"
    ∷ codes ".agents/setup"
    ∷ codes ".agents/prepare"
    ∷ codes ".fern/setup"
    ∷ codes ".fern/prepare"
    ∷ tool_files

abbrev pub lock_files : List Bytes
lock_files =
    codes "package-lock.json"
    ∷ codes "npm-shrinkwrap.json"
    ∷ codes "pnpm-lock.yaml"
    ∷ codes "yarn.lock"
    ∷ codes "bun.lock"
    ∷ codes "bun.lockb"
    ∷ codes "go.sum"
    ∷ codes "Cargo.lock"
    ∷ codes "uv.lock"
    ∷ codes "poetry.lock"
    ∷ codes "requirements.txt"
    ∷ codes "Gemfile.lock"
    ∷ codes "composer.lock"
    ∷ []

-- `root` is the checkout, and `digest` the SHA-256 of a text in hex.
module _ (root : Bytes → Opened) where
  unfoldable pub read_file : Bytes → Result Bytes
  unfolding read_opened
  read_file p = read_opened (root p)

  module _ (digest : Bytes → Bytes) where
    abbrev pub sum_of : Result Bytes → Result Bytes
    sum_of (ok text) = ok (digest text)
    sum_of (err e) = if is_missing e then ok (codes "missing") else err e

    unfoldable pub file_sum : Bytes → Result Bytes
    unfolding read_file
    file_sum p = sum_of (read_file p)

    unfoldable pub has_any : List Bytes → Result Bool
    unfolding file_sum
    has_any [] = ok false
    has_any (p ∷ ps) =
        let rest = has_any ps in
        then_ok (file_sum p) λ sum. if not (equal sum (codes "missing")) then ok true else rest

    unfoldable pub has_tool_files : Result Bool
    unfolding has_any
    has_tool_files = has_any tool_files
