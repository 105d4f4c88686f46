-- ===== src/Setup/Guess/Versions.antt =====
-- What is put into the guessed mise config.
use fern.Prelude.{
  ℕ, ◌<◌, ◌≡◌, ◌⊎◌, inl, inr, refl, subst, Bool, Bool-cases, true, false, ◌&&◌, ◌||◌, Option, none,
  some, List, [], ◌∷◌, ◌++◌, Bytes, codes, is_empty, equal, length, All, arith, append-nil,
}
use fern.Text.{has_prefix}
use fern.Setup.Words.{
  cut, trim_prefix, trim_space, version_re, version_byte, all_bytes, is_digit, digits, first_number,
}
use fern.Setup.Files.{Result, ok, err, then_ok, is_missing, read_file, has_tool_files}
use fern.Setup.Compose.{compose_postgres}
use fern.Setup.Frameworks.{PackageManager, package_managers}
use fern.Setup.Guess.{
  Guess, Package, has_value, Outside, locked_one, named_one, or_named, pick_package_manager,
  from_engines, from_version_file, node_version, asked_version, node_line, tool_line, guessed_tools,
  unless_pinned, guess_with, guess_from, guess_package, guess_unless, make_guess, is_read,
}

-- At least one character, and none but letters, digits, dots and dashes.
abbrev pub IsVersion : Bytes → Type 0
IsVersion v = (0 < length v) × (all_bytes version_byte v ≡ true)

version_re-IsVersion : (v : Bytes) → version_re v ≡ true → IsVersion v
unfolding version_re
version_re-IsVersion [] h = absurd (ground (arith, h))
version_re-IsVersion (c ∷ cs) h = (omega arith, ground (arith, h))

digits-version : (cs : Bytes) → all_bytes version_byte (digits cs) ≡ true
unfolding all_bytes digits
digits-version [] = refl
digits-version (c ∷ cs) = ground (arith, digits-version cs)

digit-version :
    (c : ℕ) (s : Bytes)
    → is_digit c ≡ true
    → all_bytes version_byte s ≡ true
    → all_bytes version_byte (c ∷ s) ≡ true
unfolding all_bytes
digit-version c s h k = ground arith

engines-IsVersion : (s : Bytes) → IsVersion (from_engines (first_number s))
unfolding first_number
engines-IsVersion [] = (omega arith, (unfold all_bytes in refl))
engines-IsVersion (c ∷ cs) = elim (Bool-cases (is_digit c)) [
  | inl h ↦ rw h (omega arith, digit-version c (digits cs) h (digits-version cs))
  | inr h ↦ rw h (engines-IsVersion cs)
]

module _ (o : Outside) where
  from_version_file-IsVersion :
      (f : Result Bytes) (rest : Bytes) → IsVersion rest → IsVersion (from_version_file o f rest)
  from_version_file-IsVersion (err e) rest h = h
  from_version_file-IsVersion (ok text) rest h =
      let v = trim_prefix (trim_space text) (codes "v") in
      elim (Bool-cases (has_prefix v (codes "lts") || equal v (codes "node"))) [
        | inl lts ↦ rw lts (omega arith, (unfold all_bytes in refl))
        | inr plain ↦ rw plain (elim (Bool-cases (version_re v)) [
          | inl k ↦ rw k (version_re-IsVersion v k)
          | inr k ↦ rw k h
        ])
      ]

  node_version-IsVersion : (engines : Bytes) → IsVersion (node_version o engines)
  unfolding node_version
  node_version-IsVersion engines =
      from_version_file-IsVersion (read_file o.root (codes ".nvmrc")) _ (
        from_version_file-IsVersion (read_file o.root (codes ".node-version")) _
          (engines-IsVersion engines))

  asked_version-IsVersion :
      (pm : PackageManager) (c : Bytes × Option Bytes) → IsVersion (asked_version o pm c)
  asked_version-IsVersion pm (name, none) = (omega arith, (unfold all_bytes in refl))
  asked_version-IsVersion pm (name, some ver) =
      let v = (cut (codes "+") ver).0 in
      elim (Bool-cases (equal name pm.name && version_re v)) [
        | inl h ↦ rw h (version_re-IsVersion v (ground (arith, h)))
        | inr h ↦ rw h (omega arith, (unfold all_bytes in refl))
      ]

  -- The package managers that mise installs.
  abbrev IsKnown : PackageManager → Type 0
  IsKnown pm = (pm.tool ≡ false) ⊎ ((pm.name ≡ codes "pnpm") ⊎ (pm.name ≡ codes "bun"))

  package_managers-IsKnown : All IsKnown package_managers
  package_managers-IsKnown =
      (inr (inl refl), (inr (inr refl), (inr (inr refl), (inl refl, (inl refl, tt)))))

  abbrev IsKnownOr : Option PackageManager → Type 0
  IsKnownOr none = Unit
  IsKnownOr (some pm) = IsKnown pm

  locked_one-IsKnown :
      (name : Bytes) (pms : List PackageManager)
      → All IsKnown pms
      → IsKnownOr (locked_one o name pms)
  locked_one-IsKnown name [] h = tt
  locked_one-IsKnown name (pm ∷ pms) h =
      elim (Bool-cases
        (is_read (read_file o.root pm.lock) && (is_empty name || equal name pm.name))) [
          | inl e ↦ rw e h.0
          | inr e ↦ rw e (locked_one-IsKnown name pms h.1)
        ]

  named_one-IsKnown :
      (name : Bytes) (pms : List PackageManager) → All IsKnown pms → IsKnown (named_one o name pms)
  named_one-IsKnown name [] h = inl refl
  named_one-IsKnown name (pm ∷ pms) h = elim (Bool-cases (equal pm.name name)) [
    | inl e ↦ rw e h.0
    | inr e ↦ rw e (named_one-IsKnown name pms h.1)
  ]

  or_named-IsKnown :
      (name : Bytes) (p : Option PackageManager) → IsKnownOr p → IsKnown (or_named o name p).0
  or_named-IsKnown name none h = named_one-IsKnown name package_managers package_managers-IsKnown
  or_named-IsKnown name (some pm) h = h

  picked-IsKnown : (field : Bytes) → IsKnown (pick_package_manager o field).0
  unfolding pick_package_manager
  picked-IsKnown field =
      let name = (cut (codes "@") field).0 in
      or_named-IsKnown name (locked_one o name package_managers)
        (locked_one-IsKnown name package_managers package_managers-IsKnown)

  -- Node's version, and that of pnpm or bun.
  pub IsPinned : Bytes → Type 0
  IsPinned t =
      (v : Bytes) × IsVersion v
      × ((t ≡ node_line o v)
          ⊎ ((name : Bytes) × (w : Bytes) × ((name ≡ codes "pnpm") ⊎ (name ≡ codes "bun"))
              × IsVersion w
              × (t ≡ node_line o v ++ tool_line o name w)))

  abbrev IsPinnedOr : Option Bytes → Type 0
  IsPinnedOr none = Unit
  IsPinnedOr (some t) = IsPinned t

  abbrev IsPinnedResult : Result Guess → Type 0
  IsPinnedResult (ok g) = IsPinnedOr g.tools
  IsPinnedResult (err e) = Unit

  guessed_tools-IsPinned :
      (pkg : Package) (pm : PackageManager) → IsKnown pm → IsPinned (guessed_tools o pkg pm)
  unfolding guessed_tools IsPinned
  guessed_tools-IsPinned pkg pm (inl no_tool) =
      let v = node_version o pkg.node in
      (v, node_version-IsVersion pkg.node, inl (rw no_tool (append-nil (node_line o v))))
  guessed_tools-IsPinned pkg pm (inr known) = elim (Bool-cases pm.tool) [
    | inl tool ↦
        let asked = cut (codes "@") pkg.package_manager in
        (
          node_version o pkg.node,
          node_version-IsVersion pkg.node,
          inr (
            pm.name,
            asked_version o pm asked,
            known,
            asked_version-IsVersion pm asked,
            rw tool refl,
          ),
        )
    | inr no_tool ↦
        let v = node_version o pkg.node in
        (v, node_version-IsVersion pkg.node, inl (rw no_tool (append-nil (node_line o v))))
  ]

  unless_pinned-IsPinned :
      (g : Guess) (has : Bool) → IsPinnedOr g.tools → IsPinnedResult (unless_pinned o g has)
  unless_pinned-IsPinned g true h = tt
  unless_pinned-IsPinned g false h = h

  then_ok-IsPinned :
      {A : Type 0} (r : Result A) (f : A → Result Guess)
      → ((x : A) → IsPinnedResult (f x))
      → IsPinnedResult (then_ok r f)
  unfolding then_ok
  then_ok-IsPinned (ok x) f h = h x
  then_ok-IsPinned (err e) f h = tt

  guess_from-IsPinned : (p : Option Package) → IsPinnedResult (guess_from o p)
  guess_from-IsPinned none = tt
  guess_from-IsPinned (some pkg) = elim (Bool-cases (has_value (codes "dev") pkg.scripts)) [
    | inr none_there ↦ rw none_there tt
    | inl there ↦ rw there (
        then_ok-IsPinned (compose_postgres o.root o.services_of) _ λ pg.
          then_ok-IsPinned (has_tool_files o.root o.digest) _ λ has.
            unless_pinned-IsPinned (guess_with o pkg pg) has (
              guessed_tools-IsPinned pkg (pick_package_manager o pkg.package_manager).0
                (picked-IsKnown pkg.package_manager)))
  ]

  guess_package-IsPinned : (f : Result Bytes) → IsPinnedResult (guess_package o f)
  guess_package-IsPinned (ok text) = guess_from-IsPinned (o.package_of text)
  guess_package-IsPinned (err e) = elim (Bool-cases (is_missing e)) [
    | inl h ↦ rw h tt
    | inr h ↦ rw h tt
  ]

  guess_unless-IsPinned : (f : Result Bytes) → IsPinnedResult (guess_unless o f)
  guess_unless-IsPinned (ok text) = tt
  guess_unless-IsPinned (err e) = elim (Bool-cases (is_missing e)) [
    | inl h ↦ rw h (guess_package-IsPinned (read_file o.root (codes "package.json")))
    | inr h ↦ rw h tt
  ]

  -- Whatever a repository holds: the mise config of its guess is the fixed text around a version of
  -- Node and, if there is one more line, a version of pnpm or bun, each of at least one character and
  -- of letters, digits, dots and dashes only.
  pub make_guess-IsPinned :
      (g : Guess) (t : Bytes) → make_guess o ≡ ok g → g.tools ≡ some t → IsPinned t
  unfolding make_guess
  make_guess-IsPinned g t e f =
      subst IsPinnedOr f
        (subst IsPinnedResult e (guess_unless-IsPinned (read_file o.root (codes "services.yaml"))))
