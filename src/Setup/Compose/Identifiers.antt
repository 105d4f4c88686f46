-- ===== src/Setup/Compose/Identifiers.antt =====
-- What is put into the SQL and the URL of a guessed Postgres.
use fern.Prelude.{
  ◌≡◌, refl, subst, true, Option, none, some, List, [], ◌∷◌, Bytes, codes, arith, inl, inr,
  Bool-cases, equal,
}
use fern.Text.{has_prefix, trim_suffix}
use fern.Sets.{value_of, store, value_of-store}
use fern.Setup.Words.{cut, by_key, identifier, all_bytes}
use fern.Setup.Files.{Opened, Result, ok, err, is_missing, read_file}
use fern.Setup.Compose.{
  Env, Setting, table, items, neither, Service, ComposeParser, keep_plain, keep_default,
  keep_setting, keep_table, keep_cut, keep_items, compose_env, Postgres, text_or, postgres_of,
  is_postgres, first_postgres, or_next, from_parsed, from_file, postgres_in, compose_postgres,
  compose_files,
}

-- Every value is an identifier.
IsPlain : Env → Type 0
IsPlain env = (k v : Bytes) → value_of k env ≡ some v → identifier v ≡ true

abbrev pub IsSafe : Postgres → Type 0
IsSafe pg =
    (identifier pg.user ≡ true) × (identifier pg.password ≡ true) × (identifier pg.db ≡ true)

store-IsPlain :
    (k v : Bytes) (env : Env) → identifier v ≡ true → IsPlain env → IsPlain (store k v env)
unfolding IsPlain
store-IsPlain k v env h p j w e = elim (Bool-cases (equal j k)) [
  | inl same ↦
      let f : some v ≡ some w = rw (value_of-store k j v env, same) at e in ground (arith, f, h)
  | inr differ ↦ p j w (rw (value_of-store k j v env, differ) at e)
]

keep_plain-IsPlain : (k v : Bytes) (env : Env) → IsPlain env → IsPlain (keep_plain k v env)
keep_plain-IsPlain k v env p = elim (Bool-cases (identifier v)) [
  | inl h ↦ rw h (store-IsPlain k v env h p)
  | inr h ↦ rw h p
]

keep_default-IsPlain :
    (k : Bytes) (o : Option Bytes) (env : Env) → IsPlain env → IsPlain (keep_default k o env)
keep_default-IsPlain k none env p = p
keep_default-IsPlain k (some v) env p = keep_plain-IsPlain k v env p

keep_setting-IsPlain : (k v : Bytes) (env : Env) → IsPlain env → IsPlain (keep_setting k v env)
unfolding keep_setting
keep_setting-IsPlain k v env p = elim (Bool-cases (has_prefix v (codes "${"))) [
  | inl h ↦ rw h (keep_default-IsPlain k (cut (codes ":-") (trim_suffix v (codes "}"))).1 env p)
  | inr h ↦ rw h (keep_plain-IsPlain k v env p)
]

keep_table-IsPlain :
    (kvs : List (Bytes × Option Bytes)) (env : Env) → IsPlain env → IsPlain (keep_table kvs env)
keep_table-IsPlain [] env p = p
keep_table-IsPlain ((k, none) ∷ kvs) env p = keep_table-IsPlain kvs env p
keep_table-IsPlain ((k, some v) ∷ kvs) env p =
    keep_table-IsPlain kvs (keep_setting k v env) (keep_setting-IsPlain k v env p)

keep_cut-IsPlain : (kv : Bytes × Option Bytes) (env : Env) → IsPlain env → IsPlain (keep_cut kv env)
keep_cut-IsPlain (k, none) env p = p
keep_cut-IsPlain (k, some v) env p = keep_setting-IsPlain k v env p

keep_items-IsPlain :
    (is : List (Option Bytes)) (env : Env) → IsPlain env → IsPlain (keep_items is env)
keep_items-IsPlain [] env p = p
keep_items-IsPlain (none ∷ is) env p = keep_items-IsPlain is env p
keep_items-IsPlain (some s ∷ is) env p =
    keep_items-IsPlain is (keep_cut (cut (codes "=") s) env)
      (keep_cut-IsPlain (cut (codes "=") s) env p)

empty-IsPlain : IsPlain []
unfolding IsPlain value_of
empty-IsPlain k v e = absurd (ground (arith, e))

compose_env-IsPlain : (s : Setting) → IsPlain (compose_env s)
unfolding compose_env
compose_env-IsPlain (table kvs) = keep_table-IsPlain kvs [] empty-IsPlain
compose_env-IsPlain (items is) = keep_items-IsPlain is [] empty-IsPlain
compose_env-IsPlain neither = empty-IsPlain

text_or-identifier :
    (d : Bytes) (o : Option Bytes)
    → identifier d ≡ true
    → ((v : Bytes) → o ≡ some v → identifier v ≡ true)
    → identifier (text_or d o) ≡ true
text_or-identifier d none h p = h
text_or-identifier d (some []) h p = h
text_or-identifier d (some (c ∷ cs)) h p = p (c ∷ cs) refl

postgres_of-IsSafe : (env : Env) → IsPlain env → IsSafe (postgres_of env)
unfolding IsPlain postgres_of
postgres_of-IsSafe env p =
    let default : identifier (codes "postgres") ≡ true = unfold identifier all_bytes in refl in
    let user =
      text_or-identifier (codes "postgres") (value_of (codes "POSTGRES_USER") env) default
        (p (codes "POSTGRES_USER")) in
    (
      user,
      text_or-identifier (codes "postgres") (value_of (codes "POSTGRES_PASSWORD") env) default
          (p (codes "POSTGRES_PASSWORD")),
      text_or-identifier _ (value_of (codes "POSTGRES_DB") env) user (p (codes "POSTGRES_DB")),
    )

-- A result that is a Postgres is a safe one.
pub IsSafeResult : Result (Option Postgres) → Type 0
IsSafeResult (ok none) = Unit
IsSafeResult (ok (some pg)) = IsSafe pg
IsSafeResult (err e) = Unit

first_postgres-IsSafe : (svcs : List (Bytes × Service)) → IsSafeResult (ok (first_postgres svcs))
unfolding IsSafeResult first_postgres
first_postgres-IsSafe [] = tt
first_postgres-IsSafe ((name, svc) ∷ svcs) = elim (Bool-cases (is_postgres svc.image)) [
  | inl h ↦
      rw h (postgres_of-IsSafe (compose_env svc.environment) (compose_env-IsPlain svc.environment))
  | inr h ↦ rw h (first_postgres-IsSafe svcs)
]

or_next-IsSafe :
    (rest : Result (Option Postgres)) (o : Option Postgres)
    → IsSafeResult rest
    → IsSafeResult (ok o)
    → IsSafeResult (or_next rest o)
unfolding IsSafeResult
or_next-IsSafe rest none r h = r
or_next-IsSafe rest (some pg) r h = h

module _ (root : Bytes → Opened) (parse : ComposeParser) where
  from_parsed-IsSafe :
      (p : Bytes) (o : Option (List (Bytes × Service))) (rest : Result (Option Postgres))
      → IsSafeResult rest
      → IsSafeResult (from_parsed root parse p o rest)
  unfolding IsSafeResult
  from_parsed-IsSafe p none rest r = tt
  from_parsed-IsSafe p (some svcs) rest r =
      or_next-IsSafe rest (first_postgres (by_key svcs)) r (first_postgres-IsSafe (by_key svcs))

  from_file-IsSafe :
      (p : Bytes) (f : Result Bytes) (rest : Result (Option Postgres))
      → IsSafeResult rest
      → IsSafeResult (from_file root parse p f rest)
  unfolding IsSafeResult
  from_file-IsSafe p (ok text) rest r = from_parsed-IsSafe p (parse text) rest r
  from_file-IsSafe p (err e) rest r = elim (Bool-cases (is_missing e)) [
    | inl h ↦ rw h r
    | inr h ↦ rw h tt
  ]

  postgres_in-IsSafe : (ps : List Bytes) → IsSafeResult (postgres_in root parse ps)
  unfolding postgres_in IsSafeResult
  postgres_in-IsSafe [] = tt
  postgres_in-IsSafe (p ∷ ps) =
      from_file-IsSafe p (read_file root p) (postgres_in root parse ps) (postgres_in-IsSafe ps)

  -- Whatever a repository's docker-compose files hold: the user, password and database of the
  -- Postgres that is taken from them are each 1 to 63 letters, digits and underscores.
  pub compose_postgres-IsSafe :
      (pg : Postgres) → compose_postgres root parse ≡ ok (some pg) → IsSafe pg
  unfolding compose_postgres IsSafeResult
  compose_postgres-IsSafe pg e = subst IsSafeResult e (postgres_in-IsSafe compose_files)
