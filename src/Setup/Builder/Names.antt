-- ===== src/Setup/Builder/Names.antt =====
-- The names of builders and of their sources are names of environments, and never meet.
use fern.Prelude.{
  ℕ, suc, ◌+◌, ◌-◌, ◌≡◌, ◌≤◌, ◌<◌, refl, sym, ap, ◌∙◌, subst, Bool, true, false, ◌&&◌, ◌||◌, none,
  some, List, [], ◌∷◌, ◌++◌, map, Bytes, codes, ltb, leb, ◌==◌, is_empty, length, take, drop,
  take-append_length, arith, inl, inr, Bool-cases, All, equal_iff, length-append, length-take,
  All-append, All-map, All-take, All-drop,
}
use fern.Text.{has_prefix, has_suffix, has_suffix-append}
use fern.Ids.{is_lower_alnum, label_end, env_id_pattern, is_builder}
use fern.Setup.Builder.{
  source_suffix, trim_left, trim_right, trim, label_byte, cut_readable, or_repo, readable,
  builder_id, source_id, builder_of,
}

abbrev is_label_byte : ℕ → Bool
is_label_byte c = c == b'-' || is_lower_alnum c

abbrev is_hex : ℕ → Bool
is_hex c = (leb b'0' c && leb c b'9') || (leb b'a' c && leb c b'f')

-- What hex.EncodeToString makes of 32 bytes.
abbrev pub IsDigest : Bytes → Type 0
IsDigest s = (length s ≡ 64) × All (λ c. is_hex c ≡ true) s

abbrev IsLabel : Bytes → Type 0
IsLabel s = All (λ c. is_label_byte c ≡ true) s

label_end-append : (s t : Bytes) → IsLabel s → label_end t ≡ true → label_end (s ++ t) ≡ true
unfolding label_end
label_end-append [] t h e = e
label_end-append (c ∷ []) [] h e = ground arith
label_end-append (c ∷ []) (d ∷ t) h e = ground (arith, h.0)
label_end-append (c ∷ d ∷ s) t h e = ground (arith, h.0, label_end-append (d ∷ s) t h.1 e)

hex-label_end : (s : Bytes) → 0 < length s → All (λ c. is_hex c ≡ true) s → label_end s ≡ true
unfolding label_end
hex-label_end [] p h = absurd (omega arith)
hex-label_end (c ∷ []) p h = ground (arith, h.0)
hex-label_end (c ∷ d ∷ s) p h = ground (arith, h.0, hex-label_end (d ∷ s) (omega arith) h.1)

label-env_id :
    (c : ℕ) (s : Bytes)
    → is_lower_alnum c ≡ true
    → label_end s ≡ true
    → length s ≤ 62
    → env_id_pattern (c ∷ s) ≡ true
unfolding env_id_pattern
label-env_id c [] h e l = h
label-env_id c (d ∷ s) h e l = ground arith

trim_left-IsLabel :
    (s : Bytes) → IsLabel s → IsLabel (trim_left s) × (length (trim_left s) ≤ length s)
unfolding trim_left
trim_left-IsLabel [] h = (tt, omega arith)
trim_left-IsLabel (c ∷ s) h = elim (Bool-cases (c == b'-')) [
  | inl e ↦ rw e (let k = trim_left-IsLabel s h.1 in (k.0, omega arith))
  | inr e ↦ rw e (h, omega arith)
]

trim_right-IsLabel :
    (s : Bytes) → IsLabel s → IsLabel (trim_right s) × (length (trim_right s) ≤ length s)
unfolding trim_right
trim_right-IsLabel [] h = (tt, omega arith)
trim_right-IsLabel (c ∷ s) h =
    let k = trim_right-IsLabel s h.1 in
    elim (Bool-cases (c == b'-' && is_empty (trim_right s))) [
      | inl e ↦ rw e (tt, omega arith)
      | inr e ↦ rw e ((h.0, k.0), omega (arith, k.1))
    ]

trim-IsLabel : (s : Bytes) → IsLabel s → IsLabel (trim s) × (length (trim s) ≤ length s)
trim-IsLabel s h =
    let (l, m) = trim_left-IsLabel s h in
    let (r, n) = trim_right-IsLabel (trim_left s) l in (r, omega (arith, m, n))

IsShort : Bytes → Type 0
IsShort s = IsLabel s × (length s ≤ 30)

cut_readable-IsShort : (s : Bytes) → IsLabel s → IsShort (cut_readable s)
unfolding cut_readable IsShort
cut_readable-IsShort s h = elim (Bool-cases (ltb 30 (length s))) [
  | inl long ↦ rw long (
      let (l, m) = trim-IsLabel (take 30 s) (All-take (λ c. is_label_byte c ≡ true) 30 s h) in
      (l, omega (arith, m, length-take 30 s)))
  | inr few ↦ rw few (h, ground arith)
]

or_repo-IsShort : (s : Bytes) → IsShort s → IsShort (or_repo s)
unfolding or_repo IsShort
or_repo-IsShort [] h = ((refl, (refl, (refl, (refl, tt)))), omega arith)
or_repo-IsShort (c ∷ s) h = h

map-IsLabel : (rs : List ℕ) → IsLabel (map label_byte rs)
map-IsLabel [] = tt
map-IsLabel (r ∷ rs) = elim (Bool-cases (is_lower_alnum r)) [
  | inl e ↦ (rw (e, e) (ground arith), map-IsLabel rs)
  | inr e ↦ (rw e refl, map-IsLabel rs)
]

drop-append_more : (s t : Bytes) (n : ℕ) → drop (length s + n) (s ++ t) ≡ drop n t
drop-append_more [] t n = ap (λ m. drop m t) (omega arith)
drop-append_more (c ∷ s) t n =
    let next : suc (length s) + n ≡ suc (length s + n) = omega arith in
    ap (λ m. drop m (c ∷ (s ++ t))) next ∙ drop-append_more s t n

-- A name that ends in hex does not end in the suffix of sources.
hex-has_suffix :
    (s d : Bytes)
    → length d ≡ 8
    → All (λ c. is_hex c ≡ true) d
    → has_suffix (s ++ d) source_suffix ≡ false
unfolding has_suffix
hex-has_suffix s d l h = elim (Bool-cases (has_suffix (s ++ d) source_suffix)) [
  | inr e ↦ e
  | inl e ↦
      let tail : drop (length (s ++ d) - 4) (s ++ d) ≡ source_suffix =
        ground (arith, equal_iff (drop (length (s ++ d) - 4) (s ++ d)) source_suffix) in
      let at : length (s ++ d) - 4 ≡ length s + 4 = omega (arith, length-append s d) in
      let e' : drop 4 d ≡ source_suffix =
        sym (ap (λ n. drop n (s ++ d)) at ∙ drop-append_more s d 4) ∙ tail in
      let k = subst (All (λ c. is_hex c ≡ true)) e' (All-drop (λ c. is_hex c ≡ true) 4 d h) in
      absurd (ground (arith, k.0))
]

module _ (lowered : Bytes → List ℕ) (digest : Bytes → Bytes) (repo : Bytes)
    (hex : IsDigest (digest repo)) where
  abbrev hash_end : Bytes
  hash_end = take 8 (digest repo)

  readable-IsShort : IsShort (readable lowered digest repo)
  unfolding readable
  readable-IsShort =
      let start = map label_byte (lowered repo) in
      or_repo-IsShort _
        (cut_readable-IsShort (trim start) (trim-IsLabel start (map-IsLabel (lowered repo))).0)

  abbrev olden : Bytes
  olden = codes "olden-" ++ (readable lowered digest repo ++ b'-' ∷ [])

  front-IsLabel : IsLabel olden
  unfolding IsShort
  front-IsLabel = (
    refl,
    (
      refl,
      (
        refl,
        (
          refl,
          (
            refl,
            (refl, All-append _ (readable lowered digest repo) _ readable-IsShort.0 (refl, tt)),
          ),
        ),
      ),
    ),
  )

  hash_end-hex : (length hash_end ≡ 8) × All (λ c. is_hex c ≡ true) hash_end
  hash_end-hex = (
    omega (arith, length-take 8 (digest repo), hex.0),
    All-take (λ c. is_hex c ≡ true) 8 (digest repo) hex.1,
  )

  front-short : length olden ≤ 37
  unfolding IsShort
  front-short =
      omega (arith, length-append (readable lowered digest repo) (b'-' ∷ []), readable-IsShort.1)

  hash_end-IsLabel : IsLabel hash_end
  hash_end-IsLabel =
      All-map (λ c. is_hex c ≡ true) (λ c. is_label_byte c ≡ true) hash_end
        (λ c h. ground (arith, h)) hash_end-hex.1

  builder-env_id : env_id_pattern (builder_id lowered digest repo) ≡ true
  unfolding builder_id
  builder-env_id =
      label-env_id b'g' (olden ++ hash_end) refl
        (label_end-append olden hash_end front-IsLabel
          (hex-label_end hash_end (omega (arith, hash_end-hex.0)) hash_end-hex.1))
        (omega (arith, length-append olden hash_end, front-short, hash_end-hex.0))

  source-env_id : env_id_pattern (source_id lowered digest repo) ≡ true
  unfolding source_id builder_id
  source-env_id =
      label-env_id b'g' ((olden ++ hash_end) ++ source_suffix) refl
        (label_end-append (olden ++ hash_end) source_suffix
          (All-append _ olden hash_end front-IsLabel hash_end-IsLabel) (unfold label_end in refl))
        (omega (
          arith,
          length-append (olden ++ hash_end) source_suffix,
          length-append olden hash_end,
          front-short,
          hash_end-hex.0,
        ))

  builder_of-builder : builder_of (builder_id lowered digest repo) ≡ none
  unfolding builder_of builder_id is_builder has_prefix
  builder_of-builder =
      rw (hex-has_suffix (b'g' ∷ olden) hash_end hash_end-hex.0 hash_end-hex.1) refl

  builder_of-source :
      builder_of (source_id lowered digest repo) ≡ some (builder_id lowered digest repo)
  unfolding builder_of source_id builder_id is_builder has_prefix
  builder_of-source =
      let id = b'g' ∷ (olden ++ hash_end) in
      let before : length (id ++ source_suffix) - 4 ≡ length id =
        omega (arith, length-append id source_suffix) in
      rw (has_suffix-append id source_suffix) (
        ap some
          (ap (λ n. take n (id ++ source_suffix)) before ∙ take-append_length id source_suffix))

-- For any repository, if its digest is one: the names of its builder and of its source are ones that
-- CheckEnvID accepts, BuilderOf takes the source to the builder, and the builder to none, so that no
-- repository's source is another's builder.
pub builder_of-source_id :
    (lowered : Bytes → List ℕ) (digest : Bytes → Bytes) (repo : Bytes)
    → IsDigest (digest repo)
    → (env_id_pattern (builder_id lowered digest repo) ≡ true)
      × (env_id_pattern (source_id lowered digest repo) ≡ true)
      × (builder_of (source_id lowered digest repo) ≡ some (builder_id lowered digest repo))
      × (builder_of (builder_id lowered digest repo) ≡ none)
builder_of-source_id lowered digest repo hex = (
  builder-env_id lowered digest repo hex,
  source-env_id lowered digest repo hex,
  builder_of-source lowered digest repo hex,
  builder_of-builder lowered digest repo hex,
)
