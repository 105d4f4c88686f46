-- ===== src/Preview/Route.antt =====
-- What a host names.
use fern.Prelude.{
  ℕ, zero, suc, ◌-◌, ◌≤◌, ◌<◌, ◌≡◌, ◌⊎◌, inl, inr, refl, ap, ◌∙◌, subst, Bool, Bool-cases, true,
  false, ◌&&◌, ◌||◌, Option, none, some, List, [], ◌∷◌, ◌++◌, Bytes, codes, ◌==◌, if◌then◌else◌,
  is_empty, length, take, drop, arith, equal, equal_iff,
}
use fern.Text.{has_prefix, has_prefix_sound, has_suffix, has_suffix_sound}
use fern.Decimal.{ℤ, pos, negsuc, atoi}
use fern.Ids.{env_id_pattern}
use fern.Setup.Words.{cut}
use fern.Preview.{
  exec_port, has_dot, checked, has_plus, bad_port, number, with_port, from_cut, from_label, host_in,
  route, Answer, answered, not_found, broken, Effect, counted, uncounted, woken, done, passed,
  not_a_preview, gone, no_default, no_env, not_up, Turn, other_failure, pass_on, serve_box,
  serve_port, serve_default, serve,
}

-- `label` is the environment's ID, or a port, a dash and the ID.
abbrev pub Names : Bytes → Bytes → ℕ → Type 0
Names label id port =
    ((port ≡ 0) × (label ≡ id))
    ⊎ ((p : Bytes) × (atoi p ≡ some (pos port)) × (0 < port) × (label ≡ p ++ b'-' ∷ id))

abbrev pub IsRoute : Bytes → Bytes → ℕ → Type 0
IsRoute label id port =
    (env_id_pattern id ≡ true)
    × (port ≤ 65535)
    × ((port == exec_port) ≡ false)
    × Names label id port

abbrev IsRouteOr : Bytes → Option (Bytes × ℕ) → Type 0
IsRouteOr label none = Unit
IsRouteOr label (some (id, port)) = IsRoute label id port

cut_sound : (sep s r : Bytes) → (cut sep s).1 ≡ some r → s ≡ (cut sep s).0 ++ (sep ++ r)
unfolding cut
cut_sound sep [] r h = absurd (ground (arith, h))
cut_sound sep (x ∷ xs) r h = elim (Bool-cases (has_prefix (x ∷ xs) sep)) [
  | inl y ↦
      let e : drop (length sep) (x ∷ xs) ≡ r = ground (arith, rw y at h) in
      rw y (has_prefix_sound (x ∷ xs) sep y ∙ ap (λ t. sep ++ t) e)
  | inr n ↦ rw n (ap (◌∷◌ x) (cut_sound sep xs r (rw n at h)))
]

checked-IsRoute :
    (label id : Bytes) (port : ℕ)
    → port ≤ 65535
    → (port == exec_port) ≡ false
    → Names label id port
    → IsRouteOr label (checked id port)
checked-IsRoute label id port h k n = elim (Bool-cases (env_id_pattern id)) [
  | inl y ↦ rw y (y, h, k, n)
  | inr f ↦ rw f tt
]

whole-IsRoute : (label : Bytes) → IsRouteOr label (checked label 0)
whole-IsRoute label = checked-IsRoute label label 0 (omega arith) refl (inl (refl, refl))

with_port-IsRoute :
    (label p env : Bytes) (o : Option ℤ)
    → atoi p ≡ o
    → label ≡ p ++ b'-' ∷ env
    → IsRouteOr label (with_port label p env o)
with_port-IsRoute label p env none h e = whole-IsRoute label
with_port-IsRoute label p env (some n) h e = elim (Bool-cases (has_plus p)) [
  | inl y ↦ rw y (whole-IsRoute label)
  | inr k ↦ rw k (plain n h)
]
  where
    plain :
        (n : ℤ)
        → atoi p ≡ some n
        → IsRouteOr label (if bad_port n then none else checked env (number n))
    plain (negsuc n) h = tt
    plain (pos n) h = elim (Bool-cases (bad_port (pos n))) [
      | inl bad ↦ rw bad tt
      | inr good ↦
          rw good (
            checked-IsRoute label env n (ground arith) (ground arith) (inr (p, h, ground arith, e)))
    ]

from_cut-IsRoute :
    (label : Bytes) (c : Bytes × Option Bytes)
    → ((r : Bytes) → c.1 ≡ some r → label ≡ c.0 ++ b'-' ∷ r)
    → IsRouteOr label (from_cut label c)
from_cut-IsRoute label (p, none) h = whole-IsRoute label
from_cut-IsRoute label (p, some []) h = whole-IsRoute label
from_cut-IsRoute label (p, some (x ∷ xs)) h =
    with_port-IsRoute label p (x ∷ xs) (atoi p) refl (h (x ∷ xs) refl)

from_label-IsRoute : (label : Bytes) → IsRouteOr label (from_label label)
unfolding from_label
from_label-IsRoute label = elim (Bool-cases (is_empty label || has_dot label)) [
  | inl y ↦ rw y tt
  | inr n ↦
      rw n (from_cut-IsRoute label (cut (codes "-") label) λ r e. cut_sound (codes "-") label r e)
]

route-IsRoute :
    (split : Bytes → Option Bytes) (lowered : Bytes → Bytes) (host hostport id : Bytes) (port : ℕ)
    → route split lowered host hostport ≡ some (id, port)
    → (label : Bytes) × (lowered (host_in hostport (split hostport)) ≡ label ++ b'.' ∷ host)
      × IsRoute label id port
unfolding route
route-IsRoute split lowered host hostport id port e =
    let name = lowered (host_in hostport (split hostport)) in
    elim (Bool-cases (has_suffix name (b'.' ∷ host))) [
      | inr n ↦ let f : none ≡ some (id, port) = rw n at e in absurd (ground (arith, f))
      | inl y ↦
          let label = take (length name - length (b'.' ∷ host)) name in
          let f : from_label label ≡ some (id, port) = rw y at e in
          (
            label,
            has_suffix_sound name (b'.' ∷ host) y,
            subst (IsRouteOr label) f (from_label-IsRoute label),
          )
    ]

abbrev is_passed : Bytes → ℕ → Effect → Bool
is_passed h port (passed k q) = equal h k && port == q
is_passed h port (counted id) = false
is_passed h port (uncounted id) = false
is_passed h port (woken id) = false
is_passed h port (done id) = false
is_passed h port not_a_preview = false
is_passed h port gone = false
is_passed h port (no_default id) = false
is_passed h port (no_env id) = false
is_passed h port (not_up id) = false

-- The request is passed on to this port of this host.
abbrev pub passes : Bytes → ℕ → List Effect → Bool
passes h port [] = false
passes h port (e ∷ es) = is_passed h port e || passes h port es

-- The port of the environment's box that is asked for, 0 for its default preview
abbrev pub IsPort : Turn → Bytes → ℕ → ℕ → Type 0
IsPort o id asked port =
    ((asked ≡ port) × (0 < port)) ⊎ ((asked ≡ 0) × (o.default_port id ≡ answered port))

-- The host is the one of the address of the environment's box.
abbrev pub IsHost : Turn → Bytes → Bytes → Type 0
IsHost o id h = (addr : Bytes) × (o.preview id ≡ answered addr) × (o.host_of addr ≡ some h)

module _ (o : Turn) (id h : Bytes) (port : ℕ) where
  no_failure : is_passed h port (other_failure o id) ≡ false
  no_failure = ground arith

  pass_on-passes :
      (asked : ℕ) (x : Option Bytes)
      → is_passed h port (pass_on o id asked x) ≡ true
      → (x ≡ some h) × (asked ≡ port)
  pass_on-passes asked none e = absurd (ground (arith, no_failure, e))
  pass_on-passes asked (some k) e = ground (arith, equal_iff h k, e)

  serve_box-passes :
      (asked : ℕ) (x : Answer Bytes)
      → o.preview id ≡ x
      → passes h port (serve_box o id asked x ++ uncounted id ∷ []) ≡ true
      → IsHost o id h × (asked ≡ port)
  serve_box-passes asked not_found k e = absurd (ground (arith, e))
  serve_box-passes asked broken k e = absurd (ground (arith, no_failure, e))
  serve_box-passes asked (answered addr) k e =
      let (u, v) = pass_on-passes asked (o.host_of addr) (ground arith) in ((addr, k, u), v)

  serve_port-passes :
      (asked : ℕ) → passes h port (serve_port o id asked) ≡ true → IsHost o id h × (asked ≡ port)
  serve_port-passes asked e = serve_box-passes asked (o.preview id) refl e

  serve_default-passes :
      (x : Answer ℕ)
      → o.default_port id ≡ x
      → passes h port (serve_default o id x) ≡ true
      → IsHost o id h × (o.default_port id ≡ answered port)
  serve_default-passes not_found k e = absurd (ground (arith, e))
  serve_default-passes broken k e = absurd (ground (arith, no_failure, e))
  serve_default-passes (answered zero) k e = absurd (ground (arith, e))
  serve_default-passes (answered (suc n)) k e =
      let (u, v) = serve_port-passes (suc n) e in (u, k ∙ ap (λ p. answered p) v)

serve-passes :
    (o : Turn) (h : Bytes) (port : ℕ) (r : Option (Bytes × ℕ))
    → passes h port (serve o r) ≡ true
    → (id : Bytes) × (asked : ℕ) × (r ≡ some (id, asked))
unfolding serve
serve-passes o h port none e = absurd (ground (arith, e))
serve-passes o h port (some (i, n)) e = (i, n, refl)

serve-some-passes :
    (o : Turn) (id h : Bytes) (port asked : ℕ)
    → passes h port (serve o (some (id, asked))) ≡ true
    → IsHost o id h × IsPort o id asked port
unfolding serve
serve-some-passes o id h port zero e =
    let (u, v) = serve_default-passes o id h port (o.default_port id) refl e in (u, inr (refl, v))
serve-some-passes o id h port (suc n) e =
    let (u, v) = serve_port-passes o id h port (suc n) e in (u, inl (v, omega (arith, v)))

-- A request is passed on only if the host that it names is, in lower case, a label, a dot and the
-- previews' host, and the label is a valid environment ID, or a port of 1 to 65535 that is not the
-- exec server's, a dash and such an ID. It goes to the host of the address of that environment's box,
-- and to the port that the label names, or, if it names none, to the port of the environment's default
-- preview, which can be any.
pub serve_sound :
    (split : Bytes → Option Bytes) (lowered : Bytes → Bytes) (host hostport h : Bytes) (port : ℕ)
    (o : Turn)
    → passes h port (serve o (route split lowered host hostport)) ≡ true
    → (id : Bytes) × (asked : ℕ) × (label : Bytes) × (lowered (host_in hostport (split hostport))
        ≡ label ++ b'.' ∷ host)
      × IsRoute label id asked
      × IsHost o id h
      × IsPort o id asked port
serve_sound split lowered host hostport h port o e =
    let (id, asked, r) = serve-passes o h port (route split lowered host hostport) e in
    let (label, named, k) = route-IsRoute split lowered host hostport id asked r in
    let (u, v) =
      serve-some-passes o id h port asked (subst (λ x. passes h port (serve o x) ≡ true) r e) in
    (id, asked, label, named, k, u, v)
