-- ===== src/Hibernate/Output/Pieces.antt =====
-- How Claude's output is cut into writes makes no difference.
use fern.Prelude.{
  ◌≡◌, refl, sym, ap, ◌∙◌, Bool, true, false, Option, none, some, [], ◌∷◌, ◌++◌, append_assoc,
  append-nil, Bytes, ◌==◌, if◌then◌else◌, All, All-append, inl, inr, Bool-cases,
}
use fern.Hibernate.Output.{Sink, Writer, newline, after_put, after_keep, pass, write}

abbrev pub IsPartial : Bytes → Type 0
IsPartial bs = All (λ c. (c == newline) ≡ false) bs

module _ {K W : Type 0} (s : Sink K W) where
  -- What has passed, if it has, and then the rest.
  abbrev and_pass : Bytes → Writer K W → Writer K W
  and_pass q r = if r.failed then r else pass s r.buf q r.kept r.out

  after_keep-and_pass :
      (o : K × Bool) (w : W) (line q : Bytes) (f g : K → W → Writer K W)
      → ((k : K) (v : W) → f k v ≡ and_pass q (g k v))
      → after_keep s o w line f ≡ and_pass q (after_keep s o w line g)
  after_keep-and_pass (k, true) w line q f g h = putting (s.put w line)
    where
      putting : (o : Option W) → after_put s k o w f ≡ and_pass q (after_put s k o w g)
      putting none = refl
      putting (some v) = h k v
  after_keep-and_pass (k, false) w line q f g h = h k w

  pass-append :
      (acc p q : Bytes) (k : K) (w : W) → pass s acc (p ++ q) k w ≡ and_pass q (pass s acc p k w)
  unfolding pass
  pass-append acc [] q k w = refl
  pass-append acc (c ∷ p) q k w = elim (Bool-cases (c == newline)) [
    | inl e ↦ rw e (
        after_keep-and_pass (s.keep k acc) w (acc ++ newline ∷ []) q (pass s [] (p ++ q))
          (pass s [] p) (λ k v. pass-append [] p q k v))
    | inr e ↦ rw e (pass-append (acc ++ c ∷ []) p q k w)
  ]

  -- The start of a line only waits.
  pass-partial :
      (acc p q : Bytes) (k : K) (w : W)
      → IsPartial p
      → pass s acc (p ++ q) k w ≡ pass s (acc ++ p) q k w
  unfolding pass
  pass-partial acc [] q k w h = rw (append-nil acc) refl
  pass-partial acc (c ∷ p) q k w h =
      rw (h.0) (pass-partial (acc ++ c ∷ []) p q k w h.1 ∙ rw (append_assoc acc (c ∷ []) p) refl)

  after_keep-IsPartial :
      (o : K × Bool) (w : W) (line : Bytes) (f : K → W → Writer K W)
      → ((k : K) (v : W) → IsPartial (f k v).buf)
      → IsPartial (after_keep s o w line f).buf
  after_keep-IsPartial (k, true) w line f h = putting (s.put w line)
    where
      putting : (o : Option W) → IsPartial (after_put s k o w f).buf
      putting none = tt
      putting (some v) = h k v
  after_keep-IsPartial (k, false) w line f h = h k w

  pass-IsPartial :
      (acc p : Bytes) (k : K) (w : W) → IsPartial acc → IsPartial (pass s acc p k w).buf
  unfolding pass
  pass-IsPartial acc [] k w h = h
  pass-IsPartial acc (c ∷ p) k w h = elim (Bool-cases (c == newline)) [
    | inl e ↦ rw e (
        after_keep-IsPartial (s.keep k acc) w (acc ++ newline ∷ []) (pass s [] p)
          (λ k v. pass-IsPartial [] p k v tt))
    | inr e ↦ rw e (
        pass-IsPartial (acc ++ c ∷ []) p k w
          (All-append (λ c. (c == newline) ≡ false) acc (c ∷ []) h (e, tt)))
  ]

abbrev passes : {K W : Type 0} → Sink K W → Bytes → Writer K W → Writer K W
passes s p l = pass s [] (l.buf ++ p) l.kept l.out

-- What the SDK, `keep` and the next write see of a writer: its buffer, unless it has failed.
abbrev pub end_of : {K W : Type 0} → Writer K W → K × W × Bool × Bytes
end_of l = (l.kept, l.out, l.failed, if l.failed then [] else l.buf)

write-end_of :
    {K W : Type 0} (s : Sink K W) (p : Bytes) (l : Writer K W)
    → end_of (write s p l) ≡ end_of (passes s p l)
unfolding write
write-end_of {K = K} {W = W} s p l = settled (passes s p l)
  where
    settled :
        (r : Writer K W) → end_of (if r.failed then record r { buf = l.buf ++ p } else r) ≡ end_of r
    settled r = elim (Bool-cases r.failed) [ inl e ↦ rw e refl | inr e ↦ rw e refl ]

write-passes :
    {K W : Type 0} (s : Sink K W) (p q : Bytes) (l : Writer K W)
    → (write s p l).failed ≡ false
    → passes s q (write s p l) ≡ passes s (p ++ q) l
unfolding write
write-passes s p q l h =
    let r = passes s p l in
    let f : r.failed ≡ false = sym (ap (λ o. o.2) (write-end_of s p l)) ∙ h in
    let joined : pass s r.buf q r.kept r.out ≡ passes s (p ++ q) l =
      rw⁻¹ append_assoc (sym (pass-append s [] (l.buf ++ p) q l.kept l.out ∙ rw f refl)) in
    rw f (
      pass-partial s [] r.buf q r.kept r.out (pass-IsPartial s [] (l.buf ++ p) l.kept l.out tt)
      ∙ joined)

-- Two writes, of which the first does not fail, show `keep` the same lines and write the same as
-- one write of both, and leave the same start of a line; or both fail, at the same line.
pub write-write :
    {K W : Type 0} (s : Sink K W) (p q : Bytes) (l : Writer K W)
    → (write s p l).failed ≡ false
    → end_of (write s q (write s p l)) ≡ end_of (write s (p ++ q) l)
write-write s p q l h =
    write-end_of s q (write s p l)
    ∙ ap end_of (write-passes s p q l h)
    ∙ sym (write-end_of s (p ++ q) l)
