-- ===== src/Runsc/Apart.antt =====
-- No two boxes share an address.
use fern.Prelude.{
  ℕ, zero, suc, ◌+◌, ◌^◌, ◌<◌, ◌≡◌, ◌≢◌, refl, sym, ap, ◌∙◌, subst, Bool, Bool-cases, inl, inr,
  true, false, Option, none, some, List, [], ◌∷◌, Bytes, if◌then◌else◌, equal, equal_iff, arith,
}
use fern.Octets.{head_eq, bytes-eq}
use fern.Decimal.{ℤ, pos, negsuc, itoa, atoi}
use fern.Sets.{value_of, store, value_of-store}
use fern.Setup.Words.{trim_space}
use fern.Runsc.{
  max_boxes, octets, subnet, addrs, taken, is_taken, first_free, allocate, with_number, Files,
  dir_removed, read_nets, Writing, written, refused, spoilt, numbered, link_addrs, Host, with_net,
  unlinked, dir_cleared, netted, unlinks, clears, nets_up, NetsReached, begins, goes,
}
use fern.Runsc.Numbers.{atoi-trim_space}

octets-eq : (x y : ℕ) → x < 2 ^ 32 → y < 2 ^ 32 → octets x ≡ octets y → x ≡ y
octets-eq x y hx hy e =
    let (a, e1) = head_eq _ _ _ _ e in
    let (b, e2) = head_eq _ _ _ _ e1 in
    let (c, e3) = head_eq _ _ _ _ e2 in
    let (d, e4) = head_eq _ _ _ _ e3 in bytes-eq x y hx hy a b c d

first_free_lem :
    (fuel n m : ℕ) (ms : List ℕ)
    → first_free fuel n ms ≡ some m
    → (m < n + fuel) × (is_taken m ms ≡ false)
first_free_lem zero n m ms e = absurd (ground (arith, e))
first_free_lem (suc fuel) n m ms e = elim (Bool-cases (is_taken n ms)) [
  | inl y ↦ let k = first_free_lem fuel (n + 1) m ms (rw y at e) in (omega (arith, k.0), k.1)
  | inr f ↦
      let same : n ≡ m = ground (arith, rw f at e) in
      (omega (arith, same), subst (λ x. is_taken x ms ≡ false) same f)
]

-- Four addresses, all different.
abbrev pub AreApart : Bytes × Bytes → Bytes × Bytes → Type 0
AreApart (h, g) (h', g') = (h ≢ g) × (h' ≢ g') × (h ≢ h') × (h ≢ g') × (g ≢ h') × (g ≢ g')

octets-AreApart :
    (n m : ℕ)
    → n < max_boxes
    → m < max_boxes
    → n ≢ m
    → AreApart
        (octets (subnet n + 1), octets (subnet n + 2))
        (octets (subnet m + 1), octets (subnet m + 2))
octets-AreApart n m hn hm d =
    let apart : (i j : ℕ)
        → i < max_boxes
        → j < max_boxes
        → (a b : ℕ) → a < 4
        → b < 4
        → octets (subnet i + a) ≡ octets (subnet j + b)
        → (subnet i + a ≡ subnet j + b) =
      λ i j hi hj a b ha hb e.
        octets-eq (subnet i + a) (subnet j + b) (omega arith) (omega arith) e in
    (
      λ e. omega (arith, apart n n hn hn 1 2 (omega arith) (omega arith) e),
      λ e. omega (arith, apart m m hm hm 1 2 (omega arith) (omega arith) e),
      λ e. d (omega (arith, apart n m hn hm 1 1 (omega arith) (omega arith) e)),
      λ e. omega (arith, apart n m hn hm 1 2 (omega arith) (omega arith) e),
      λ e. omega (arith, apart n m hn hm 2 1 (omega arith) (omega arith) e),
      λ e. d (omega (arith, apart n m hn hm 2 2 (omega arith) (omega arith) e)),
    )

addrs_lem : (n : ℕ) → n < max_boxes → addrs n ≡ some (octets (subnet n + 1), octets (subnet n + 2))
unfolding addrs
addrs_lem n h = ground arith

value_of-dir_removed :
    (id k : Bytes) (fs : Files)
    → value_of k (dir_removed id fs) ≡ (if equal k id then none else value_of k fs)
unfolding value_of dir_removed
value_of-dir_removed id k [] = ground arith
value_of-dir_removed id k ((j, text) ∷ fs) =
    ground (arith, value_of-dir_removed id k fs, equal_iff id j, equal_iff k id, equal_iff k j)

with_number-is_taken :
    (o : Option ℤ) (n : ℕ) (ns : List ℕ)
    → is_taken n ns ≡ true
    → is_taken n (with_number o ns) ≡ true
unfolding is_taken
with_number-is_taken none n ns h = h
with_number-is_taken (some (pos m)) n ns h = ground (arith, h)
with_number-is_taken (some (negsuc m)) n ns h = h

-- The number of a file that is read is taken.
taken-itoa :
    (gone : Bytes → Bool) (k : Bytes) (n : ℕ) (fs : Files)
    → value_of k fs ≡ some (itoa n)
    → gone k ≡ false
    → n < max_boxes
    → is_taken n (taken (read_nets gone fs)) ≡ true
unfolding value_of taken is_taken read_nets
taken-itoa gone k n [] e g h = absurd (ground (arith, e))
taken-itoa gone k n ((j, text) ∷ fs) e g h = elim (Bool-cases (equal k j)) [
  | inl y ↦
      let same : k ≡ j = (equal_iff k j).0 y in
      let here : text ≡ itoa n = ground (arith, rw y at e) in
      let there : gone j ≡ false = subst (λ x. gone x ≡ false) same g in
      rw (there, here, atoi-trim_space n (omega (arith, h))) (ground arith)
  | inr f ↦
      let rest = taken-itoa gone k n fs (rw f at e) g h in
      elim (Bool-cases (gone j)) [
        | inl y ↦ rw y rest
        | inr z ↦
            rw z (with_number-is_taken (atoi (trim_space text)) n (taken (read_nets gone fs)) rest)
      ]
]

-- A network has the number in the box's file, and no other network has it.
abbrev IsSound : Host → Type 0
IsSound s =
    ((k : Bytes) (n : ℕ)
      → s.nets k ≡ some n
      → (value_of k s.files ≡ some (itoa n)) × (n < max_boxes))
    × ((k j : Bytes) (n : ℕ) → s.nets k ≡ some n → s.nets j ≡ some n → k ≡ j)

unlinked-IsSound : (id : Bytes) (s : Host) → IsSound s → IsSound (unlinked id s)
unlinked-IsSound id s (held, alone) =
    (λ k n e. held k n (kept k n e), λ k j n e f. alone k j n (kept k n e) (kept j n f))
  where
    kept : (k : Bytes) (n : ℕ) → (unlinked id s).nets k ≡ some n → s.nets k ≡ some n
    kept k n e = ground (arith, e)

dir_cleared-IsSound :
    (id : Bytes) (s : Host) → s.nets id ≡ none → IsSound s → IsSound (dir_cleared id s)
dir_cleared-IsSound id s off (held, alone) = (λ k n e. (kept k n e, (held k n e).1), alone)
  where
    kept :
        (k : Bytes) (n : ℕ)
        → s.nets k ≡ some n
        → value_of k (dir_removed id s.files) ≡ some (itoa n)
    kept k n e =
        ground (arith, e, off, value_of-dir_removed id k s.files, equal_iff k id, held k n e)

-- A file of a box without a network
rewritten-IsSound :
    (id text : Bytes) (s : Host)
    → s.nets id ≡ none
    → IsSound s
    → IsSound (record s { files = store id text s.files })
rewritten-IsSound id text s off (held, alone) = (λ k n e. (kept k n e, (held k n e).1), alone)
  where
    kept :
        (k : Bytes) (n : ℕ) → s.nets k ≡ some n → value_of k (store id text s.files) ≡ some (itoa n)
    kept k n e =
        ground (arith, e, off, value_of-store id k text s.files, equal_iff k id, held k n e)

given-IsSound :
    (id : Bytes) (n : ℕ) (s : Host)
    → s.nets id ≡ none
    → n < max_boxes
    → ((k : Bytes) → s.nets k ≢ some n)
    → IsSound s
    → IsSound (record { files = store id (itoa n) s.files; nets = with_net id (some n) s.nets })
given-IsSound id n s off h fresh (held, alone) = (there, apart)
  where
    there :
        (k : Bytes) (m : ℕ)
        → with_net id (some n) s.nets k ≡ some m
        → (value_of k (store id (itoa n) s.files) ≡ some (itoa m)) × (m < max_boxes)
    there k m e = elim (Bool-cases (equal k id)) [
      | inl y ↦
          let same : n ≡ m = ground (arith, rw y at e) in
          rw (value_of-store id k (itoa n) s.files, y)
            (ap (λ x. some (itoa x)) same, subst (λ x. x < max_boxes) same h)
      | inr f ↦ rw (value_of-store id k (itoa n) s.files, f) (held k m (rw f at e))
    ]

    apart :
        (k j : Bytes) (m : ℕ)
        → with_net id (some n) s.nets k ≡ some m
        → with_net id (some n) s.nets j ≡ some m
        → k ≡ j
    apart k j m e f = ground (arith, equal_iff k id, equal_iff j id, fresh k, fresh j, alone k j m)

netted-IsSound :
    (id : Bytes) (gone : Bytes → Bool) (w : Writing) (s : Host)
    → s.nets id ≡ none
    → ((k : Bytes) → gone k ≡ true → s.nets k ≡ none)
    → IsSound s
    → IsSound (netted id gone w s)
unfolding allocate
netted-IsSound id gone w s off missed (held, alone) =
    gives w (first_free max_boxes 0 (taken (read_nets gone s.files))) refl
  where
    gives :
        (w : Writing) (o : Option ℕ)
        → first_free max_boxes 0 (taken (read_nets gone s.files)) ≡ o
        → IsSound (record {
          files = (numbered id o w s.files).0;
          nets = with_net id (numbered id o w s.files).1 s.nets;
        })
    gives w none e = unlinked-IsSound id s (held, alone)
    gives refused (some n) e = unlinked-IsSound id s (held, alone)
    gives (spoilt text) (some n) e =
        unlinked-IsSound id (record s { files = store id text s.files })
          (rewritten-IsSound id text s off (held, alone))
    gives written (some n) e =
        let (bound, free) = first_free_lem max_boxes 0 n (taken (read_nets gone s.files)) e in
        given-IsSound id n s off (omega (arith, bound))
          (λ k f. elim (Bool-cases (gone k)) [
            | inl y ↦ ground (arith, missed k y, f)
            | inr z ↦
                let (text, h) = held k n f in
                ground (arith, taken-itoa gone k n s.files text z h, free)
          ])
          (held, alone)

NetsReached-IsSound : (s : Host) → NetsReached s → IsSound s
NetsReached-IsSound _ (begins files) =
    (λ k n e. absurd (ground (arith, e)), λ k j n e f. absurd (ground (arith, e)))
NetsReached-IsSound _ (goes s _ r (unlinks id _)) = unlinked-IsSound id s (NetsReached-IsSound s r)
NetsReached-IsSound _ (goes s _ r (clears id _ off)) =
    dir_cleared-IsSound id s off (NetsReached-IsSound s r)
NetsReached-IsSound _ (goes s _ r (nets_up id gone w _ off empty missed)) =
    netted-IsSound id gone w s off missed (NetsReached-IsSound s r)

link_addrs-itoa : (n : ℕ) → n < max_boxes → link_addrs (some (itoa n)) ≡ addrs n
unfolding link_addrs
link_addrs-itoa n h = rw (atoi-trim_space n (omega (arith, h))) refl

-- From a node without networks, whatever files are left on it, by any mix of the steps of boxes' wakes
-- and stops, each box's in their own order, and whichever writes fail: any two boxes that have a network
-- have four different addresses, and linkAddrs finds the addresses of each from its file. A file that
-- cannot be read is one of a box whose network is gone.
pub nets-AreApart :
    (s : Host) (k j : Bytes) (n m : ℕ)
    → NetsReached s
    → k ≢ j
    → s.nets k ≡ some n
    → s.nets j ≡ some m
    → (a : Bytes × Bytes) × (b : Bytes × Bytes) × (addrs n ≡ some a)
      × (addrs m ≡ some b)
      × (link_addrs (value_of k s.files) ≡ some a)
      × (link_addrs (value_of j s.files) ≡ some b)
      × AreApart a b
nets-AreApart s k j n m r d e f =
    let (held, alone) = NetsReached-IsSound s r in
    let (text, hn) = held k n e in
    let (text', hm) = held j m f in
    let differ : n ≢ m = λ same. d (alone k j n e (f ∙ ap (λ x. some x) (sym same))) in
    (
      _,
      _,
      addrs_lem n hn,
      addrs_lem m hm,
      ap link_addrs text ∙ link_addrs-itoa n hn ∙ addrs_lem n hn,
      ap link_addrs text' ∙ link_addrs-itoa m hm ∙ addrs_lem m hm,
      octets-AreApart n m hn hm differ,
    )
