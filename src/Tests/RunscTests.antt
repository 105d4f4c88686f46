-- ===== src/Tests/RunscTests.antt =====
-- The networks of boxes.
use fern.Decimal.{itoa}
use fern.Prelude.{
  true, ◌≢◌, equal_iff, arith, ◌≡◌, refl, Bool, false, none, some, [], ◌∷◌, Bytes, codes, equal,
}
use fern.Sets.{value_of}
use fern.Runsc.{
  addrs, allocate, link_addrs, Files, written, Host, netted, nets_up, NetsReached, begins, goes,
}
use fern.Runsc.Apart.{AreApart, nets-AreApart}

second_box : addrs 64 ≡ some (10 ∷ 89 ∷ 1 ∷ 1 ∷ [], 10 ∷ 89 ∷ 1 ∷ 2 ∷ [])
unfolding addrs
second_box = refl

no_box : addrs 16384 ≡ none
unfolding addrs
no_box = refl

abbrev none_gone : Bytes → Bool
none_gone k = false

abbrev left_behind : Files
left_behind = (codes "a", codes "1\n") ∷ (codes "b", codes "0") ∷ (codes "c", codes "x") ∷ []

allocated : (allocate (codes "d") none_gone written left_behind).1 ≡ some 2
unfolding allocate
allocated = refl

-- While box b is being stopped, its number is given away.
given_away : (allocate (codes "d") (λ k. equal k (codes "b")) written left_behind).1 ≡ some 0
unfolding allocate equal
given_away = refl

abbrev empty_node : Host
empty_node = record { files = []; nets = λ k. none }

abbrev one_up : Host
one_up = netted (codes "m1") none_gone written empty_node

abbrev two_up : Host
two_up = netted (codes "m2") none_gone written one_up

two_up-NetsReached : NetsReached two_up
unfolding allocate value_of equal
two_up-NetsReached =
    goes one_up two_up
      (goes empty_node one_up (begins [])
        (nets_up (codes "m1") none_gone written empty_node refl refl λ k e. refl))
      (nets_up (codes "m2") none_gone written one_up refl refl λ k e. absurd (cc))

first_up : two_up.nets (codes "m1") ≡ some 0
unfolding allocate equal
first_up = refl

second_up : two_up.nets (codes "m2") ≡ some 1
unfolding allocate equal itoa
second_up = refl

apart_names : codes "m1" ≢ codes "m2"
unfolding equal
apart_names e =
    let k : false ≡ true = (equal_iff (codes "m1") (codes "m2")).1 e in ground (arith, k)

nets-AreApart_example :
    (a : Bytes × Bytes) × (b : Bytes × Bytes) × (addrs 0 ≡ some a)
    × (addrs 1 ≡ some b)
    × (link_addrs (value_of (codes "m1") two_up.files) ≡ some a)
    × (link_addrs (value_of (codes "m2") two_up.files) ≡ some b)
    × AreApart a b
nets-AreApart_example =
    nets-AreApart two_up (codes "m1") (codes "m2") 0 1 two_up-NetsReached apart_names first_up
      second_up
