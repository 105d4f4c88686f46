-- ===== src/OnDemand/Connections.antt =====
-- What holds of a service's connections after any turns of fern-init's goroutines.
use fern.Prelude.{
  ℕ, suc, ◌+◌, ◌≤◌, ◌≡◌, ◌⊎◌, inl, inr, refl, Bool, Bool-cases, true, false, ◌&&◌, Option, none,
  some, List, [], ◌∷◌, if◌then◌else◌, length, arith,
}
use fern.OnDemand.{
  Network, is_unix, OnDemand, listen_on_demand, serve, Look, wait_ready, let_go, unset, waited,
  holds, without, on_ready, relay, give_up, forget, Event, connects, looks, relays, gives_up, ends,
  turn, turns,
}

-- The service is started once, at the first connection; every connection waits, is relayed or is over;
-- one is relayed only when the service is ready; a TCP socket takes one connection and is let go.
pub record IsSound (o : OnDemand) : Type 0 where
  pub starts_once : o.starts ≡ (if o.started then 1 else 0)
  pub first : (o.started ≡ true) ⊎ (o.accepted ≡ 0)
  pub all_there : o.accepted ≡ length o.waiting + length o.relayed + length o.closed
  pub when_ready : (o.ready ≡ some true) ⊎ (o.relayed ≡ [])
  pub one_tcp :
      (is_unix o.network ≡ true)
      ⊎ ((o.accepted ≤ 1) × ((o.listening ≡ false) ⊎ (o.started ≡ false)))

length-without : (c : ℕ) (ds : List ℕ) → holds c ds ≡ true → suc (length (without c ds)) ≡ length ds
unfolding holds without
length-without c [] h = absurd (ground (arith, h))
length-without c (d ∷ ds) h = ground (arith, h, length-without c ds)

serve-IsSound : (c : ℕ) (s : Bool) (o : OnDemand) → IsSound o → IsSound (serve c s o)
unfolding serve
serve-IsSound c s o h = elim (Bool-cases o.listening) [
  | inr n ↦ rw n (rw n at h)
  | inl y ↦ elim (Bool-cases o.started) [
    | inr m ↦
        rw (y, m)
          (record {
            starts_once = ground (arith, h.starts_once, m);
            first = inl refl;
            all_there = ground (arith, h.all_there);
            when_ready = h.when_ready;
            one_tcp = ground (arith, h.one_tcp, h.first, m);
          })
    | inl z ↦ elim (Bool-cases s) [
      | inl x ↦
          rw (y, z, x)
            (record {
              starts_once = ground (arith, h.starts_once, z);
              first = inl refl;
              all_there = ground (arith, h.all_there);
              when_ready = h.when_ready;
              one_tcp = ground (arith, h.one_tcp, y);
            })
      | inr x ↦
          rw (y, z, x)
            (record {
              starts_once = ground (arith, h.starts_once, z);
              first = inl refl;
              all_there = ground (arith, h.all_there);
              when_ready = h.when_ready;
              one_tcp = ground (arith, h.one_tcp, y);
            })
    ]
  ]
]

waited-IsSound :
    (check : Bool) (ls : List Look) (o : OnDemand) → IsSound o → IsSound (waited check ls o)
unfolding waited
waited-IsSound check ls o h = looked o.started o.ready refl refl (wait_ready o.network check ls)
  where
    looked :
        (b : Bool) (r : Option Bool)
        → o.started ≡ b
        → o.ready ≡ r
        → (w : Option Bool) → IsSound (if b && unset r then let_go w o else o)
    looked false r e f w = h
    looked true (some x) e f w = h
    looked true none e f none = h
    looked true none e f (some ok) = record {
      starts_once = h.starts_once;
      first = h.first;
      all_there = h.all_there;
      when_ready = inr (ground (arith, h.when_ready, f));
      one_tcp = ground (arith, h.one_tcp);
    }

relay-IsSound : (c : ℕ) (d : Bool) (o : OnDemand) → IsSound o → IsSound (relay c d o)
unfolding relay
relay-IsSound c d o h = elim (Bool-cases (holds c o.waiting)) [
  | inl y ↦ rw y (given y o.ready refl)
  | inr n ↦ rw n h
]
  where
    given : holds c o.waiting ≡ true → (r : Option Bool) → o.ready ≡ r → IsSound (on_ready c d o r)
    given y none e = h
    given y (some false) e = record {
      starts_once = h.starts_once;
      first = h.first;
      all_there = ground (arith, length-without c o.waiting y, h.all_there);
      when_ready = h.when_ready;
      one_tcp = h.one_tcp;
    }
    given y (some true) e = elim (Bool-cases d) [
      | inr n ↦ rw n (record {
        starts_once = h.starts_once;
        first = h.first;
        all_there = ground (arith, length-without c o.waiting y, h.all_there);
        when_ready = h.when_ready;
        one_tcp = h.one_tcp;
      })
      | inl m ↦ rw m (record {
        starts_once = h.starts_once;
        first = h.first;
        all_there = ground (arith, length-without c o.waiting y, h.all_there);
        when_ready = inl e;
        one_tcp = h.one_tcp;
      })
    ]

give_up-IsSound : (c : ℕ) (o : OnDemand) → IsSound o → IsSound (give_up c o)
unfolding give_up
give_up-IsSound c o h = elim (Bool-cases (holds c o.waiting)) [
  | inl y ↦ rw y (record {
    starts_once = h.starts_once;
    first = h.first;
    all_there = ground (arith, length-without c o.waiting y, h.all_there);
    when_ready = h.when_ready;
    one_tcp = h.one_tcp;
  })
  | inr n ↦ rw n h
]

forget-IsSound : (c : ℕ) (o : OnDemand) → IsSound o → IsSound (forget c o)
unfolding forget
forget-IsSound c o h = elim (Bool-cases (holds c o.relayed)) [
  | inl y ↦ rw y (record {
    starts_once = h.starts_once;
    first = h.first;
    all_there = ground (arith, length-without c o.relayed y, h.all_there);
    when_ready = ground (arith, h.when_ready, y);
    one_tcp = h.one_tcp;
  })
  | inr n ↦ rw n h
]

turn-IsSound : (e : Event) (o : OnDemand) → IsSound o → IsSound (turn e o)
unfolding turn
turn-IsSound (connects c s) o h = serve-IsSound c s o h
turn-IsSound (looks check ls) o h = waited-IsSound check ls o h
turn-IsSound (relays c d) o h = relay-IsSound c d o h
turn-IsSound (gives_up c) o h = give_up-IsSound c o h
turn-IsSound (ends c) o h = forget-IsSound c o h

turns_on-IsSound : (es : List Event) (o : OnDemand) → IsSound o → IsSound (turns es o)
unfolding turns
turns_on-IsSound [] o h = h
turns_on-IsSound (e ∷ es) o h = turns_on-IsSound es (turn e o) (turn-IsSound e o h)

-- However fern-init's goroutines take turns, from the moment that the socket is there: the service is
-- started once, at the first connection; each connection that was accepted waits, is relayed or is
-- over; none is relayed unless the service was found ready; and a TCP socket takes one connection.
pub turns-IsSound : (n : Network) (es : List Event) → IsSound (turns es (listen_on_demand n))
turns-IsSound n es = turns_on-IsSound es (listen_on_demand n) (record {
  starts_once = refl;
  first = inr refl;
  all_there = refl;
  when_ready = inr refl;
  one_tcp = inr (omega arith, inr refl);
})
