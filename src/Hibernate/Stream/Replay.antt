-- ===== src/Hibernate/Stream/Replay.antt =====
-- What a restarted Claude is told, and what the SDK does not see of it.
use fern.Prelude.{
  ℕ, ◌≡◌, refl, sym, ap, ◌∙◌, Bool, true, false, ◌&&◌, Option, none, some, List, [], ◌∷◌, ◌++◌,
  Bytes, codes, if◌then◌else◌, equal, equal_iff, equal_refl, All, append-nil, append_assoc, arith,
  inl, inr, Bool-cases, Option-cases,
}
use fern.Sets.{listed, value_of, store, value_of-store}
use fern.Hibernate.Stream.{
  replayed, Message, Parser, Stream, new_stream, keep_setup, in_message, in_parsed, in_line,
  system_message, out_message, out_parsed, out_line, expect, replay_line, replay, restart,
}

-- A line of the conversation, and when it went.
pub data Traffic : Type 0 where
  from_sdk from_claude : ℕ → Bytes → Traffic

abbrev pub follow_line : Parser → Traffic → Stream → Stream
follow_line parse (from_sdk now l) s = in_line parse now l s
follow_line parse (from_claude now l) s = (out_line parse now l s).0

unfoldable pub follow : Parser → List Traffic → Stream → Stream
follow parse [] s = s
follow parse (t ∷ ts) s = follow parse ts (follow_line parse t s)

abbrev requests : Option Bytes → Bytes → Bool
requests none sub = false
requests (some x) sub = equal sub x

abbrev asks : Option Message → Bytes → Bool
asks none sub = false
asks (some m) sub = equal m.kind (codes "control_request") && requests m.request sub

-- The line, if it is a control request of the SDK's with that subtype.
unfoldable pub request_line : Parser → Bytes → Traffic → Option Bytes
request_line parse sub (from_sdk now l) = if asks (parse l) sub then some l else none
request_line parse sub (from_claude now l) = none

abbrev pub or_else : Option Bytes → Option Bytes → Option Bytes
or_else (some l) o = some l
or_else none o = o

-- The last such line.
unfoldable pub newest : Parser → Bytes → List Traffic → Option Bytes
unfolding request_line
newest parse sub [] = none
newest parse sub (t ∷ ts) = or_else (newest parse sub ts) (request_line parse sub t)

system_message-setup : (m : Message) (s : Stream) → (system_message m s).setup ≡ s.setup
unfolding system_message
system_message-setup m s = ground arith

out_parsed-setup : (o : Option Message) (s : Stream) → (out_parsed o s).0.setup ≡ s.setup
unfolding out_message
out_parsed-setup none s = refl
out_parsed-setup (some m) s = elim (Option-cases m.response) [
  | inl e ↦ ground (arith, system_message-setup m s)
  | inr (id, e) ↦ ground (arith, system_message-setup m s)
]

keep_setup-newest :
    (r : Option Bytes) (sub line : Bytes) (m : List (Bytes × Bytes))
    → listed sub replayed ≡ true
    → value_of sub (keep_setup r line m)
      ≡ or_else (if requests r sub then some line else none) (value_of sub m)
keep_setup-newest none sub line m h = refl
keep_setup-newest (some x) sub line m h = elim (Bool-cases (equal sub x)) [
  | inl e ↦
      let same : sub ≡ x = (equal_iff sub x).0 e in
      rw (← same)
        (rw (h, equal_refl sub) (value_of-store sub sub line m ∙ rw (equal_refl sub) refl))
  | inr e ↦ rw e (other (listed x replayed) e)
]
  where
    other :
        (b : Bool)
        → equal sub x ≡ false
        → value_of sub (if b then store x line m else m) ≡ value_of sub m
    other true e = value_of-store x sub line m ∙ rw e refl
    other false e = refl

in_parsed-setup :
    (o : Option Message) (sub line : Bytes) (s : Stream)
    → listed sub replayed ≡ true
    → value_of sub (in_parsed o line s).setup
      ≡ or_else (if asks o sub then some line else none) (value_of sub s.setup)
unfolding in_message
in_parsed-setup none sub line s h = refl
in_parsed-setup (some m) sub line s h = ground (
  arith,
  keep_setup-newest m.request sub line s.setup h,
  equal_iff m.kind (codes "user"),
  equal_iff m.kind (codes "control_request"),
)

follow-newest :
    (parse : Parser) (sub : Bytes) (ts : List Traffic) (s : Stream)
    → listed sub replayed ≡ true
    → value_of sub (follow parse ts s).setup ≡ or_else (newest parse sub ts) (value_of sub s.setup)
unfolding follow newest in_line out_line
follow-newest parse sub [] s h = refl
follow-newest parse sub (from_sdk now l ∷ ts) s h = ground (
  arith,
  follow-newest parse sub ts (in_line parse now l s) h,
  in_parsed-setup (parse l) sub l (record s { last_line = now }) h,
)
follow-newest parse sub (from_claude now l ∷ ts) s h = ground (
  arith,
  follow-newest parse sub ts (out_line parse now l s).0 h,
  out_parsed-setup (parse l) (record s { last_line = now }),
)

abbrev with_line : Option Bytes → List Bytes → List Bytes
with_line none ls = ls
with_line (some l) ls = l ∷ ls

-- The lines that are there, in the order of the names.
unfoldable pub picks : (Bytes → Option Bytes) → List Bytes → List Bytes
picks f [] = []
picks f (x ∷ xs) = with_line (f x) (picks f xs)

picks-eq :
    (f g : Bytes → Option Bytes) (xs : List Bytes)
    → All (λ x. f x ≡ g x) xs
    → picks f xs ≡ picks g xs
unfolding picks
picks-eq f g [] h = refl
picks-eq f g (x ∷ xs) h = rw (h.0, picks-eq f g xs h.1) refl

replay_line-lines :
    (parse : Parser) (o : Option Bytes) (r : Stream × List Bytes) (ls : List Bytes)
    → ((replay_line parse o r).1 ++ ls ≡ r.1 ++ with_line o ls)
      × ((replay_line parse o r).0.setup ≡ r.0.setup)
replay_line-lines parse none r ls = (refl, refl)
replay_line-lines parse (some l) r ls = (append_assoc r.1 (l ∷ []) ls, expected (parse l))
  where
    expected : (o : Option Message) → (expect o r.0).setup ≡ r.0.setup
    expected none = refl
    expected (some m) = refl

replay-lines :
    (parse : Parser) (subs : List Bytes) (r : Stream × List Bytes)
    → (replay parse subs r).1 ≡ r.1 ++ picks (λ sub. value_of sub r.0.setup) subs
unfolding replay picks
replay-lines parse [] r = sym (append-nil r.1)
replay-lines parse (sub ∷ subs) r =
    let o = value_of sub r.0.setup in
    let q = replay_line parse o r in
    let k = replay_line-lines parse o r in
    replay-lines parse subs q
    ∙ ap (λ m. q.1 ++ picks (λ sub. value_of sub m) subs)
        (k (picks (λ sub. value_of sub r.0.setup) subs)).1
    ∙ (k (picks (λ sub. value_of sub r.0.setup) subs)).0

All-replayed :
    (f g : Bytes → Option Bytes)
    → ((sub : Bytes) → listed sub replayed ≡ true → f sub ≡ g sub)
    → All (λ sub. f sub ≡ g sub) replayed
unfolding listed equal
All-replayed f g h = (
  h _ refl,
  (
    h _ refl,
    (
      h _ refl,
      (
        h _ refl,
        (h _ refl, (h _ refl, (h _ refl, (h _ refl, (h _ refl, (h _ refl, (h _ refl, tt))))))),
      ),
    ),
  ),
)

-- After any conversation from the start, a restart sends Claude the newest line of each control
-- request of the SDK's that sets a session up, in the order in which they are replayed.
pub restart-newest :
    (parse : Parser) (argv : List Bytes) (ts : List Traffic)
    → (restart parse argv (follow parse ts new_stream)).2
      ≡ picks (λ sub. newest parse sub ts) replayed
unfolding restart value_of
restart-newest parse argv ts =
    let s = follow parse ts new_stream in
    replay-lines parse replayed
      (record s { tasks = 0; running = []; to_claude = []; to_sdk = [] }, [])
    ∙ picks-eq (λ sub. value_of sub s.setup) (λ sub. newest parse sub ts) replayed
        (All-replayed (λ sub. value_of sub s.setup) (λ sub. newest parse sub ts)
          λ sub h. follow-newest parse sub ts new_stream h ∙ or_else-none (newest parse sub ts))
  where
    or_else-none : (o : Option Bytes) → or_else o none ≡ o
    or_else-none none = refl
    or_else-none (some l) = refl
