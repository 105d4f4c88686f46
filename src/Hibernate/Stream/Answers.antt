-- ===== src/Hibernate/Stream/Answers.antt =====
-- The answers to what a restart sends, which the SDK does not see.
use fern.Prelude.{
  ◌≡◌, refl, ap, ◌∙◌, Bool, true, false, not, ◌&&◌, ◌||◌, Option, none, some, List, [], ◌∷◌, ◌++◌,
  Bytes, codes, equal, equal_iff, arith, inl, inr, Bool-cases,
}
use fern.Sets.{listed, value_of, listed-unlisted, listed-enlisted}
use fern.Hibernate.Stream.{
  replayed, Message, Parser, Stream, answer, in_message, in_parsed, in_line, system_message,
  out_message, out_parsed, out_line, expect, replay_line, replay, restart, is_idle,
}
use fern.Hibernate.Stream.Replay.{Traffic, from_sdk, from_claude, follow}

abbrev is_to : Bytes → Option Bytes → Bool
is_to id none = false
is_to id (some x) = equal id x

-- The message is Claude's answer to this request.
abbrev pub answers : Bytes → Option Message → Bool
answers id none = false
answers id (some m) = equal m.kind (codes "control_response") && is_to id m.response

-- The message takes this request back.
abbrev pub cancels : Bytes → Option Message → Bool
cancels id none = false
cancels id (some m) = equal m.kind (codes "control_cancel_request") && equal id m.request_id

module _ (parse : Parser) (id : Bytes) where
  -- Claude has answered the request.
  abbrev pub answered_in : List Traffic → Bool
  answered_in [] = false
  answered_in (from_sdk now l ∷ ts) = answered_in ts
  answered_in (from_claude now l ∷ ts) = answers id (parse l) || answered_in ts

  -- The SDK has taken the request back.
  abbrev pub cancelled_in : List Traffic → Bool
  cancelled_in [] = false
  cancelled_in (from_sdk now l ∷ ts) = cancels id (parse l) || cancelled_in ts
  cancelled_in (from_claude now l ∷ ts) = cancelled_in ts

abbrev has_id : Bytes → Option Message → Bool
has_id id none = false
has_id id (some m) = equal id m.request_id

-- One of the lines is this request.
abbrev pub has_sent : Parser → Bytes → List Bytes → Bool
has_sent parse id [] = false
has_sent parse id (l ∷ ls) = has_id id (parse l) || has_sent parse id ls

has_sent-append :
    (parse : Parser) (id : Bytes) (xs ys : List Bytes)
    → has_sent parse id (xs ++ ys) ≡ has_sent parse id xs || has_sent parse id ys
has_sent-append parse id [] ys = refl
has_sent-append parse id (x ∷ xs) ys = ground (arith, has_sent-append parse id xs ys)

in_parsed-swallow :
    (o : Option Message) (line : Bytes) (s : Stream) → (in_parsed o line s).swallow ≡ s.swallow
unfolding in_message
in_parsed-swallow none line s = refl
in_parsed-swallow (some m) line s = ground arith

in_parsed-to_claude :
    (o : Option Message) (id line : Bytes) (s : Stream)
    → listed id s.to_claude ≡ true
    → cancels id o ≡ false
    → listed id (in_parsed o line s).to_claude ≡ true
unfolding in_message
in_parsed-to_claude none id line s h k = h
in_parsed-to_claude (some m) id line s h k = ground (
  arith,
  listed-enlisted id m.request_id s.to_claude,
  listed-unlisted id m.request_id s.to_claude,
)

system_message-sets :
    (m : Message) (s : Stream)
    → ((system_message m s).swallow ≡ s.swallow) × ((system_message m s).to_claude ≡ s.to_claude)
unfolding system_message
system_message-sets m s = ground arith

answer-sets :
    (o : Option Bytes) (id : Bytes) (s : Stream)
    → (listed id (answer o s).0.swallow ≡ listed id s.swallow && not (is_to id o))
      × (listed id (answer o s).0.to_claude ≡ listed id s.to_claude && not (is_to id o))
answer-sets none id s = ground arith
answer-sets (some x) id s =
    ground (arith, listed-unlisted id x s.swallow, listed-unlisted id x s.to_claude, equal_iff id x)

out_parsed-sets :
    (o : Option Message) (id : Bytes) (s : Stream)
    → (listed id (out_parsed o s).0.swallow ≡ listed id s.swallow && not (answers id o))
      × (listed id (out_parsed o s).0.to_claude ≡ listed id s.to_claude && not (answers id o))
unfolding out_message
out_parsed-sets none id s = ground arith
out_parsed-sets (some m) id s = ground (
  arith,
  answer-sets m.response id s,
  system_message-sets m s,
  equal_iff m.kind (codes "system"),
  equal_iff m.kind (codes "result"),
  equal_iff m.kind (codes "control_request"),
  equal_iff m.kind (codes "control_response"),
)

follow-swallow :
    (parse : Parser) (id : Bytes) (ts : List Traffic) (s : Stream)
    → listed id (follow parse ts s).swallow ≡ listed id s.swallow && not (answered_in parse id ts)
unfolding follow in_line out_line
follow-swallow parse id [] s = ground arith
follow-swallow parse id (from_sdk now l ∷ ts) s =
    follow-swallow parse id ts (in_line parse now l s)
    ∙ ap (λ xs. listed id xs && not (answered_in parse id ts))
        (in_parsed-swallow (parse l) l (record s { last_line = now }))
follow-swallow parse id (from_claude now l ∷ ts) s = ground (
  arith,
  follow-swallow parse id ts (out_line parse now l s).0,
  out_parsed-sets (parse l) id (record s { last_line = now }),
)

follow-to_claude :
    (parse : Parser) (id : Bytes) (ts : List Traffic) (s : Stream)
    → listed id s.to_claude ≡ true
    → answered_in parse id ts ≡ false
    → cancelled_in parse id ts ≡ false
    → listed id (follow parse ts s).to_claude ≡ true
unfolding follow in_line out_line
follow-to_claude parse id [] s h a c = h
follow-to_claude parse id (from_sdk now l ∷ ts) s h a c =
    follow-to_claude parse id ts (in_line parse now l s)
      (in_parsed-to_claude (parse l) id l (record s { last_line = now }) h (ground arith)) a
      (ground arith)
follow-to_claude parse id (from_claude now l ∷ ts) s h a c =
    follow-to_claude parse id ts (out_line parse now l s).0
      (ground (arith, out_parsed-sets (parse l) id (record s { last_line = now }))) (ground arith) c

-- What Claude is to answer, and of that what the SDK does not see, `old` being so before
abbrev IsKept : Parser → Bytes → Bool → Stream × List Bytes → Type 0
IsKept parse id old r =
    (listed id r.0.swallow ≡ old || has_sent parse id r.1)
    × (listed id r.0.to_claude ≡ has_sent parse id r.1)

replay_line-IsKept :
    (parse : Parser) (id : Bytes) (old : Bool) (o : Option Bytes) (r : Stream × List Bytes)
    → IsKept parse id old r
    → IsKept parse id old (replay_line parse o r)
replay_line-IsKept parse id old none r h = h
replay_line-IsKept parse id old (some l) r h = expected (parse l) refl
  where
    expected :
        (x : Option Message) → parse l ≡ x → IsKept parse id old (expect x r.0, r.1 ++ l ∷ [])
    expected none e = ground (arith, e, h, has_sent-append parse id r.1 (l ∷ []))
    expected (some m) e = ground (
      arith,
      e,
      h,
      has_sent-append parse id r.1 (l ∷ []),
      listed-enlisted id m.request_id r.0.swallow,
      listed-enlisted id m.request_id r.0.to_claude,
    )

replay-IsKept :
    (parse : Parser) (id : Bytes) (old : Bool) (subs : List Bytes) (r : Stream × List Bytes)
    → IsKept parse id old r
    → IsKept parse id old (replay parse subs r)
unfolding replay
replay-IsKept parse id old [] r h = h
replay-IsKept parse id old (sub ∷ subs) r h =
    let o = value_of sub r.0.setup in
    replay-IsKept parse id old subs (replay_line parse o r) (replay_line-IsKept parse id old o r h)

restart-IsKept :
    (parse : Parser) (id : Bytes) (argv : List Bytes) (s : Stream)
    → IsKept parse id (listed id s.swallow) ((restart parse argv s).0, (restart parse argv s).2)
unfolding restart listed
restart-IsKept parse id argv s =
    replay-IsKept parse id (listed id s.swallow) replayed
      (record s { tasks = 0; running = []; to_claude = []; to_sdk = [] }, []) (ground arith)

answer-swallow :
    (o : Option Bytes) (id : Bytes) (s : Stream)
    → o ≡ some id
    → (answer o s).1 ≡ not (listed id s.swallow)
answer-swallow none id s e = absurd (cc)
answer-swallow (some x) id s e = ground (arith, equal_iff id x)

out_message-answer :
    (a : Message) (s : Stream)
    → a.kind ≡ codes "control_response"
    → out_message a s ≡ answer a.response s
unfolding out_message equal
out_message-answer a s h = rw h refl

not_idle : (id : Bytes) (s : Stream) → listed id s.to_claude ≡ true → is_idle s ≡ false
unfolding is_idle listed
not_idle id s h = ground arith

-- After a restart and any conversation that follows it: Claude's answer to a request is passed on to
-- the SDK if Claude has answered the request before in that conversation, and otherwise if the request
-- is none of the lines that the restart sent and was not kept from the SDK before the restart. And
-- Claude is not idle as long as it has not answered each line that the restart sent, unless the SDK has
-- taken that request back.
pub restart-answers :
    (parse : Parser) (argv : List Bytes) (s : Stream) (ts : List Traffic) (id : Bytes) (a : Message)
    → a.kind ≡ codes "control_response"
    → a.response ≡ some id
    → let lines = (restart parse argv s).2 in
      let now = follow parse ts (restart parse argv s).0 in
      ((out_message a now).1
        ≡ answered_in parse id ts || not (listed id s.swallow || has_sent parse id lines))
      × ((has_sent parse id lines
              && not (answered_in parse id ts)
              && not (cancelled_in parse id ts))
            && is_idle now
          ≡ false)
restart-answers parse argv s ts id a k r =
    let t = (restart parse argv s).0 in
    let now = follow parse ts t in
    let kept = restart-IsKept parse id argv s in
    (
      ground (
        arith,
        out_message-answer a now k,
        answer-swallow a.response id now r,
        follow-swallow parse id ts t,
        kept,
      ),
      elim (Bool-cases (is_idle now)) [
        | inl y ↦ ground (arith, y, follow-to_claude parse id ts t, not_idle id now, kept)
        | inr n ↦ ground (arith, n)
      ],
    )
