-- ===== src/Hibernate/Run/Lines.antt =====
-- What each event does to the SDK's lines.
use fern.Prelude.{
  ℕ, ◌≡◌, refl, sym, ap, Bool, true, false, Option, none, some, List, [], ◌∷◌, ◌++◌, map, Bytes,
  if◌then◌else◌, append-nil, arith, inl, inr, Bool-cases,
}
use fern.Hibernate.Stream.{Stream, Parser, out_line}
use fern.Hibernate.Run.{
  Result, Event, line, says, stdin_end, tick, signal, exits, Effect, start, replays, sends, passes,
  close_stdin, cut_off, reaped, signals, Config, Run, Progress, goes_on, returns, restarted,
  on_line, on_signal, after_stop, replaced, line_while, exit_while, tick_while, on_tick, on_says,
}

-- The SDK's lines that were written to a Claude's stdin.
unfoldable pub sent : List Effect → List Bytes
sent [] = []
sent (sends l ∷ es) = l ∷ sent es
sent (start a ∷ es) = sent es
sent (replays l ∷ es) = sent es
sent (passes l ∷ es) = sent es
sent (close_stdin ∷ es) = sent es
sent (cut_off ∷ es) = sent es
sent (reaped ∷ es) = sent es
sent (signals n ∷ es) = sent es

-- The SDK's lines up to the end of its stdin.
unfoldable pub said : List (ℕ × Event) → List Bytes
said [] = []
said ((now, line l) ∷ es) = l ∷ said es
said ((now, stdin_end) ∷ es) = []
said ((now, signal n) ∷ es) = said es
said ((now, exits c) ∷ es) = said es
said ((now, tick) ∷ es) = said es
said ((now, says l) ∷ es) = said es

-- Those that are still to come.
abbrev pub to_come : Run → List (ℕ × Event) → List Bytes
to_come r es = if r.eof then [] else said es

-- Lines wait only while a Claude is being stopped, and only a Claude that is there is.
abbrev pub Holds : Option ℕ → Bool → List Bytes → Type 0
Holds none up w = w ≡ []
Holds (some t) up w = up ≡ true

abbrev pub IsSettled : Run → Type 0
IsSettled r = Holds r.stopping r.up r.waiting

pub sent-append : (xs ys : List Effect) → sent (xs ++ ys) ≡ sent xs ++ sent ys
unfolding sent
sent-append [] ys = refl
sent-append (sends l ∷ xs) ys = ap (◌∷◌ l) (sent-append xs ys)
sent-append (start a ∷ xs) ys = sent-append xs ys
sent-append (replays l ∷ xs) ys = sent-append xs ys
sent-append (passes l ∷ xs) ys = sent-append xs ys
sent-append (close_stdin ∷ xs) ys = sent-append xs ys
sent-append (cut_off ∷ xs) ys = sent-append xs ys
sent-append (reaped ∷ xs) ys = sent-append xs ys
sent-append (signals n ∷ xs) ys = sent-append xs ys

sent-sends : (ls : List Bytes) → sent (map sends ls) ≡ ls
unfolding sent
sent-sends [] = refl
sent-sends (l ∷ ls) = ap (◌∷◌ l) (sent-sends ls)

sent-replays : (ls : List Bytes) → sent (map replays ls) ≡ []
unfolding sent
sent-replays [] = refl
sent-replays (l ∷ ls) = sent-replays ls

restarted-sent :
    (parse : Parser) (g : Config) (now : ℕ) (ls : List Bytes) (r : Run)
    → sent (restarted parse g now ls r).effects ≡ ls
unfolding restarted sent
restarted-sent parse g now ls r = simp (sent-append, sent-sends, sent-replays)

-- What an event does to the lines: it sends some of those that wait and of the one that came, in
-- their order, and the rest wait.
abbrev pub Delivers : Run → List Bytes → Progress → Type 0
Delivers r ls p =
    (sent p.effects ++ p.run.waiting ≡ r.waiting ++ ls) × IsSettled p.run × (p.run.eof ≡ r.eof)

line_while-Delivers :
    (st : Option ℕ) (parse : Parser) (g : Config) (now : ℕ) (l : Bytes) (r : Run)
    → r.stopping ≡ st
    → Holds st r.up r.waiting
    → Delivers r (l ∷ []) (line_while st parse g now l r)
unfolding restarted sent
line_while-Delivers none parse g now l r e h = ground (arith, restarted-sent parse g now (l ∷ []) r)
line_while-Delivers (some t) parse g now l r e h = ground arith

replaced-Delivers :
    (parse : Parser) (g : Config) (now : ℕ) (c : Result) (r : Run)
    → Delivers r [] (replaced parse g now c r)
unfolding replaced restarted sent
replaced-Delivers parse g now c r =
    ground (arith, restarted-sent parse g now r.waiting r, append-nil r.waiting)

after_stop-Delivers :
    (r : Run) (ls : List Bytes) (p : Progress) → Delivers r ls p → Delivers r ls (after_stop p)
unfolding after_stop sent
after_stop-Delivers r ls p h =
    ground (arith, sent-append p.effects (close_stdin ∷ []), append-nil (sent p.effects))

pub exit_while-Delivers :
    (st : Option ℕ) (parse : Parser) (g : Config) (now : ℕ) (c : Result) (r : Run)
    → r.stopping ≡ st
    → Holds st r.up r.waiting
    → Delivers r [] (exit_while st parse g now c r)
unfolding sent
exit_while-Delivers none parse g now c r e h = ground (arith, append-nil r.waiting)
exit_while-Delivers (some t) parse g now c r e h = elim (Bool-cases r.ending) [
  | inl y ↦ ground (arith, append-nil r.waiting)
  | inr n ↦ ground (
    arith,
    after_stop-Delivers r [] (replaced parse g now c r),
    replaced-Delivers parse g now c r,
  )
]

tick_while-Delivers :
    (st : Option ℕ) (g : Config) (now : ℕ) (r : Run)
    → r.stopping ≡ st
    → Holds st r.up r.waiting
    → r.up ≡ true
    → Delivers r [] (tick_while st g now r)
unfolding sent
tick_while-Delivers none g now r e h u = ground (arith, append-nil r.waiting)
tick_while-Delivers (some t) g now r e h u = ground (arith, append-nil r.waiting)

pub on_tick-Delivers :
    (g : Config) (now : ℕ) (r : Run) → IsSettled r → Delivers r [] (on_tick g now r)
unfolding on_tick sent
on_tick-Delivers g now r h =
    ground (arith, tick_while-Delivers r.stopping g now r refl h, append-nil r.waiting)

idle-Delivers : (r : Run) → IsSettled r → Delivers r [] (goes_on r [])
unfolding sent
idle-Delivers r h = (sym (append-nil r.waiting), h, refl)

-- A Claude that is not there does nothing.
pub if_up-Delivers :
    (b : Bool) (r : Run) (p : Progress)
    → IsSettled r
    → Delivers r [] p
    → Delivers r [] (if b then p else goes_on r [])
if_up-Delivers true r p h k = k
if_up-Delivers false r p h k = idle-Delivers r h

pub on_signal-Delivers : (n : ℕ) (r : Run) → IsSettled r → Delivers r [] (on_signal n r)
unfolding on_signal sent
on_signal-Delivers n r h = signalled r.up
  where
    signalled :
        (b : Bool)
        → Delivers r [] (
            if b
            then goes_on (record r { ending = true }) (signals n ∷ [])
            else returns r (record { code = r.code; error = none }))
    signalled true = (sym (append-nil r.waiting), h, refl)
    signalled false = (sym (append-nil r.waiting), h, refl)

pub on_says-Delivers :
    (parse : Parser) (now : ℕ) (l : Bytes) (r : Run)
    → IsSettled r
    → Delivers r [] (on_says parse now l r)
unfolding on_says sent
on_says-Delivers parse now l r h = heard (out_line parse now l r.stream)
  where
    heard :
        (o : Stream × Bool)
        → Delivers r [] (goes_on (record r { stream = o.0 }) (if o.1 then passes l ∷ [] else []))
    heard (s, true) = (sym (append-nil r.waiting), h, refl)
    heard (s, false) = (sym (append-nil r.waiting), h, refl)

pub on_line-Delivers :
    (parse : Parser) (g : Config) (now : ℕ) (l : Bytes) (r : Run)
    → IsSettled r
    → Delivers r (l ∷ []) (on_line parse g now l r)
unfolding on_line
on_line-Delivers parse g now l r h = line_while-Delivers r.stopping parse g now l r refl h
