-- ===== src/Hibernate/Run/Order.antt =====
-- One Claude at a time, and nothing is done to one that is not there.
use fern.Prelude.{
  ℕ, ◌≡◌, refl, ◌∙◌, Bool, true, false, not, ◌||◌, Option, none, some, List, [], ◌∷◌, ◌++◌, map,
  Bytes, if◌then◌else◌, arith, inl, inr, Bool-cases,
}
use fern.Hibernate.Stream.{Parser, restart, out_line}
use fern.Hibernate.Run.{
  Result, Event, line, says, stdin_end, tick, signal, exits, Effect, start, replays, sends, passes,
  close_stdin, cut_off, reaped, signals, Config, Run, Progress, goes_on, restarted, on_line,
  on_stdin_end, on_signal, after_stop, on_exit, replaced, line_while, end_while, exit_while,
  tick_while, on_tick, on_says, handle, Log, then_log, run_from, first_run, run, stopped_code,
}

-- Whether a Claude is there after a sequence of effects, or `none` if one is started beside
-- another, or something is done to one that is not there.
unfoldable pub there_after : Bool → List Effect → Option Bool
there_after up [] = some up
there_after true (start a ∷ es) = none
there_after false (start a ∷ es) = there_after true es
there_after true (reaped ∷ es) = there_after false es
there_after false (reaped ∷ es) = none
there_after true (replays l ∷ es) = there_after true es
there_after false (replays l ∷ es) = none
there_after true (sends l ∷ es) = there_after true es
there_after false (sends l ∷ es) = none
there_after true (passes l ∷ es) = there_after true es
there_after false (passes l ∷ es) = none
there_after true (close_stdin ∷ es) = there_after true es
there_after false (close_stdin ∷ es) = none
there_after true (cut_off ∷ es) = there_after true es
there_after false (cut_off ∷ es) = none
there_after true (signals n ∷ es) = there_after true es
there_after false (signals n ∷ es) = none

there_after-append :
    (up mid : Bool) (xs ys : List Effect)
    → there_after up xs ≡ some mid
    → there_after up (xs ++ ys) ≡ there_after mid ys
unfolding there_after
there_after-append up mid [] ys h = ground arith
there_after-append true mid (start a ∷ xs) ys h = cc
there_after-append false mid (start a ∷ xs) ys h = there_after-append true mid xs ys h
there_after-append true mid (reaped ∷ xs) ys h = there_after-append false mid xs ys h
there_after-append false mid (reaped ∷ xs) ys h = cc
there_after-append true mid (replays l ∷ xs) ys h = there_after-append true mid xs ys h
there_after-append false mid (replays l ∷ xs) ys h = cc
there_after-append true mid (sends l ∷ xs) ys h = there_after-append true mid xs ys h
there_after-append false mid (sends l ∷ xs) ys h = cc
there_after-append true mid (passes l ∷ xs) ys h = there_after-append true mid xs ys h
there_after-append false mid (passes l ∷ xs) ys h = cc
there_after-append true mid (close_stdin ∷ xs) ys h = there_after-append true mid xs ys h
there_after-append false mid (close_stdin ∷ xs) ys h = cc
there_after-append true mid (cut_off ∷ xs) ys h = there_after-append true mid xs ys h
there_after-append false mid (cut_off ∷ xs) ys h = cc
there_after-append true mid (signals n ∷ xs) ys h = there_after-append true mid xs ys h
there_after-append false mid (signals n ∷ xs) ys h = cc

there_after-replays :
    (ls : List Bytes) (es : List Effect)
    → there_after true (map replays ls ++ es) ≡ there_after true es
unfolding there_after
there_after-replays [] es = refl
there_after-replays (l ∷ ls) es = there_after-replays ls es

there_after-sends : (ls : List Bytes) → there_after true (map sends ls) ≡ some true
unfolding there_after
there_after-sends [] = refl
there_after-sends (l ∷ ls) = there_after-sends ls

abbrev Stops : Option ℕ → Bool → Type 0
Stops none up = Unit
Stops (some t) up = up ≡ true

-- A Claude that is being stopped is there, and so is one that is being ended.
abbrev pub IsKnown : Run → Type 0
IsKnown r = Stops r.stopping r.up × (not r.ending || r.up ≡ true)

abbrev Fits : Run → Progress → Type 0
Fits r p = (there_after r.up p.effects ≡ some p.run.up) × IsKnown p.run

restarted-Fits :
    (parse : Parser) (g : Config) (now : ℕ) (ls : List Bytes) (r : Run)
    → r.up ≡ false
    → r.stopping ≡ none
    → Fits r (restarted parse g now ls r)
unfolding restarted there_after
restarted-Fits parse g now ls r u e =
    let setup = (restart parse g.argv r.stream).2 in
    ground (arith, there_after-replays setup (map sends ls), there_after-sends ls)

line_while-Fits :
    (st : Option ℕ) (parse : Parser) (g : Config) (now : ℕ) (l : Bytes) (r : Run)
    → r.stopping ≡ st
    → IsKnown r
    → Fits r (line_while st parse g now l r)
unfolding there_after
line_while-Fits none parse g now l r e h = ground (arith, restarted-Fits parse g now (l ∷ []) r)
line_while-Fits (some t) parse g now l r e h = ground arith

replaced-Fits :
    (parse : Parser) (g : Config) (now : ℕ) (c : Result) (r : Run)
    → r.up ≡ true
    → r.ending ≡ false
    → Fits r (replaced parse g now c r)
unfolding replaced there_after
replaced-Fits parse g now c r u e =
    let q = record r { up = false; stopping = none; code = stopped_code c } in
    ground (arith, restarted-Fits parse g now r.waiting q)

after_stop-Fits : (r : Run) (p : Progress) → Fits r p → Fits r (after_stop p)
unfolding after_stop there_after
after_stop-Fits r p h =
    ground (arith, there_after-append r.up p.run.up p.effects (close_stdin ∷ []))

exit_while-Fits :
    (st : Option ℕ) (parse : Parser) (g : Config) (now : ℕ) (c : Result) (r : Run)
    → r.up ≡ true
    → IsKnown r
    → Fits r (exit_while st parse g now c r)
unfolding there_after
exit_while-Fits none parse g now c r u h = (refl, h)
exit_while-Fits (some t) parse g now c r u h = elim (Bool-cases r.ending) [
  | inl y ↦ ground arith
  | inr n ↦
      ground
        (arith, after_stop-Fits r (replaced parse g now c r), replaced-Fits parse g now c r u n)
]

end_while-Fits :
    (st : Option ℕ) (r : Run) → r.up ≡ true → r.stopping ≡ st → IsKnown r → Fits r (end_while st r)
unfolding there_after
end_while-Fits none r u e h = ground arith
end_while-Fits (some t) r u e h = ground arith

tick_while-Fits :
    (st : Option ℕ) (g : Config) (now : ℕ) (r : Run)
    → r.up ≡ true
    → r.stopping ≡ st
    → IsKnown r
    → Fits r (tick_while st g now r)
unfolding there_after
tick_while-Fits none g now r u e h = ground arith
tick_while-Fits (some t) g now r u e h = ground arith

-- An event of a Claude that is there, or nothing.
if_up-Fits :
    (b : Bool) (r : Run) (p : Progress)
    → IsKnown r
    → (r.up ≡ b)
    → (r.up ≡ true → Fits r p)
    → Fits r (if b then p else goes_on r [])
unfolding there_after
if_up-Fits true r p h u k = k u
if_up-Fits false r p h u k = (refl, h)

on_says-Fits :
    (parse : Parser) (now : ℕ) (l : Bytes) (r : Run)
    → IsKnown r
    → r.up ≡ true
    → Fits r (on_says parse now l r)
unfolding on_says there_after
on_says-Fits parse now l r h u = elim (Bool-cases (out_line parse now l r.stream).1) [
  | inl y ↦ ground arith
  | inr n ↦ ground arith
]

on_signal-Fits : (n : ℕ) (r : Run) → IsKnown r → Fits r (on_signal n r)
unfolding on_signal there_after
on_signal-Fits n r h = ground arith

on_tick-Fits : (g : Config) (now : ℕ) (r : Run) → IsKnown r → Fits r (on_tick g now r)
unfolding on_tick there_after
on_tick-Fits g now r h = elim (Bool-cases r.up) [
  | inl u ↦ ground (arith, tick_while-Fits r.stopping g now r u refl h)
  | inr u ↦ ground arith
]

on_stdin_end-Fits : (r : Run) → IsKnown r → Fits r (on_stdin_end r)
unfolding on_stdin_end there_after
on_stdin_end-Fits r h = elim (Bool-cases r.up) [
  | inl u ↦ ground (arith, end_while-Fits r.stopping (record r { eof = true }) u refl h)
  | inr u ↦ ground arith
]

on_line-Fits :
    (parse : Parser) (g : Config) (now : ℕ) (l : Bytes) (r : Run)
    → IsKnown r
    → Fits r (on_line parse g now l r)
unfolding on_line
on_line-Fits parse g now l r h = line_while-Fits r.stopping parse g now l r refl h

handle-Fits :
    (parse : Parser) (g : Config) (now : ℕ) (e : Event) (r : Run)
    → IsKnown r
    → Fits r (handle parse g now e r)
unfolding handle there_after
handle-Fits parse g now (line l) r h = ground (arith, on_line-Fits parse g now l r h)
handle-Fits parse g now stdin_end r h = ground (arith, on_stdin_end-Fits r h)
handle-Fits parse g now (signal n) r h = on_signal-Fits n r h
handle-Fits parse g now (exits c) r h =
    if_up-Fits r.up r (on_exit parse g now c r) h refl
      λ u. exit_while-Fits r.stopping parse g now c r u h
handle-Fits parse g now tick r h = on_tick-Fits g now r h
handle-Fits parse g now (says l) r h =
    if_up-Fits r.up r (on_says parse now l r) h refl λ u. on_says-Fits parse now l r h u

then_log-there :
    (o : Option Result) (r : Run) (es : List (ℕ × Event)) (p : Progress) (l : Log)
    → Fits r p
    → there_after p.run.up l.effects ≡ some l.run.up
    → there_after r.up (then_log o p es l).effects ≡ some (then_log o p es l).run.up
then_log-there (some c) r es p l h k = h.0
then_log-there none r es p l h k = there_after-append r.up p.run.up p.effects l.effects h.0 ∙ k

run_from-there :
    (parse : Parser) (g : Config) (es : List (ℕ × Event)) (r : Run)
    → IsKnown r
    → there_after r.up (run_from parse g r es).effects ≡ some (run_from parse g r es).run.up
unfolding run_from there_after
run_from-there parse g [] r h = refl
run_from-there parse g ((now, e) ∷ es) r h =
    let p = handle parse g now e r in
    let k = handle-Fits parse g now e r h in
    then_log-there p.ended r es p (run_from parse g p.run es) k
      (run_from-there parse g es p.run k.1)

-- Whatever happens, run starts a Claude only when none is there, and writes to, closes the stdin of,
-- signals, cuts off, lets go of or passes on lines of only one that is; it knows whether one is there.
pub run-there :
    (parse : Parser) (g : Config) (es : List (ℕ × Event))
    → there_after false (run parse g es).effects ≡ some (run parse g es).run.up
unfolding run there_after
run-there parse g es = run_from-there parse g es first_run (tt, refl)
