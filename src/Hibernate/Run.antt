-- ===== src/Hibernate/Run.antt =====
-- Run of internal/hibernate/hibernate.go: one event after another, as its loop selects them.
pub mod Lines
pub mod Delivery
pub mod Order
use fern.Prelude.{
  ℕ, ◌+◌, ◌-◌, Bool, true, false, not, ◌&&◌, ◌||◌, Option, none, some, List, [], ◌∷◌, ◌++◌, map,
  Bytes, if◌then◌else◌, is_empty, leb,
}
use fern.Decimal.{ℤ, pos}
use fern.Hibernate.Stream.{Stream, Parser, new_stream, in_line, out_line, is_idle, restart}

-- How a Claude's exec ends: its exit code, and its error, if any.
pub record Result : Type 0 where
  pub code : ℤ
  pub error : Option ℕ

-- What the loop of run selects: a line of the SDK's, the end of its stdin, a signal to Claude, the
-- end of Claude's exec, the ticker; and a line that Claude writes, which lineWriter takes.
pub data Event : Type 0 where
  line says : Bytes → Event
  stdin_end tick : Event
  signal : ℕ → Event
  exits : Result → Event

-- What run does to a Claude: starts it, writes a setup line or a line of the SDK's to its stdin,
-- closes that, sends it a signal, cuts its exec off, and lets go of it once it has exited; and the
-- lines of Claude's that it passes on to the SDK.
pub data Effect : Type 0 where
  start : List Bytes → Effect
  replays sends passes : Bytes → Effect
  close_stdin cut_off reaped : Effect
  signals : ℕ → Effect

-- The request's arguments, and how long Claude may have nothing to do.
pub record Config : Type 0 where
  pub argv : List Bytes
  pub idle : ℕ

-- `up` says that c is not nil; `stopping` is none for Go's zero time.
pub record Run : Type 0 where
  pub stream : Stream
  pub up : Bool
  pub waiting : List Bytes
  pub eof : Bool
  pub stopping : Option ℕ
  pub ending : Bool
  pub code : ℤ

-- `ended` is what run returns, if it does.
pub record Progress : Type 0 where
  pub run : Run
  pub effects : List Effect
  pub ended : Option Result

abbrev pub goes_on : Run → List Effect → Progress
goes_on r es = record { run = r; effects = es; ended = none }

abbrev pub returns : Run → Result → Progress
returns r c = record { run = r; effects = []; ended = some c }

-- 10 seconds, in nanoseconds.
abbrev pub stop_timeout : ℕ
stop_timeout = 10000000000

abbrev pub sigterm : ℕ
sigterm = 15

unfoldable pub in_lines : Parser → ℕ → List Bytes → Stream → Stream
in_lines parse now [] s = s
in_lines parse now (l ∷ ls) s = in_lines parse now ls (in_line parse now l s)

-- restart, then send for each line.
unfoldable pub restarted : Parser → Config → ℕ → List Bytes → Run → Progress
unfolding in_lines
restarted parse g now ls r =
    let (s, argv, setup) = restart parse g.argv r.stream in
    goes_on (record r { stream = in_lines parse now ls s; up = true; waiting = [] })
      (start argv ∷ (map replays setup ++ map sends ls))

abbrev pub line_while : Option ℕ → Parser → Config → ℕ → Bytes → Run → Progress
line_while (some t) parse g now l r = goes_on (record r { waiting = r.waiting ++ l ∷ [] }) []
line_while none parse g now l r =
    if r.up
    then goes_on (record r { stream = in_line parse now l r.stream }) (sends l ∷ [])
    else restarted parse g now (l ∷ []) r

unfoldable pub on_line : Parser → Config → ℕ → Bytes → Run → Progress
on_line parse g now l r = line_while r.stopping parse g now l r

abbrev pub end_while : Option ℕ → Run → Progress
end_while none r = goes_on (record r { ending = true }) (close_stdin ∷ [])
end_while (some t) r = goes_on r []

unfoldable pub on_stdin_end : Run → Progress
on_stdin_end r =
    let q = record r { eof = true } in
    if not r.up then returns q (record { code = pos 0; error = none }) else end_while r.stopping q

unfoldable pub on_signal : ℕ → Run → Progress
on_signal sig r =
    if r.up
    then goes_on (record r { ending = true }) (signals sig ∷ [])
    else returns r (record { code = r.code; error = none })

-- The code of a Claude that was stopped, or of a SIGTERM if it was cut off.
abbrev pub stopped_code : Result → ℤ
stopped_code c = elim c.error [ none ↦ c.code | some e ↦ pos (128 + sigterm) ]

-- The rest of the case of an exit: the SDK's stdin may have ended meanwhile.
unfoldable pub after_stop : Progress → Progress
after_stop p =
    if p.run.eof
    then if p.run.up
      then goes_on (record p.run { ending = true }) (p.effects ++ close_stdin ∷ [])
      else record p { ended = some (record { code = pos 0; error = none }) }
    else p

-- Claude has exited, and the lines that waited go to the next one.
unfoldable pub replaced : Parser → Config → ℕ → Result → Run → Progress
unfolding restarted
replaced parse g now c r =
    let q = record r { up = false; stopping = none; code = stopped_code c } in
    let p = restarted parse g now r.waiting q in
    if is_empty r.waiting then goes_on q (reaped ∷ []) else goes_on p.run (reaped ∷ p.effects)

abbrev pub exit_while : Option ℕ → Parser → Config → ℕ → Result → Run → Progress
exit_while none parse g now c r = returns r c
exit_while (some t) parse g now c r =
    if r.ending then returns r c else after_stop (replaced parse g now c r)

unfoldable pub on_exit : Parser → Config → ℕ → Result → Run → Progress
unfolding replaced after_stop
on_exit parse g now c r = exit_while r.stopping parse g now c r

abbrev pub tick_while : Option ℕ → Config → ℕ → Run → Progress
tick_while (some t) g now r = goes_on r (if leb stop_timeout (now - t) then cut_off ∷ [] else [])
tick_while none g now r =
    if is_idle r.stream && leb g.idle (now - r.stream.last_line)
    then goes_on (record r { stopping = some now }) (signals sigterm ∷ [])
    else goes_on r []

unfoldable pub on_tick : Config → ℕ → Run → Progress
on_tick g now r = if not r.up || r.ending then goes_on r [] else tick_while r.stopping g now r

unfoldable pub on_says : Parser → ℕ → Bytes → Run → Progress
on_says parse now l r =
    let (s, seen) = out_line parse now l r.stream in
    goes_on (record r { stream = s }) (if seen then passes l ∷ [] else [])

-- The select: no line comes once the stdin has ended, and nothing from a Claude that is not there.
unfoldable pub handle : Parser → Config → ℕ → Event → Run → Progress
unfolding on_line on_stdin_end on_signal on_exit on_tick on_says
handle parse g now (line l) r = if r.eof then goes_on r [] else on_line parse g now l r
handle parse g now stdin_end r = if r.eof then goes_on r [] else on_stdin_end r
handle parse g now (signal sig) r = on_signal sig r
handle parse g now (exits c) r = if r.up then on_exit parse g now c r else goes_on r []
handle parse g now tick r = on_tick g now r
handle parse g now (says l) r = if r.up then on_says parse now l r else goes_on r []

-- How far a run got: `rest` are the events that came after it returned.
pub record Log : Type 0 where
  pub run : Run
  pub effects : List Effect
  pub ended : Option Result
  pub rest : List (ℕ × Event)

abbrev pub then_log : Option Result → Progress → List (ℕ × Event) → Log → Log
then_log (some c) p es l = record { run = p.run; effects = p.effects; ended = some c; rest = es }
then_log none p es l = record l { effects = p.effects ++ l.effects }

unfoldable pub run_from : Parser → Config → Run → List (ℕ × Event) → Log
unfolding handle
run_from parse g r [] = record { run = r; effects = []; ended = none; rest = [] }
run_from parse g r ((now, e) ∷ es) =
    let p = handle parse g now e r in then_log p.ended p es (run_from parse g p.run es)

abbrev pub first_run : Run
first_run = record {
  stream = new_stream;
  up = true;
  waiting = [];
  eof = false;
  stopping = none;
  ending = false;
  code = pos 0;
}

-- run: the first Claude, then the loop.
unfoldable pub run : Parser → Config → List (ℕ × Event) → Log
unfolding run_from
run parse g es =
    let l = run_from parse g first_run es in record l { effects = start g.argv ∷ l.effects }
