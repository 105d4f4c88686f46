-- ===== src/Hibernate/Run/Delivery.antt =====
-- No line of the SDK's is lost, doubled or reordered while Claude is stopped and started.
use fern.Prelude.{
  ℕ, ◌≡◌, refl, sym, ap, ◌∙◌, Bool, true, false, not, Option, none, some, List, [], ◌∷◌, ◌++◌,
  Bytes, if◌then◌else◌, append-nil, append_assoc, arith,
}
use fern.Decimal.{pos}
use fern.Hibernate.Stream.{Parser}
use fern.Hibernate.Run.{
  Result, Event, line, says, stdin_end, tick, signal, exits, Config, Run, Progress, goes_on,
  returns, on_line, on_stdin_end, on_signal, on_exit, end_while, on_tick, on_says, handle, Log,
  then_log, run_from, first_run, run,
}
use fern.Hibernate.Run.Lines.{
  sent, said, to_come, Holds, IsSettled, sent-append, Delivers, exit_while-Delivers,
  on_tick-Delivers, if_up-Delivers, on_signal-Delivers, on_says-Delivers, on_line-Delivers,
}

-- What is left to come after an event, and what came before it.
abbrev Accounts : Run → List Bytes → List Bytes → List (ℕ × Event) → Progress → Type 0
Accounts r ls ms es p =
    (sent p.effects ++ p.run.waiting ++ to_come p.run es ≡ r.waiting ++ ms) × IsSettled p.run

Delivers-Accounts :
    (r : Run) (ls : List Bytes) (es : List (ℕ × Event)) (p : Progress)
    → Delivers r ls p
    → Accounts r ls (ls ++ to_come r es) es p
Delivers-Accounts r ls es p h =
    (rw (h.2) (ap (λ xs. xs ++ to_come r es) h.0 ∙ append_assoc r.waiting ls (to_come r es)), h.1)

end_while-Accounts :
    (st : Option ℕ) (r : Run) (es : List (ℕ × Event))
    → r.eof ≡ true
    → r.stopping ≡ st
    → Holds st r.up r.waiting
    → Accounts r [] [] es (end_while st r)
unfolding sent
end_while-Accounts none r es f e h = ground (arith, append-nil r.waiting)
end_while-Accounts (some t) r es f e h = ground (arith, append-nil r.waiting)

on_line-Accounts :
    (b : Bool) (parse : Parser) (g : Config) (now : ℕ) (l : Bytes) (es : List (ℕ × Event)) (r : Run)
    → r.eof ≡ b
    → IsSettled r
    → Accounts r []
        (if b then [] else l ∷ said es)
        es
        (if b then goes_on r [] else on_line parse g now l r)
unfolding sent
on_line-Accounts true parse g now l es r e h = ground (arith, append-nil r.waiting)
on_line-Accounts false parse g now l es r e h =
    let p = on_line parse g now l r in
    let k = on_line-Delivers parse g now l r h in
    let q : to_come p.run es ≡ said es = ap (λ b. if b then [] else said es) (k.2 ∙ e) in
    (
      ap (λ xs. sent p.effects ++ p.run.waiting ++ xs) q
          ∙ ap (λ xs. xs ++ said es) k.0
          ∙ append_assoc r.waiting (l ∷ []) (said es),
      k.1,
    )

on_stdin_end-Accounts :
    (b : Bool) (es : List (ℕ × Event)) (r : Run)
    → r.eof ≡ b
    → IsSettled r
    → Accounts r [] (if b then [] else []) es (if b then goes_on r [] else on_stdin_end r)
unfolding on_stdin_end sent
on_stdin_end-Accounts true es r e h = ground (arith, append-nil r.waiting)
on_stdin_end-Accounts false es r e h = ended r.up
  where
    ended :
        (b : Bool)
        → Accounts r [] [] es (
            if not b
            then returns (record r { eof = true }) (record { code = pos 0; error = none })
            else end_while r.stopping (record r { eof = true }))
    ended true = end_while-Accounts r.stopping (record r { eof = true }) es refl refl h
    ended false = (refl, h)

handle-Accounts :
    (parse : Parser) (g : Config) (now : ℕ) (e : Event) (es : List (ℕ × Event)) (r : Run)
    → IsSettled r
    → Accounts r [] (to_come r ((now, e) ∷ es)) es (handle parse g now e r)
unfolding handle said
handle-Accounts parse g now (line l) es r h = on_line-Accounts r.eof parse g now l es r refl h
handle-Accounts parse g now stdin_end es r h = on_stdin_end-Accounts r.eof es r refl h
handle-Accounts parse g now (signal n) es r h =
    Delivers-Accounts r [] es (on_signal n r) (on_signal-Delivers n r h)
handle-Accounts parse g now (exits c) es r h =
    Delivers-Accounts r [] es (if r.up then on_exit parse g now c r else goes_on r []) (
      if_up-Delivers r.up r (on_exit parse g now c r) h
        (exit_while-Delivers r.stopping parse g now c r refl h))
handle-Accounts parse g now tick es r h =
    Delivers-Accounts r [] es (on_tick g now r) (on_tick-Delivers g now r h)
handle-Accounts parse g now (says l) es r h =
    Delivers-Accounts r [] es (if r.up then on_says parse now l r else goes_on r [])
      (if_up-Delivers r.up r (on_says parse now l r) h (on_says-Delivers parse now l r h))

then_log-Accounts :
    (o : Option Result) (r : Run) (ms : List Bytes) (es : List (ℕ × Event)) (p : Progress) (l : Log)
    → Accounts r [] ms es p
    → (sent l.effects ++ l.run.waiting ++ to_come l.run l.rest ≡ p.run.waiting ++ to_come p.run es)
    → sent (then_log o p es l).effects
        ++ (then_log o p es l).run.waiting
        ++ to_come (then_log o p es l).run (then_log o p es l).rest
      ≡ r.waiting ++ ms
then_log-Accounts (some c) r ms es p l h k = h.0
then_log-Accounts none r ms es p l h k =
    ap (λ xs. xs ++ l.run.waiting ++ to_come l.run l.rest) (sent-append p.effects l.effects)
    ∙ ap (λ xs. xs ++ to_come l.run l.rest)
        (append_assoc (sent p.effects) (sent l.effects) l.run.waiting)
    ∙ append_assoc (sent p.effects) (sent l.effects ++ l.run.waiting) (to_come l.run l.rest)
    ∙ ap (λ xs. sent p.effects ++ xs) k
    ∙ sym (append_assoc (sent p.effects) p.run.waiting (to_come p.run es))
    ∙ h.0

run_from-Accounts :
    (parse : Parser) (g : Config) (es : List (ℕ × Event)) (r : Run)
    → IsSettled r
    → sent (run_from parse g r es).effects
        ++ (run_from parse g r es).run.waiting
        ++ to_come (run_from parse g r es).run (run_from parse g r es).rest
      ≡ r.waiting ++ to_come r es
unfolding run_from sent said
run_from-Accounts parse g [] r h = refl
run_from-Accounts parse g ((now, e) ∷ es) r h =
    let p = handle parse g now e r in
    let k = handle-Accounts parse g now e es r h in
    then_log-Accounts p.ended r (to_come r ((now, e) ∷ es)) es p (run_from parse g p.run es) k
      (run_from-Accounts parse g es p.run k.1)

-- Whatever happens: the lines that run has sent to its Claudes, followed by those that wait for the
-- next one and by those that are still to come when it returns, are the lines of the SDK, in their
-- order.
pub run-sent :
    (parse : Parser) (g : Config) (es : List (ℕ × Event))
    → sent (run parse g es).effects
        ++ (run parse g es).run.waiting
        ++ to_come (run parse g es).run (run parse g es).rest
      ≡ said es
unfolding run sent
run-sent parse g es = run_from-Accounts parse g es first_run refl
