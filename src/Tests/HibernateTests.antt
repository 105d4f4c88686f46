-- ===== src/Tests/HibernateTests.antt =====
-- internal/hibernate, at a Claude that is stopped while a line comes.
use fern.Prelude.{
  Option, not, ◌&&◌, ◌||◌, ℕ, ◌+◌, ◌≡◌, refl, true, false, none, some, List, [], ◌∷◌, ◌++◌, Bytes,
  codes, equal, if◌then◌else◌, All,
}
use fern.Text.{last_index, has_prefix}
use fern.Decimal.{pos}
use fern.Sets.{listed, value_of, store, unlisted, enlisted}
use fern.Hibernate.Stream.{
  Message, Parser, Stream, new_stream, replayed, restart, is_idle, out_message, in_message, in_line,
  out_line, system_message, replay, resume_args, without_session, cut_name, is_streaming_claude,
  base_name, trim_slashes, has_flag,
}
use fern.Hibernate.Stream.Args.{
  Piece, printed, ended, IsPiece, IsEnd, others, resume_args-resume_args,
}
use fern.Hibernate.Stream.Answers.{answered_in, cancelled_in, has_sent, restart-answers}
use fern.Hibernate.Stream.Replay.{
  Traffic, from_sdk, from_claude, follow, newest, picks, restart-newest,
}
use fern.Hibernate.Run.{
  Config, Event, line, says, tick, exits, start, signals, reaped, replays, sends, passes, run,
  run_from, handle, on_line, on_says, on_tick, on_exit, replaced, after_stop, restarted, in_lines,
}
use fern.Hibernate.Run.Lines.{sent, said, to_come}
use fern.Hibernate.Run.Delivery.{run-sent}
use fern.Hibernate.Run.Order.{there_after, run-there}
use fern.Hibernate.Output.{Sink, Writer, write, pass}
use fern.Hibernate.Output.Pieces.{end_of, write-write}

abbrev blank : Message
blank = record {
  kind = [];
  subtype = [];
  session_id = [];
  request_id = [];
  request = none;
  response = none;
  task_id = [];
  tasks = 0;
}

abbrev set_model : Message
set_model = record blank {
  kind = codes "control_request";
  request_id = codes "r1";
  request = some (codes "set_model");
}

abbrev set_model_done : Message
set_model_done = record blank { kind = codes "control_response"; response = some (codes "r1") }

abbrev parse : Parser
parse l =
    if equal l (codes "init")
    then some
        (record blank { kind = codes "system"; subtype = codes "init"; session_id = codes "s1" })
    else if equal l (codes "model")
    then some set_model
    else if equal l (codes "model done")
    then some set_model_done
    else if equal l (codes "hello")
    then some (record blank { kind = codes "user" })
    else if equal l (codes "result")
    then some (record blank { kind = codes "result" })
    else none

abbrev config : Config
config = record { argv = codes "claude" ∷ codes "-c" ∷ codes "--verbose" ∷ []; idle = 100 }

-- The SDK sets a model and sends a line; Claude answers, is idle and is stopped; a line comes while
-- it is, and goes to the next Claude, whose answer to the setup is kept.
abbrev turns : List (ℕ × Event)
turns =
    (1, line (codes "model"))
    ∷ (2, says (codes "init"))
    ∷ (3, says (codes "model done"))
    ∷ (4, line (codes "hello"))
    ∷ (5, says (codes "result"))
    ∷ (200, tick)
    ∷ (201, line (codes "hello"))
    ∷ (202, exits (record { code = pos 143; error = none }))
    ∷ (203, says (codes "model done"))
    ∷ []

run_effects :
    (run parse config turns).effects
    ≡ start (codes "claude" ∷ codes "-c" ∷ codes "--verbose" ∷ [])
      ∷ sends (codes "model")
      ∷ passes (codes "init")
      ∷ passes (codes "model done")
      ∷ sends (codes "hello")
      ∷ passes (codes "result")
      ∷ signals 15
      ∷ reaped
      ∷ start (codes "claude" ∷ codes "--verbose" ∷ codes "--resume=s1" ∷ [])
      ∷ replays (codes "model")
      ∷ sends (codes "hello")
      ∷ []
unfolding run run_from handle on_line on_says on_tick on_exit replaced after_stop restarted in_lines
    in_line out_line in_message out_message system_message is_idle restart replay resume_args
    without_session cut_name value_of store listed unlisted enlisted equal
run_effects = refl

run-sent_example :
    sent (run parse config turns).effects
      ++ (run parse config turns).run.waiting
      ++ to_come (run parse config turns).run (run parse config turns).rest
    ≡ said turns
run-sent_example = run-sent parse config turns

run-there_example :
    there_after false (run parse config turns).effects ≡ some (run parse config turns).run.up
run-there_example = run-there parse config turns

abbrev old_argv : List Bytes
old_argv = codes "-r" ∷ codes "s0" ∷ codes "-c" ∷ codes "-p" ∷ codes "--resume" ∷ []

pieces_left :
    resume_args (codes "claude" ∷ old_argv) (codes "s1")
    ≡ (codes "claude" ∷ codes "-p" ∷ codes "--resume=s1" ∷ [])
unfolding resume_args without_session cut_name value_of equal
pieces_left = refl

resume_args-resume_args_example :
    (ps : List Piece) × (end : Option Bytes) × (old_argv ≡ printed ps ++ ended end)
    × All IsPiece ps
    × IsEnd end
    × (resume_args (codes "claude" ∷ old_argv) (codes "s1")
        ≡ codes "claude" ∷ (others ps ++ (codes "--resume=" ++ codes "s1") ∷ []))
    × (resume_args (resume_args (codes "claude" ∷ old_argv) (codes "s1")) (codes "s2")
        ≡ resume_args (codes "claude" ∷ old_argv) (codes "s2"))
resume_args-resume_args_example =
    resume_args-resume_args (codes "claude") old_argv (codes "s1") (codes "s2")

abbrev traffic : List Traffic
traffic = from_sdk 1 (codes "model") ∷ from_claude 2 (codes "init") ∷ []

restart-newest_example :
    (restart parse (codes "claude" ∷ []) (follow parse traffic new_stream)).2
    ≡ picks (λ sub. newest parse sub traffic) replayed
restart-newest_example = restart-newest parse (codes "claude" ∷ []) traffic

abbrev set_up : Stream
set_up = record new_stream { setup = (codes "set_model", codes "model") ∷ [] }

-- The SDK says hello before Claude has answered the setup, and Claude has a result.
abbrev talk : List Traffic
talk = from_sdk 3 (codes "hello") ∷ from_claude 4 (codes "result") ∷ []

restart-answers_example :
    let lines = (restart parse (codes "claude" ∷ []) set_up).2 in
    let now = follow parse talk (restart parse (codes "claude" ∷ []) set_up).0 in
    ((out_message set_model_done now).1
      ≡ answered_in parse (codes "r1") talk
        || not (listed (codes "r1") set_up.swallow || has_sent parse (codes "r1") lines))
    × ((has_sent parse (codes "r1") lines
            && not (answered_in parse (codes "r1") talk)
            && not (cancelled_in parse (codes "r1") talk))
          && is_idle now
        ≡ false)
restart-answers_example =
    restart-answers parse (codes "claude" ∷ []) set_up talk (codes "r1") set_model_done refl refl

one_sent : has_sent parse (codes "r1") (restart parse (codes "claude" ∷ []) set_up).2 ≡ true
unfolding restart replay value_of equal
one_sent = refl

-- A sink that keeps all lines but "secret", and counts those it was shown.
abbrev counting : Sink ℕ (List Bytes)
counting = record {
  keep = λ k l. (k + 1, if equal l (codes "secret") then false else true);
  put = λ w l. some (w ++ l ∷ []);
}

abbrev begun : Writer ℕ (List Bytes)
begun = record { kept = 0; out = []; buf = codes "sec"; failed = false }

write-write_example :
    end_of (write counting (10 ∷ codes "b") (write counting (codes "ret" ++ 10 ∷ codes "a") begun))
    ≡ end_of (write counting ((codes "ret" ++ 10 ∷ codes "a") ++ 10 ∷ codes "b") begun)
unfolding write pass equal
write-write_example =
    write-write counting (codes "ret" ++ 10 ∷ codes "a") (10 ∷ codes "b") begun refl

streams :
    is_streaming_claude (
      codes "/usr/bin/claude"
      ∷ codes "--input-format"
      ∷ codes "stream-json"
      ∷ codes "--output-format=stream-json"
      ∷ [])
    ≡ true
unfolding is_streaming_claude base_name trim_slashes has_flag last_index has_prefix equal
streams = refl
