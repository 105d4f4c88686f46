-- ===== src/Hibernate/Stream.antt =====
-- Claude's stream-json conversation with its SDK (internal/hibernate/stream.go). How a line is
-- read as JSON is an argument: `none` for a line that is none.
pub mod Replay
pub mod Answers
pub mod Args
use fern.Prelude.{
  ℕ, zero, suc, ◌+◌, Bool, true, false, not, ◌&&◌, ◌||◌, Option, none, some, List, [], ◌∷◌, ◌++◌,
  Bytes, codes, ◌==◌, if◌then◌else◌, equal, is_empty, length, take, drop,
}
use fern.Text.{last_index}
use fern.Sets.{listed, unlisted, enlisted, value_of, store}

-- replayed, in the order in which a restart sends them.
abbrev pub replayed : List Bytes
replayed =
    codes "initialize"
    ∷ codes "mcp_set_servers"
    ∷ codes "set_model"
    ∷ codes "set_permission_mode"
    ∷ codes "set_max_thinking_tokens"
    ∷ codes "apply_flag_settings"
    ∷ codes "update_settings"
    ∷ codes "set_mcp_permission_mode_override"
    ∷ codes "set_cwd"
    ∷ codes "channel_enable"
    ∷ codes "set_chrome_browser_hints"
    ∷ []

-- message: `request` is its subtype, `response` its request's ID, `tasks` how many there are.
pub record Message : Type 0 where
  pub kind : Bytes
  pub subtype : Bytes
  pub session_id : Bytes
  pub request_id : Bytes
  pub request : Option Bytes
  pub response : Option Bytes
  pub task_id : Bytes
  pub tasks : ℕ

abbrev pub Parser : Type 0
Parser = Bytes → Option Message

-- stream, less its lock: `to_claude`, `to_sdk`, `running` and `swallow` are sets.
pub record Stream : Type 0 where
  pub session : Bytes
  pub busy : Bool
  pub to_claude : List Bytes
  pub to_sdk : List Bytes
  pub tasks : ℕ
  pub running : List Bytes
  pub setup : List (Bytes × Bytes)
  pub swallow : List Bytes
  pub last_line : ℕ

abbrev pub new_stream : Stream
new_stream = record {
  session = [];
  busy = false;
  to_claude = [];
  to_sdk = [];
  tasks = 0;
  running = [];
  setup = [];
  swallow = [];
  last_line = 0;
}

-- The newest line of each subtype that is replayed.
abbrev pub keep_setup : Option Bytes → Bytes → List (Bytes × Bytes) → List (Bytes × Bytes)
keep_setup none line m = m
keep_setup (some sub) line m = if listed sub replayed then store sub line m else m

abbrev pub answered : Option Bytes → List Bytes → List Bytes
answered none s = s
answered (some id) s = unlisted id s

-- In, of a line that is a message.
unfoldable pub in_message : Bytes → Message → Stream → Stream
in_message line m s =
    if equal m.kind (codes "user")
    then record s { busy = true }
    else if equal m.kind (codes "control_request")
    then record s {
      to_claude = enlisted m.request_id s.to_claude;
      setup = keep_setup m.request line s.setup;
    }
    else if equal m.kind (codes "control_cancel_request")
    then record s { to_claude = unlisted m.request_id s.to_claude }
    else if equal m.kind (codes "control_response")
    then record s { to_sdk = answered m.response s.to_sdk }
    else s

abbrev pub in_parsed : Option Message → Bytes → Stream → Stream
in_parsed none line s = s
in_parsed (some m) line s = in_message line m s

-- In: a line that the SDK sent to Claude.
unfoldable pub in_line : Parser → ℕ → Bytes → Stream → Stream
unfolding in_message
in_line parse now line s = in_parsed (parse line) line (record s { last_line = now })

unfoldable pub system_message : Message → Stream → Stream
system_message m s =
    if equal m.subtype (codes "init")
    then record s { session = m.session_id }
    else if equal m.subtype (codes "background_tasks_changed")
    then record s { tasks = m.tasks }
    else if equal m.subtype (codes "task_started")
    then record s { running = enlisted m.task_id s.running }
    else if equal m.subtype (codes "task_notification")
    then record s { running = unlisted m.task_id s.running }
    else s

-- An answer of Claude's, and whether the SDK may see it.
abbrev pub answer : Option Bytes → Stream → Stream × Bool
answer none s = (s, true)
answer (some id) s =
    let t = record s { to_claude = unlisted id s.to_claude } in
    if listed id s.swallow then (record t { swallow = unlisted id s.swallow }, false) else (t, true)

unfoldable pub out_message : Message → Stream → Stream × Bool
unfolding system_message
out_message m s =
    if equal m.kind (codes "system")
    then (system_message m s, true)
    else if equal m.kind (codes "result")
    then (record s { busy = false }, true)
    else if equal m.kind (codes "control_request")
    then (record s { to_sdk = enlisted m.request_id s.to_sdk }, true)
    else if equal m.kind (codes "control_response")
    then answer m.response s
    else (s, true)

abbrev pub out_parsed : Option Message → Stream → Stream × Bool
out_parsed none s = (s, true)
out_parsed (some m) s = out_message m s

-- Out: a line that Claude sent, and whether the SDK may see it.
unfoldable pub out_line : Parser → ℕ → Bytes → Stream → Stream × Bool
unfolding out_message
out_line parse now line s = out_parsed (parse line) (record s { last_line = now })

-- idleSince's second result; the first is `last_line`.
unfoldable pub is_idle : Stream → Bool
is_idle s =
    not (is_empty s.session)
    && not s.busy
    && is_empty s.to_claude
    && is_empty s.to_sdk
    && (s.tasks == 0)
    && is_empty s.running

-- The answer to a replayed line is kept from the SDK.
abbrev pub expect : Option Message → Stream → Stream
expect none s = s
expect (some m) s = record s {
  swallow = enlisted m.request_id s.swallow;
  to_claude = enlisted m.request_id s.to_claude;
}

abbrev pub replay_line : Parser → Option Bytes → Stream × List Bytes → Stream × List Bytes
replay_line parse none r = r
replay_line parse (some line) r = (expect (parse line) r.0, r.1 ++ line ∷ [])

-- The loop of restart.
unfoldable pub replay : Parser → List Bytes → Stream × List Bytes → Stream × List Bytes
replay parse [] r = r
replay parse (sub ∷ subs) r = replay parse subs (replay_line parse (value_of sub r.0.setup) r)

-- sessionFlags: whether it is one, and whether it takes a value.
abbrev session_flags : List (Bytes × Bool)
session_flags =
    (codes "--session-id", true)
    ∷ (codes "--resume", true)
    ∷ (codes "-r", true)
    ∷ (codes "--resume-session-at", true)
    ∷ (codes "--resume-drops-turn", true)
    ∷ (codes "--fork-session", false)
    ∷ (codes "--continue", false)
    ∷ (codes "-c", false)
    ∷ []

-- strings.Cut at "=": what stands before it, and whether there is one.
unfoldable pub cut_name : Bytes → Bytes × Bool
cut_name [] = ([], false)
cut_name (c ∷ cs) = let rest = cut_name cs in if c == b'=' then ([], true) else (c ∷ rest.0, rest.1)

-- What becomes of the arguments after the first: `skip` says that the last flag takes this one as
-- its value.
unfoldable pub without_session : Bool → List Bytes → List Bytes
unfolding cut_name value_of
without_session skip [] = []
without_session true (a ∷ as_) = without_session false as_
without_session false (a ∷ as_) = elim (value_of (cut_name a).0 session_flags) [
  | none ↦ a ∷ without_session false as_
  | some takes ↦ without_session (takes && not (cut_name a).1) as_
]

unfoldable pub resume_args : List Bytes → Bytes → List Bytes
unfolding without_session
resume_args [] session = (codes "--resume=" ++ session) ∷ []
resume_args (a ∷ as_) session =
    a ∷ (without_session false as_ ++ (codes "--resume=" ++ session) ∷ [])

-- restart: the arguments, the lines to send first, and the stream afterwards.
unfoldable pub restart : Parser → List Bytes → Stream → Stream × List Bytes × List Bytes
unfolding replay resume_args
restart parse argv s =
    let r =
      replay parse replayed
        (record s { tasks = 0; running = []; to_claude = []; to_sdk = [] }, []) in
    (r.0, resume_args argv s.session, r.1)

unfoldable pub trim_slashes : Bytes → Bytes
trim_slashes [] = []
trim_slashes (c ∷ cs) =
    let rest = trim_slashes cs in if is_empty rest && (c == b'/') then [] else c ∷ rest

-- filepath.Base
unfoldable pub base_name : Bytes → Bytes
unfolding trim_slashes
base_name p =
    let q = trim_slashes p in
    if is_empty p
    then codes "."
    else if is_empty q
    then codes "/"
    else elim (last_index q (codes "/")) [ none ↦ q | some i ↦ drop (suc i) q ]

unfoldable pub has_flag : List Bytes → Bytes → Bytes → Bool
has_flag [] name value = false
has_flag (a ∷ []) name value = equal a (name ++ b'=' ∷ value)
has_flag (a ∷ b ∷ as_) name value =
    equal a (name ++ b'=' ∷ value)
    || (equal a name && equal b value)
    || has_flag (b ∷ as_) name value

-- isStreamingClaude
unfoldable pub is_streaming_claude : List Bytes → Bool
unfolding base_name has_flag
is_streaming_claude [] = false
is_streaming_claude (a ∷ as_) =
    equal (base_name a) (codes "claude")
    && has_flag (a ∷ as_) (codes "--input-format") (codes "stream-json")
    && has_flag (a ∷ as_) (codes "--output-format") (codes "stream-json")
