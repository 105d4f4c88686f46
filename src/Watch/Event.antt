-- ===== src/Watch/Event.antt =====
-- decode and info of internal/watch/event.go.
pub mod Bounds
use fern.Prelude.{
  ℕ, zero, suc, ◌+◌, ◌-◌, ◌/◌, ◌%◌, ◌^◌, Bool, true, false, ◌&&◌, ◌||◌, not, List, [], ◌∷◌, ◌++◌,
  Bytes, ltb, leb, ◌==◌, if◌then◌else◌, is_empty, length,
}
use fern.Decimal.{ℤ, pos, negsuc, itoa}
use fern.Watch.Slices.{
  Out, ok, err, panic, diverges, short, version, ◌>>=◌, ◌>>◌, fail_if, slice, slice_from, uint,
  byte_at,
}

-- event
pub record Event : Type 0 where
  pub mask : ℕ
  pub pid : ℤ
  pub handle : Bytes
  pub name : Bytes

abbrev pub metadata_len : ℕ
metadata_len = 24

abbrev pub info_header : ℕ
info_header = 4

abbrev pub fsid_len : ℕ
fsid_len = 8

abbrev pub handle_header : ℕ
handle_header = 8

-- The kernel's constants, as unix names them: FANOTIFY_METADATA_VERSION and the info types
-- FAN_EVENT_INFO_TYPE_DFID_NAME and FAN_EVENT_INFO_TYPE_DFID.
abbrev pub metadata_version : ℕ
metadata_version = 3

abbrev pub dfid_name : ℕ
dfid_name = 2

abbrev pub dfid : ℕ
dfid = 3

-- int32(u), for a 32-bit `u`
abbrev pub int32 : ℕ → ℤ
int32 u = if ltb u (2 ^ 31) then pos u else negsuc (2 ^ 32 - 1 - u)

abbrev pub hex_digit : ℕ → ℕ
hex_digit d = if ltb d 10 then 48 + d else 87 + d

-- %x of bytes
unfoldable pub hex : Bytes → Bytes
hex [] = []
hex (b ∷ bs) = hex_digit (b / 16) ∷ hex_digit (b % 16) ∷ hex bs

-- %d of an int32
unfoldable pub decimal : ℤ → Bytes
unfolding itoa
decimal (pos n) = itoa n
decimal (negsuc n) = b'-' ∷ itoa (n + 1)

-- handleKey
unfoldable pub handle_key : ℤ → Bytes → Bytes
unfolding hex decimal
handle_key typ handle = decimal typ ++ b':' ∷ hex handle

-- The name ends before its first NUL.
unfoldable pub until_nul : Bytes → Bytes
until_nul [] = []
until_nul (c ∷ cs) = let rest = until_nul cs in if c == 0 then [] else c ∷ rest

named : ℕ → Bytes → ℕ → Event → Out Event
unfolding until_nul
named typ rec h_len e =
    if typ == dfid_name
    then (do name ← slice_from rec (handle_header + h_len); ok (record e { name = until_nul name }))
    else ok e

-- A folder's handle and, for DFID_NAME, the name behind it, from a record without its header.
handle_record : ℕ → Bytes → Event → Out Event
unfolding handle_key
handle_record typ rec e = do
  fail_if (ltb (length rec) (fsid_len + handle_header)) short
  body ← slice_from rec fsid_len
  h_len ← uint 4 body 0
  h_type ← uint 4 body 4
  fail_if (ltb (length body - handle_header) h_len) short
  handle ← slice body handle_header (handle_header + h_len)
  named typ body h_len (record e { handle = handle_key (int32 h_type) handle })

abbrev skipped : ℕ → Bool
skipped typ = not (typ == dfid_name) && not (typ == dfid)

-- What one info record does to the event.
info_record : ℕ → Bytes → Event → Out Event
info_record typ rec e = if skipped typ then ok e else handle_record typ rec e

-- The loop of info, on fuel.
info_fuel : ℕ → Bytes → Event → Out Event
info_fuel fuel [] e = ok e
info_fuel zero (r ∷ rs) e = diverges
info_fuel (suc fuel) (r ∷ rs) e =
    let recs = r ∷ rs in
    do
      fail_if (ltb (length recs) info_header) short
      typ ← byte_at recs 0
      n ← uint 2 recs 2
      fail_if (ltb n info_header || ltb (length recs) n) short
      rec ← slice recs info_header n
      rest ← slice_from recs n
      e' ← info_record typ rec e
      info_fuel fuel rest e'

-- info
info : Bytes → Event → Out Event
info recs e = info_fuel (length recs) recs e

abbrev pub bad_lengths : Bytes → ℕ → ℕ → Bool
bad_lengths buf ev_len meta_len =
    ltb ev_len metadata_len
    || ltb meta_len metadata_len
    || ltb ev_len meta_len
    || ltb (length buf) ev_len

-- One event at the start of `buf`, and its length.
event_at : Bytes → Out (Event × ℕ)
event_at buf = do
  fail_if (ltb (length buf) metadata_len) short
  ev_len ← uint 4 buf 0
  vers ← byte_at buf 4
  meta_len ← uint 2 buf 6
  fail_if (not (vers == metadata_version)) (version vers)
  fail_if (bad_lengths buf ev_len meta_len) short
  mask ← uint 8 buf 8
  pid ← uint 4 buf 20
  recs ← slice buf meta_len ev_len
  e ← info recs (record { mask = mask; pid = int32 pid; handle = []; name = [] })
  ok (e, ev_len)

-- The loop of decode, on fuel.
decode_fuel : ℕ → Bytes → Out (List Event)
decode_fuel fuel [] = ok []
decode_fuel zero (b ∷ bs) = diverges
decode_fuel (suc fuel) (b ∷ bs) = do
  (e, ev_len) ← event_at (b ∷ bs)
  rest ← slice_from (b ∷ bs) ev_len
  evs ← decode_fuel fuel rest
  ok (e ∷ evs)

-- decode. Each round takes at least one byte, so the bytes are fuel enough.
unfoldable pub decode : Bytes → Out (List Event)
unfolding decode_fuel event_at info info_fuel info_record handle_record named slice_from slice uint
    byte_at
decode buf = decode_fuel (length buf) buf
