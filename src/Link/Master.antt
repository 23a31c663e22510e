-- ===== src/Link/Master.antt =====
-- link/master.hpp and link/master.cpp: the host's transaction engine. The clock's reading is an
-- argument of `begin`, as it is of `poll`. The buffer response_buf_ is the payload of the event.
pub mod Invariant
pub mod Silence
pub mod Memory
pub mod Gap
pub mod Transmissions
pub mod Attempts
pub mod Outcome
pub mod Answers
use omgp.Base.{
  ℕ, ◌+◌, ◌*◌, ◌%◌, ◌^◌, Bool, true, false, not, ◌&&◌, List, [], ◌∷◌, Option, none, some, ltb, leb,
  ◌==◌, if◌then◌else◌, bit_and, Bytes, length, get_or, modify, replicate, min, max,
}
use omgp.Base.Words.{u8, inc32}
use omgp.Protocol.{max_l3_message, flag_byte, resp_us, gap_us, retries}
use omgp.Link.Frame.{encode_frame}
use omgp.Link.Types.{
  LinkStatus, ok, payload_too_long, reserved_address, busy, max_wire, addr_count, byte_time_us,
  FrameFields, AddrStats, no_addr_stats, BusStats, no_bus_stats,
}
use omgp.Link.Wire.{RxByte, Wire, tx_end, transmit}
use omgp.Link.Deframer.{Deframer, DeframerState, hunting, in_frame, escaped, feed, new_deframer}

pub data Reason : Type 0 where
  timeout crc_failed : Reason

pub data MasterEvent : Type 0 where
  no_event : MasterEvent
  answered : FrameFields → MasterEvent
  failed : Reason → MasterEvent

pub data SubPhase : Type 0 where
  await_response pending_transmit : SubPhase

-- `payload` holds the `len_` bytes of payload_ that are in use.
pub record Master : Type 0 where
  pub wire : Wire
  pub host_addr : ℕ
  pub deframer : Deframer
  pub last_rx_us : ℕ
  pub resp_open_us : ℕ
  pub next_seq : List ℕ
  pub is_open : Bool
  pub sub_phase : SubPhase
  pub dst : ℕ
  pub seq : ℕ
  pub attempt_count : ℕ
  pub payload : Bytes
  pub deadline : ℕ
  pub defer_origin_us : ℕ
  pub window_start_us : ℕ
  pub has_last_activity : Bool
  pub last_activity : ℕ
  pub stats : List AddrStats
  pub bus_stats : BusStats

pub new_master : Wire → ℕ → Master
new_master w host = record {
  wire = w;
  host_addr = host;
  deframer = new_deframer;
  last_rx_us = 0;
  resp_open_us = 0;
  next_seq = replicate addr_count 0;
  is_open = false;
  sub_phase = await_response;
  dst = 0;
  seq = 0;
  attempt_count = 0;
  payload = [];
  deadline = 0;
  defer_origin_us = 0;
  window_start_us = 0;
  has_last_activity = false;
  last_activity = 0;
  stats = replicate addr_count no_addr_stats;
  bus_stats = no_bus_stats;
}

-- A rate that is 0, or that gives a byte time of 0, is refused.
pub set_bit_rate : ℕ → Master → Master
set_bit_rate bps m = if bps == 0 then m else if byte_time_us bps == 0 then m else record m {
  wire = record (m.wire) { bit_rate = bps };
  bus_stats = record (m.bus_stats) { rate_changes = inc32 m.bus_stats.rate_changes };
}

pub stats_of : Master → ℕ → AddrStats
stats_of m addr = if leb addr_count addr then no_addr_stats else get_or m.stats addr no_addr_stats

pub reset_stats : Master → Master
reset_stats m = record m { stats = replicate addr_count no_addr_stats; bus_stats = no_bus_stats }

abbrev pub is_awaiting : SubPhase → Bool
is_awaiting await_response = true
is_awaiting pending_transmit = false

abbrev pub is_in_frame : DeframerState → Bool
is_in_frame hunting = false
is_in_frame in_frame = true
is_in_frame escaped = true

abbrev pub awaiting : Master → Bool
awaiting m = m.is_open && is_awaiting m.sub_phase

abbrev pub byte_us : Master → ℕ
byte_us m = byte_time_us m.wire.bit_rate

unfoldable pub max_frame_us : Master → ℕ
max_frame_us m = max_wire * byte_us m

frame_arriving : Master → ℕ → Bool
unfolding max_frame_us
frame_arriving m now_us =
    if is_in_frame m.deframer.state
    then leb now_us (m.last_rx_us + byte_us m) && leb now_us (m.resp_open_us + max_frame_us m)
    else false

-- The request of the open transaction, as do_transmit() builds it.
unfoldable pub request : Master → FrameFields
request m = record {
  dst = m.dst;
  src = m.host_addr;
  response = false;
  retry = ltb 0 m.attempt_count;
  seq = m.seq;
  len = u8 (length m.payload);
  payload = m.payload;
}

count_transmission : ℕ → AddrStats → AddrStats
count_transmission attempts s =
    if attempts == 0
    then record s { transactions = inc32 s.transactions }
    else record s { retries = inc32 s.retries }

unfoldable pub do_transmit : ℕ → Master → Master
unfolding request count_transmission
do_transmit at_us m =
    let bytes = (encode_frame (request m) max_wire).1 in
    let end = tx_end m.wire bytes at_us in
    record m {
      wire = transmit m.wire bytes at_us;
      stats = modify m.dst (count_transmission m.attempt_count) m.stats;
      attempt_count = u8 (m.attempt_count + 1);
      sub_phase = await_response;
      window_start_us = end;
      deadline = end + resp_us;
    }

-- The instant that a pending transmission waits for: T_gap after the last activity, but no later
-- than one worst-case frame and T_gap after the instant it was first put off to.
unfoldable pub want_us : Master → ℕ
unfolding max_frame_us
want_us m =
    let gap_end =
      if m.has_last_activity && ltb m.deadline (m.last_activity + gap_us)
      then m.last_activity + gap_us
      else m.deadline in
    let cap_us = m.defer_origin_us + max_frame_us m + gap_us in
    if ltb cap_us gap_end then cap_us else gap_end

unfoldable pub fire_pending : ℕ → Master → Master
fire_pending now_us m =
    if m.is_open && not (is_awaiting m.sub_phase)
    then (let m' = record m { deadline = want_us m } in
        if leb m'.deadline now_us then do_transmit now_us m' else m')
    else m

count_failure : Reason → AddrStats → AddrStats
count_failure timeout s = record s { timeouts = inc32 s.timeouts }
count_failure crc_failed s = record s { crc_failures = inc32 s.crc_failures }

pub end_attempt : ℕ → Reason → Master → Master × MasterEvent
unfolding count_failure
end_attempt last_activity_us reason m =
    let m' = record m {
      stats = modify m.dst (count_failure reason) m.stats;
      last_activity =
          if ltb m.last_activity last_activity_us then last_activity_us else m.last_activity;
      has_last_activity = true;
    } in
    if ltb m.attempt_count (1 + retries)
    then (
      record m' {
        sub_phase = pending_transmit;
        deadline = m'.last_activity + gap_us;
        defer_origin_us = m'.last_activity + gap_us;
      },
      no_event,
    )
    else (record m' { is_open = false }, failed reason)

abbrev count_discard : AddrStats → AddrStats
count_discard s = record s { discards = inc32 s.discards }

-- A frame or a corrupt frame that is nobody's answer: charged to the polled node, or to the bus.
discard_at_bus : Master → Master
discard_at_bus m = record m {
  bus_stats = record (m.bus_stats) { discards = inc32 m.bus_stats.discards };
}

discard_at_dst : Master → Master
discard_at_dst m = record m { stats = modify m.dst count_discard m.stats }

-- Whether the frame that opened at `frame_open_us` opened inside the response window.
abbrev pub in_window : Master → ℕ → Bool
in_window m frame_open_us = leb m.window_start_us frame_open_us && ltb frame_open_us m.deadline

abbrev pub is_answer : Master → FrameFields → Bool
is_answer m f = f.response && (f.src == m.dst && (f.dst == m.host_addr && f.seq == m.seq))

-- The bookkeeping of every byte, whatever the deframer makes of it.
note_byte : RxByte → Deframer → Master → Master
note_byte r d m =
    let byte_end_us = r.start_us + byte_us m in
    record m {
      deframer = d;
      resp_open_us = if r.byte == flag_byte then r.start_us else m.resp_open_us;
      last_rx_us = byte_end_us;
      last_activity = if ltb m.last_activity byte_end_us then byte_end_us else m.last_activity;
      has_last_activity = true;
    }

unfoldable pub on_frame : ℕ → Option FrameFields → Master → MasterEvent → Master × MasterEvent
unfolding discard_at_bus discard_at_dst
on_frame frame_open_us none m event = (m, event)
on_frame frame_open_us (some f) m event =
    if awaiting m && (is_answer m f && in_window m frame_open_us)
    then (record m { is_open = false }, answered f)
    else if awaiting m
    then (discard_at_dst m, event)
    else (discard_at_bus m, event)

on_bad_crc : ℕ → ℕ → Master → MasterEvent → Master × MasterEvent
unfolding end_attempt discard_at_bus
on_bad_crc frame_open_us byte_end_us m event =
    if awaiting m && in_window m frame_open_us
    then end_attempt byte_end_us crc_failed m
    else (discard_at_bus m, event)

-- The body of drain_wire()'s loop.
unfoldable pub on_byte : RxByte → Master → MasterEvent → Master × MasterEvent
unfolding note_byte on_frame on_bad_crc
on_byte r m event =
    let (d, out) = feed r.byte m.deframer in
    let m' = note_byte r d m in
    if ltb m.deframer.stats.bad_crcs d.stats.bad_crcs
    then on_bad_crc m.resp_open_us (r.start_us + byte_us m) m' event
    else on_frame m.resp_open_us out m' event

unfoldable pub drain : List RxByte → Master → MasterEvent → Master × MasterEvent
unfolding on_byte
drain [] m event = (m, event)
drain (r ∷ rs) m event = let (m', event') = on_byte r m event in drain rs m' event'

unfoldable pub drain_wire : Master → MasterEvent → Master × MasterEvent
unfolding drain
drain_wire m event = drain m.wire.rx (record m { wire = record (m.wire) { rx = [] } }) event

frame_pending_in_window : Master → ℕ → Bool
unfolding frame_arriving
frame_pending_in_window m now_us = frame_arriving m now_us && in_window m m.resp_open_us

-- The start bit of an answer did not come in time.
unfoldable pub is_overdue : ℕ → Master → Bool
unfolding frame_pending_in_window
is_overdue now_us m =
    awaiting m && (leb m.deadline now_us && not (frame_pending_in_window m now_us))

-- The timeout check of poll(), behind the drain.
unfoldable pub expire : ℕ → Master → MasterEvent → Master × MasterEvent
unfolding is_overdue end_attempt
expire now_us m event = if is_overdue now_us m then end_attempt m.deadline timeout m else (m, event)

unfoldable pub poll : ℕ → Master → Master × MasterEvent
poll now_us m =
    let (m1, event) = drain_wire m no_event in
    let (m2, event') = expire now_us m1 event in (fire_pending now_us m2, event')

-- The transaction that begin() has accepted, before its transmission is due.
pub opened : ℕ → Bytes → ℕ → Master → Master
opened dst payload now_us m =
    let start = if m.has_last_activity then m.last_activity + gap_us else now_us in
    record m {
      dst = dst;
      seq = get_or m.next_seq dst 0;
      next_seq = modify dst (λ s. u8 (bit_and (s + 1) 0x0f)) m.next_seq;
      payload = payload;
      attempt_count = 0;
      is_open = true;
      sub_phase = pending_transmit;
      deadline = start;
      defer_origin_us = start;
    }

unfoldable pub begin : ℕ → Bytes → ℕ → Master → Master × LinkStatus
begin dst payload now_us m =
    if m.is_open
    then (m, busy)
    else if ltb max_l3_message (length payload)
    then (m, payload_too_long)
    else if leb addr_count dst
    then (m, reserved_address)
    else (fire_pending now_us (opened dst payload now_us (drain_wire m no_event).0), ok)
