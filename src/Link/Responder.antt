-- ===== src/Link/Responder.antt =====
-- link/responder.hpp and link/responder.cpp: a node's transaction engine. The handler is the node's
-- application, not part of this code: `handle` answers a request in application state `app` with a
-- new state and the bytes of its response.
pub mod Rounds
pub mod Invariant
pub mod Preserved
pub mod Requests
pub mod Retries
pub mod Transmissions
pub mod Speaks
pub mod Looks
pub mod Timely
use omgp.Base.{
  ℕ, zero, suc, ◌+◌, ◌*◌, ◌-◌, Bool, true, false, not, ◌&&◌, ◌||◌, List, [], ◌∷◌, Option, none,
  some, ltb, leb, ◌==◌, if◌then◌else◌, Bytes, length, take,
}
use omgp.Base.Words.{u8, u32, inc32}
use omgp.Protocol.{max_l3_message, turn_min_us, turn_max_us, gap_us}
use omgp.Link.Frame.{encode_frame}
use omgp.Link.Types.{
  LinkStatus, ok, payload_too_long, reserved_address, buffer_too_small, busy, not_idle, max_wire,
  addr_count, byte_time_us, FrameFields, DeframerStats, AddrStats, no_addr_stats,
}
use omgp.Link.Wire.{RxByte, Wire, tx_end, transmit}
use omgp.Link.Deframer.{Deframer, feed, new_deframer}
use omgp.Link.Held.{HeldRequest, Ring, held_requests, slot, append_held, drop_held}

pub data ResponderState : Type 0 where
  listening scheduled transmitting : ResponderState

-- `bytes` holds the `len` bytes of the array in use.
pub record ReplayBuffer : Type 0 where
  pub valid : Bool
  pub seq : ℕ
  pub peer : ℕ
  pub bytes : Bytes

pub record Responder (A : Type 0) : Type 0 where
  pub wire : Wire
  pub app : A
  pub my_addr : ℕ
  pub turnaround_us : ℕ
  pub deframer : Deframer
  pub buffer : ReplayBuffer
  pub state : ResponderState
  pub request_end_us : ℕ
  pub deadline_us : ℕ
  pub transmit_until_us : ℕ
  pub last_activity_us : ℕ
  pub has_activity : Bool
  pub defer_origin_us : ℕ
  pub has_defer_origin : Bool
  pub held : Ring
  pub stats : AddrStats

abbrev pub is_listening : ResponderState → Bool
is_listening listening = true
is_listening scheduled = false
is_listening transmitting = false

abbrev pub is_scheduled : ResponderState → Bool
is_scheduled listening = false
is_scheduled scheduled = true
is_scheduled transmitting = false

abbrev pub is_ok : LinkStatus → Bool
is_ok ok = true
is_ok _ = false

unfoldable pub clamp_turnaround : ℕ → ℕ
clamp_turnaround t =
    if ltb t turn_min_us then turn_min_us else if ltb turn_max_us t then turn_max_us else t

unfoldable pub total_discards : DeframerStats → ℕ
total_discards s =
    u32
      (u32 (u32 (u32 (s.bad_crcs + s.bad_lengths) + s.bad_escapes) + s.too_longs) + s.reserved_dsts)

abbrev no_frame : FrameFields
no_frame = record {
  dst = 0;
  src = 0;
  response = false;
  retry = false;
  seq = 0;
  len = 0;
  payload = [];
}

abbrev no_request : HeldRequest
no_request = record { f = no_frame; request_end_us = 0 }

module _ {A : Type 0} where
  pub new_responder : Wire → A → ℕ → ℕ → Responder A
  unfolding clamp_turnaround
  new_responder w app my_addr turnaround_us = record {
    wire = w;
    app = app;
    my_addr = my_addr;
    turnaround_us = clamp_turnaround turnaround_us;
    deframer = new_deframer;
    buffer = record { valid = false; seq = 0; peer = 0; bytes = [] };
    state = listening;
    request_end_us = 0;
    deadline_us = 0;
    transmit_until_us = 0;
    last_activity_us = 0;
    has_activity = false;
    defer_origin_us = 0;
    has_defer_origin = false;
    held = record { slot0 = no_request; slot1 = no_request; head = 0; count = 0 };
    stats = no_addr_stats;
  }

  unfoldable pub acceptable : Responder A → FrameFields → Bool
  acceptable r f =
      f.dst == r.my_addr
      && (not f.response
          && (not (f.src == r.my_addr) && (ltb f.src addr_count && ltb r.my_addr addr_count)))

  unfoldable pub discard : Responder A → Responder A
  discard r = record r { stats = record (r.stats) { discards = inc32 r.stats.discards } }

  unfoldable pub schedule : ℕ → Responder A → Responder A
  schedule end_us r = record r {
    state = scheduled;
    request_end_us = end_us;
    deadline_us = end_us + r.turnaround_us;
  }

  unfoldable pub is_replay : Responder A → FrameFields → Bool
  is_replay r f = f.retry && (r.buffer.valid && (f.seq == r.buffer.seq && f.src == r.buffer.peer))

  unfoldable pub response : Responder A → FrameFields → Bytes → FrameFields
  response r f payload = record {
    dst = f.src;
    src = r.my_addr;
    response = true;
    retry = f.retry;
    seq = f.seq;
    len = u8 (length payload);
    payload = payload;
  }

  -- The new response goes into the replay buffer.
  unfoldable pub store : FrameFields → Bytes → Responder A → Responder A
  store f bytes r = record r {
    buffer = record { valid = true; seq = f.seq; peer = f.src; bytes = bytes };
    stats = record (r.stats) { transactions = inc32 r.stats.transactions };
  }

  unfoldable pub serve_replay : ℕ → Responder A → Responder A
  serve_replay end_us r =
      schedule end_us
        (record r { stats = record (r.stats) { replays_served = inc32 r.stats.replays_served } })

  -- What becomes of the handler's response.
  unfoldable pub answer : FrameFields → ℕ → Bytes → Responder A → Responder A
  answer f end_us payload r =
      if ltb max_l3_message (length payload)
      then discard r
      else (let (status, bytes) = encode_frame (response r f payload) max_wire in
          if is_ok status then schedule end_us (store f bytes r) else discard r)

  unfoldable pub hold_or_discard : FrameFields → ℕ → Responder A → Responder A
  hold_or_discard f end_us r =
      if not (acceptable r f)
      then discard r
      else if leb held_requests r.held.count
      then discard r
      else record r { held = append_held (record { f = f; request_end_us = end_us }) r.held }

  unfoldable pub past_window : ℕ → Responder A → Bool
  past_window now_us r = is_scheduled r.state && ltb (r.request_end_us + turn_max_us) now_us

  unfoldable pub max_frame_us : Responder A → ℕ
  max_frame_us r = max_wire * byte_time_us r.wire.bit_rate

  -- The scheduled response goes out.
  unfoldable pub send : ℕ → Responder A → Responder A
  send now_us r = record r {
    wire = transmit r.wire r.buffer.bytes now_us;
    transmit_until_us = tx_end r.wire r.buffer.bytes now_us;
    has_defer_origin = false;
    state = transmitting;
  }

  unfoldable pub count_late : Responder A → Responder A
  count_late r = record r {
    stats = record (r.stats) { late_responses = inc32 r.stats.late_responses };
  }

  -- The instant that a late response first found the bus to be judged.
  unfoldable pub defer : ℕ → Responder A → Responder A
  defer now_us r =
      if r.has_defer_origin
      then r
      else record r { defer_origin_us = now_us; has_defer_origin = true }

  unfoldable pub want_us : ℕ → Responder A → ℕ
  want_us now_us r =
      let cap_us = r.defer_origin_us + max_frame_us r + gap_us in
      let want = if r.has_activity then r.last_activity_us + gap_us else now_us in
      if ltb cap_us want then cap_us else want

  unfoldable pub transmit_late : ℕ → Responder A → Responder A
  transmit_late now_us r =
      let r' = defer now_us r in
      if ltb now_us (want_us now_us r') then r' else count_late (send now_us r')

  unfoldable pub transmit_scheduled : ℕ → Bool → Responder A → Responder A
  transmit_scheduled now_us queue_drained r =
      if not (is_scheduled r.state) || ltb now_us r.deadline_us
      then r
      else if past_window now_us r
      then (if queue_drained then transmit_late now_us r else r)
      else send now_us r

  -- The state once the wire is free.
  unfoldable pub finish_transmitting : ℕ → ResponderState → Responder A → Responder A
  finish_transmitting now_us transmitting r =
      if ltb now_us r.transmit_until_us then r else record r { state = listening }
  finish_transmitting now_us listening r = r
  finish_transmitting now_us scheduled r = r

  unfoldable pub transmit_if_due : ℕ → Bool → Responder A → Responder A
  transmit_if_due now_us queue_drained r =
      transmit_scheduled now_us queue_drained (finish_transmitting now_us r.state r)

  -- The byte's end is the last activity, whatever becomes of it.
  unfoldable pub note_byte : RxByte → Deframer → Responder A → Responder A
  note_byte b d r = record r {
    deframer = d;
    last_activity_us = b.start_us + byte_time_us r.wire.bit_rate;
    has_activity = true;
  }

  -- A byte read may add a held request, so it counts for two rounds.
  abbrev pub enough_rounds : Responder A → ℕ
  enough_rounds r = suc (2 * length r.wire.rx + r.held.count)

module _ {A : Type 0} (handle : A → Bytes → A × Bytes) where
  unfoldable pub on_request : FrameFields → ℕ → Responder A → Responder A
  on_request f end_us r =
      if not (acceptable r f)
      then discard r
      else if is_replay r f
      then serve_replay end_us r
      else (let (app', payload) = handle r.app (take f.len f.payload) in
          answer f end_us payload (record r { app = app' }))

  unfoldable pub on_frame : FrameFields → ℕ → Responder A → Responder A
  on_frame f end_us r =
      if is_listening r.state then on_request f end_us r else hold_or_discard f end_us r

  -- One byte off the wire.
  unfoldable pub on_byte : RxByte → Responder A → Responder A
  on_byte b r =
      let (d, out) = feed b.byte r.deframer in
      let r' = note_byte b d r in
      elim out [
        | some f ↦ on_frame f (b.start_us + byte_time_us r.wire.bit_rate) r'
        | none ↦
            if ltb (total_discards r.deframer.stats) (total_discards d.stats)
            then discard r'
            else r'
      ]

  unfoldable pub read_byte : List RxByte → Responder A → Bool × Responder A
  read_byte [] r = (false, r)
  read_byte (b ∷ bs) r = (true, on_byte b (record r { wire = record (r.wire) { rx = bs } }))

  unfoldable pub serve_held : Responder A → Responder A
  serve_held r =
      let q = slot r.held r.held.head in
      on_request q.f q.request_end_us (record r { held = drop_held r.held })

  -- One round of poll()'s loop, and whether another one follows.
  unfoldable pub round : ℕ → Responder A → Bool × Responder A
  round now_us r0 =
      let r = transmit_if_due now_us false r0 in
      if is_listening r.state && ltb 0 r.held.count
      then (true, serve_held r)
      else if not (is_listening r.state) && not (past_window now_us r)
      then (false, r)
      else read_byte r.wire.rx r

  -- `none` means that the rounds given were too few.
  unfoldable pub rounds : ℕ → ℕ → Responder A → Option (Responder A)
  rounds zero now_us r = none
  rounds (suc n) now_us r =
      let (more, r') = round now_us r in elim more [ true ↦ rounds n now_us r' | false ↦ some r' ]

  unfoldable pub poll : ℕ → Responder A → Option (Responder A)
  poll now_us r = elim (rounds (enough_rounds r) now_us r) [
    | none ↦ none
    | some r' ↦ some (transmit_if_due now_us true r')
  ]
