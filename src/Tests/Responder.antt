-- ===== src/Tests/Responder.antt =====
-- link/responder.cpp at node 3, whose application counts the requests and echoes them.
use omgp.Base.{ℕ, ◌+◌, ◌≡◌, refl, inl, inr, List, [], ◌∷◌, true, false, some, arith, Bytes, IsBytes}
use omgp.Link.Crc.{crc16_ccitt_false, crc_byte, crc_bits, crc_bit}
use omgp.Link.Frame.{encode_frame, ctrl_byte}
use omgp.Link.Types.{FrameFields, no_addr_stats}
use omgp.Link.Wire.{RxByte}
use omgp.Link.Held.{HeldRequest}
use omgp.Link.Deframer.{in_frame, feed, new_deframer}
use omgp.Link.Deframer.Invariant.{IsDelivered}
use omgp.Link.Responder.{
  Responder, listening, scheduled, transmitting, acceptable, is_replay, on_request, round, rounds,
  poll, on_byte, read_byte, transmit_if_due, transmit_scheduled, finish_transmitting,
  total_discards, note_byte, on_frame, answer, response, schedule, store, past_window, send,
}
use omgp.Link.Responder.Invariant.{IsValid}
use omgp.Link.Responder.Rounds.{poll-returns}
use omgp.Link.Responder.Preserved.{poll_responder-IsValid}
use omgp.Link.Responder.Requests.{Outcome, on_request-Outcome}
use omgp.Link.Responder.Timely.{Timely}
use omgp.Link.Responder.Speaks.{Speaks, poll-Speaks}

abbrev pub timed : ℕ → Bytes → List RxByte
timed t [] = []
timed t (b ∷ bs) = record { byte = b; start_us = t } ∷ timed (t + 10) bs

abbrev pub echo : ℕ → Bytes → ℕ × Bytes
echo n bs = (n + 1, bs)

pub echo-IsBytes : (n : ℕ) (bs : Bytes) → IsBytes bs → IsBytes (echo n bs).1
echo-IsBytes n bs h = h

abbrev ping : FrameFields
ping = record {
  dst = 3;
  src = 0;
  response = false;
  retry = false;
  seq = 5;
  len = 1;
  payload = 9 ∷ [];
}

abbrev pub nothing_held : HeldRequest
nothing_held = record {
  f = record { dst = 0; src = 0; response = false; retry = false; seq = 0; len = 0; payload = [] };
  request_end_us = 0;
}

-- Nothing has been asked yet.
abbrev pub node : List RxByte → Responder ℕ
node rx = record {
  wire = record { rx = rx; sent = []; bit_rate = 1000000 };
  app = 0;
  my_addr = 3;
  turnaround_us = 50;
  deframer = new_deframer;
  buffer = record { valid = false; seq = 0; peer = 0; bytes = [] };
  state = listening;
  request_end_us = 0;
  deadline_us = 0;
  transmit_until_us = 0;
  last_activity_us = 0;
  has_activity = false;
  defer_origin_us = 0;
  has_defer_origin = false;
  held = record { slot0 = nothing_held; slot1 = nothing_held; head = 0; count = 0 };
  stats = no_addr_stats;
}

-- The request arrives from 0 us on and ends at 90 us.
abbrev pub asked : Responder ℕ
asked = node (timed 0 (126 ∷ 3 ∷ 0 ∷ 80 ∷ 1 ∷ 9 ∷ 8 ∷ 3 ∷ 126 ∷ []))

ping-IsDelivered : IsDelivered ping
ping-IsDelivered = record {
  fields = omega arith;
  seq_lt = omega arith;
  len_le = omega arith;
  dst_ne = omega arith;
}

nothing_held-IsDelivered : IsDelivered nothing_held.f
nothing_held-IsDelivered = record {
  fields = omega arith;
  seq_lt = omega arith;
  len_le = omega arith;
  dst_ne = omega arith;
}

pub asked-IsValid : IsValid asked
asked-IsValid = record {
  deframer_valid = record { bounded = omega arith; bytes = tt; idle = inr refl };
  rx_bytes = omega arith;
  ring = record { head_lt = omega arith; count_le = omega arith };
  held_valid = (nothing_held-IsDelivered, nothing_held-IsDelivered);
  turnaround_bounds = omega arith;
  buffer_stored = inl refl;
  due = inl (ground arith);
}

abbrev echoed : Bytes
echoed = 126 ∷ 0 ∷ 3 ∷ 81 ∷ 1 ∷ 9 ∷ 54 ∷ 65 ∷ 126 ∷ []

-- The echo is on its way from 160 us on, for 9 bytes of 10 us.
abbrev echoing : Responder ℕ
echoing = record asked {
  wire = record { rx = []; sent = record { bytes = echoed; at_us = 160 } ∷ []; bit_rate = 1000000 };
  app = 1;
  deframer = record new_deframer {
    state = in_frame;
    stats = record (new_deframer.stats) { delivered = 1 };
  };
  buffer = record { valid = true; seq = 5; peer = 0; bytes = echoed };
  state = transmitting;
  request_end_us = 90;
  deadline_us = 140;
  transmit_until_us = 250;
  last_activity_us = 90;
  has_activity = true;
  stats = record no_addr_stats { transactions = 1 };
}

polled : poll echo 160 asked ≡ some echoing
unfolding poll rounds round read_byte on_byte feed on_request transmit_if_due encode_frame
    crc16_ccitt_false crc_byte crc_bits crc_bit transmit_scheduled finish_transmitting
    total_discards note_byte on_frame acceptable is_replay answer response schedule store
    past_window send ctrl_byte
polled = refl

poll-returns_example : (r' : Responder ℕ) × (poll echo 160 asked ≡ some r')
poll-returns_example = poll-returns echo 160 asked

poll_responder-IsValid_example : IsValid echoing
poll_responder-IsValid_example =
    poll_responder-IsValid echo echo-IsBytes 160 asked echoing asked-IsValid polled

poll-Speaks_example : Speaks 160 asked echoing
poll-Speaks_example = poll-Speaks echo echo-IsBytes 160 asked echoing asked-IsValid polled

on_request-Outcome_example : Outcome echo ping 90 asked (on_request echo ping 90 asked)
on_request-Outcome_example =
    on_request-Outcome echo echo-IsBytes ping 90 asked ping-IsDelivered asked-IsValid

-- The node once it has answered the ping and listens again.
abbrev answering : Responder ℕ
answering = record (on_request echo ping 90 asked) { state = listening }

-- At 120 us the echo is not due yet.
abbrev due : Responder ℕ
due = record echoing {
  wire = record { rx = []; sent = []; bit_rate = 1000000 };
  state = scheduled;
  transmit_until_us = 0;
}

polled_early : poll echo 120 asked ≡ some due
unfolding poll rounds round read_byte on_byte feed on_request transmit_if_due encode_frame
    crc16_ccitt_false crc_byte crc_bits crc_bit transmit_scheduled finish_transmitting
    total_discards note_byte on_frame acceptable is_replay answer response schedule store
    past_window send ctrl_byte
polled_early = refl
