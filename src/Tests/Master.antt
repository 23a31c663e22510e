-- ===== src/Tests/Master.antt =====
-- link/master.cpp on a transaction with node 3.
use omgp.Base.{
  ◌++◌, ℕ, ◌+◌, ◌≤◌, ◌≡◌, ◌≢◌, refl, inl, inr, List, [], ◌∷◌, true, false, arith, Bytes, length,
  replicate,
}
use omgp.Protocol.{retries}
use omgp.Link.Types.{ok, FrameFields, addr_count, no_addr_stats, no_bus_stats}
use omgp.Link.Wire.{Transmission, RxByte, Wire}
use omgp.Link.Deframer.{new_deframer}
use omgp.Link.Master.{
  Master, failed, timeout, await_response, pending_transmit, byte_us, want_us, max_frame_us,
  drain_wire, drain, is_overdue, expire, fire_pending, do_transmit, poll, begin,
}
use omgp.Link.Master.Attempts.{Attempts, asked, begin-Attempts}
use omgp.Link.Master.Gap.{polling, GapRule, act-GapRule}
use omgp.Link.Master.Invariant.{IsValid, poll-IsValid}
use omgp.Link.Master.Outcome.{Outcome, poll-Outcome}
use omgp.Link.Master.Silence.{poll_until, IsLate, silent_times_out}
use omgp.Link.Master.Transmissions.{Sends, poll-Sends, start, polled, transmissions_le}

abbrev timed : ℕ → Bytes → List RxByte
timed t [] = []
timed t (b ∷ bs) = record { byte = b; start_us = t } ∷ timed (t + 10) bs

abbrev pub quiet_wire : Wire
quiet_wire = record { rx = []; sent = []; bit_rate = 1000000 }

-- The request has left the wire at 110 us, and its answer may open until 310 us.
abbrev pub waiting : Master
waiting = record {
  wire = quiet_wire;
  host_addr = 0;
  deframer = new_deframer;
  last_rx_us = 0;
  resp_open_us = 0;
  next_seq = replicate addr_count 6;
  is_open = true;
  sub_phase = await_response;
  dst = 3;
  seq = 5;
  attempt_count = 1;
  payload = 9 ∷ [];
  deadline = 310;
  defer_origin_us = 0;
  window_start_us = 110;
  has_last_activity = false;
  last_activity = 0;
  stats = replicate addr_count no_addr_stats;
  bus_stats = no_bus_stats;
}

pub waiting-IsValid : IsValid waiting
waiting-IsValid = record {
  deframer_valid = record { bounded = omega arith; bytes = tt; idle = inr refl };
  rx_bytes = tt;
  attempts_le = omega arith;
  phase = inr (inl (refl, omega arith, refl));
  payload_bytes = omega arith;
  payload_le = omega arith;
  dst_lt = omega arith;
  seq_lt = omega arith;
  host_lt = omega arith;
  seqs_lt = omega arith;
}

abbrev reply : FrameFields
reply = record {
  dst = 0;
  src = 3;
  response = true;
  retry = false;
  seq = 5;
  len = 1;
  payload = 7 ∷ [];
}

abbrev reply_bytes : Bytes
reply_bytes = 0x7e ∷ 0 ∷ 3 ∷ 0x51 ∷ 1 ∷ 7 ∷ 0xf8 ∷ 0xa0 ∷ 0x7e ∷ []

abbrev closed : Master
closed = record waiting { is_open = false }

closed-IsValid : IsValid closed
closed-IsValid = record {
  deframer_valid = record { bounded = omega arith; bytes = tt; idle = inr refl };
  rx_bytes = tt;
  attempts_le = omega arith;
  phase = inl refl;
  payload_bytes = omega arith;
  payload_le = omega arith;
  dst_lt = omega arith;
  seq_lt = omega arith;
  host_lt = omega arith;
  seqs_lt = omega arith;
}

-- The reply's opening FLAG starts at 150 us.
abbrev replied : Master
replied = record waiting { wire = record quiet_wire { rx = timed 150 reply_bytes } }

replied-IsValid : IsValid replied
replied-IsValid = record {
  deframer_valid = record { bounded = omega arith; bytes = tt; idle = inr refl };
  rx_bytes = omega arith;
  attempts_le = omega arith;
  phase = inr (inl (refl, omega arith, refl));
  payload_bytes = omega arith;
  payload_le = omega arith;
  dst_lt = omega arith;
  seq_lt = omega arith;
  host_lt = omega arith;
  seqs_lt = omega arith;
}

poll-IsValid_example : IsValid (poll 240 replied).0
poll-IsValid_example = poll-IsValid 240 replied replied-IsValid

poll-Outcome_example : Outcome replied (poll 240 replied)
poll-Outcome_example = poll-Outcome 240 replied

poll-Sends_example : Sends 400 waiting (poll 400 waiting).0
poll-Sends_example = poll-Sends 400 waiting waiting-IsValid

began : (begin 3 (9 ∷ []) 0 closed).1 ≡ ok
unfolding begin
began = refl

begin-Attempts_example :
    (txs : List Transmission) × ((poll 400 (begin 3 (9 ∷ []) 0 closed).0).0.wire.sent ≡ txs ++ [])
    × Attempts (asked 3 (9 ∷ []) closed) txs
begin-Attempts_example =
    begin-Attempts 3 (9 ∷ []) 0 closed (poll 400 (begin 3 (9 ∷ []) 0 closed).0).0 closed-IsValid
      (omega arith) began (polled start 400)

transmissions_le_example :
    length (poll 400 (begin 3 (9 ∷ []) 0 closed).0).0.wire.sent ≤ 0 + (1 + retries)
transmissions_le_example =
    transmissions_le 3 (9 ∷ []) 0 closed (poll 400 (begin 3 (9 ∷ []) 0 closed).0).0 closed-IsValid
      (omega arith) began (polled start 400)

-- A retry that is due at 360 us is sent by the poll at 400 us.
abbrev retrying : Master
retrying = record waiting {
  sub_phase = pending_transmit;
  deadline = 360;
  defer_origin_us = 360;
  has_last_activity = true;
  last_activity = 310;
}

retrying_sends : (poll 400 retrying).0.attempt_count ≢ retrying.attempt_count
unfolding poll drain_wire drain expire is_overdue fire_pending want_us max_frame_us do_transmit
retrying_sends = omega arith

act-GapRule_example : GapRule polling 400 retrying
act-GapRule_example = act-GapRule polling 400 retrying

abbrev late_clock : Master → ℕ
late_clock m = want_us m + m.deadline + m.last_rx_us + byte_us m + 1

late_clock-IsLate : (m : Master) → IsLate (late_clock m) m
late_clock-IsLate m = omega arith

silent_times_out_example : (poll_until 6 late_clock waiting).1 ≡ failed timeout
silent_times_out_example =
    silent_times_out late_clock waiting late_clock-IsLate waiting-IsValid refl refl
