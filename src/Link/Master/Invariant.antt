-- ===== src/Link/Master/Invariant.antt =====
-- What holds of the engine of link/master.cpp between calls.
use omgp.Base.{
  modify-All, ℕ, ◌+◌, ◌≤◌, ◌<◌, ◌≡◌, ◌≢◌, ◌⊎◌, inl, inr, refl, true, false, List, [], ◌∷◌, Option,
  none, some, arith, Bytes, IsBytes, length, All, All-get_or, bit_and, ltb, Bool-cases,
}
use omgp.Protocol.{max_l3_message, resp_us, retries}
use omgp.Base.Bits.{each_below, each_below→true}
use omgp.Base.Words.{u8}
use omgp.Link.Types.{ok, addr_count, FrameFields}
use omgp.Link.Wire.{RxByte, Wire}
use omgp.Link.Deframer.{Deframer, feed}
use omgp.Link.Deframer.Invariant.{feed-IsValid}
use omgp.Link.Deframer.Invariant as DeframerInvariant
use omgp.Link.Master.{
  Master, MasterEvent, no_event, Reason, crc_failed, timeout, byte_us, await_response,
  pending_transmit, new_master, do_transmit, fire_pending, end_attempt, note_byte, on_frame,
  on_bad_crc, on_byte, drain, drain_wire, is_overdue, expire, poll, opened, begin,
}

abbrev pub IsRxByte : RxByte → Type 0
IsRxByte r = r.byte < 256

-- Closed; or waiting for an answer to one of at most three transmissions, in the window that the
-- last one opened; or about to transmit for the third time at most.
abbrev pub Phase : Master → Type 0
Phase m =
    (m.is_open ≡ false)
    ⊎ ((m.sub_phase ≡ await_response)
        × (1 ≤ m.attempt_count)
        × (m.deadline ≡ m.window_start_us + resp_us))
    ⊎ ((m.sub_phase ≡ pending_transmit) × (m.attempt_count ≤ retries))

pub record IsValid (m : Master) : Type 0 where
  pub deframer_valid : DeframerInvariant.IsValid m.deframer
  pub rx_bytes : All IsRxByte m.wire.rx
  pub attempts_le : m.attempt_count ≤ 1 + retries
  pub phase : Phase m
  pub payload_bytes : IsBytes m.payload
  pub payload_le : length m.payload ≤ max_l3_message
  pub dst_lt : m.dst < addr_count
  pub seq_lt : m.seq < 16
  pub host_lt : m.host_addr < 256
  pub seqs_lt : All (λ s. s < 16) m.next_seq

do_transmit-IsValid :
    (at_us : ℕ) (m : Master) → m.attempt_count ≤ retries → IsValid m → IsValid (do_transmit at_us m)
unfolding do_transmit
do_transmit-IsValid at_us m h v = ground arith

fire_pending-IsValid : (now_us : ℕ) (m : Master) → IsValid m → IsValid (fire_pending now_us m)
unfolding fire_pending do_transmit
fire_pending-IsValid now_us m v = ground arith

end_attempt-IsValid :
    (t : ℕ) (why : Reason) (m : Master) → IsValid m → IsValid (end_attempt t why m).0
unfolding end_attempt
end_attempt-IsValid t why m v = ground arith

on_frame-IsValid :
    (t : ℕ) (out : Option FrameFields) (m : Master) (event : MasterEvent)
    → IsValid m
    → IsValid (on_frame t out m event).0
unfolding on_frame
on_frame-IsValid t none m event v = v
on_frame-IsValid t (some f) m event v = ground arith

on_bad_crc-IsValid :
    (t u : ℕ) (m : Master) (event : MasterEvent) → IsValid m → IsValid (on_bad_crc t u m event).0
unfolding on_bad_crc
on_bad_crc-IsValid t u m event v = ground (arith, end_attempt-IsValid u crc_failed m v)

note_byte-IsValid :
    (r : RxByte) (d : Deframer) (m : Master)
    → DeframerInvariant.IsValid d
    → IsValid m
    → IsValid (note_byte r d m)
unfolding note_byte
note_byte-IsValid r d m h v = ground arith

pub on_byte-IsValid :
    (r : RxByte) (m : Master) (event : MasterEvent)
    → IsRxByte r
    → IsValid m
    → IsValid (on_byte r m event).0
unfolding on_byte
on_byte-IsValid r m event h v =
    let d = (feed r.byte m.deframer).0 in
    let noted = note_byte-IsValid r d m (feed-IsValid r.byte m.deframer h v.deframer_valid) v in
    ground (
      arith,
      on_bad_crc-IsValid m.resp_open_us (r.start_us + byte_us m) (note_byte r d m) event noted,
      on_frame-IsValid m.resp_open_us (feed r.byte m.deframer).1 (note_byte r d m) event noted,
    )

drain-IsValid :
    (rs : List RxByte) (m : Master) (event : MasterEvent)
    → All IsRxByte rs
    → IsValid m
    → IsValid (drain rs m event).0
unfolding drain
drain-IsValid [] m event h v = v
drain-IsValid (r ∷ rs) m event h v =
    drain-IsValid rs (on_byte r m event).0 (on_byte r m event).1 h.1
      (on_byte-IsValid r m event h.0 v)

pub drain_wire-IsValid :
    (m : Master) (event : MasterEvent) → IsValid m → IsValid (drain_wire m event).0
unfolding drain_wire
drain_wire-IsValid m event v =
    drain-IsValid m.wire.rx (record m { wire = record (m.wire) { rx = [] } }) event v.rx_bytes
      (ground arith)

expire-IsValid :
    (now_us : ℕ) (m : Master) (event : MasterEvent) → IsValid m → IsValid (expire now_us m event).0
unfolding expire
expire-IsValid now_us m event v = elim (Bool-cases (is_overdue now_us m)) [
  | inl late ↦ rw late (end_attempt-IsValid m.deadline timeout m v)
  | inr early ↦ rw early v
]

-- Every poll keeps the engine valid, whatever bytes are due.
pub poll-IsValid : (now_us : ℕ) (m : Master) → IsValid m → IsValid (poll now_us m).0
unfolding poll
poll-IsValid now_us m v =
    let (m1, event) = drain_wire m no_event in
    fire_pending-IsValid now_us (expire now_us m1 event).0
      (expire-IsValid now_us m1 event (drain_wire-IsValid m no_event v))

next_table : each_below (λ s. ltb (u8 (bit_and (s + 1) 0x0f)) 16) 16 ≡ true
unfolding each_below
next_table = refl

next_seq_lt : (s : ℕ) → s < 16 → u8 (bit_and (s + 1) 0x0f) < 16
next_seq_lt s h = ground (arith, each_below→true _ next_table h)

pub opened-IsValid :
    (dst : ℕ) (payload : Bytes) (now_us : ℕ) (m : Master)
    → dst < addr_count
    → length payload ≤ max_l3_message
    → IsBytes payload
    → IsValid m
    → IsValid (opened dst payload now_us m)
unfolding opened
opened-IsValid dst payload now_us m h k b v = record {
  deframer_valid = v.deframer_valid;
  rx_bytes = v.rx_bytes;
  attempts_le = omega arith;
  phase = inr (inr (refl, omega arith));
  payload_bytes = b;
  payload_le = k;
  dst_lt = h;
  seq_lt = All-get_or (λ s. s < 16) m.next_seq dst 0 v.seqs_lt (omega arith);
  host_lt = v.host_lt;
  seqs_lt = modify-All (λ s. s < 16) _ next_seq_lt dst m.next_seq v.seqs_lt;
}

-- A begin() is refused and leaves the engine alone; or it drains the wire, opens the transaction and
-- transmits where it may.
pub begin_cases :
    (dst : ℕ) (payload : Bytes) (now_us : ℕ) (m : Master)
    → (((begin dst payload now_us m).0 ≡ m) × ((begin dst payload now_us m).1 ≢ ok))
      ⊎ ((begin dst payload now_us m
            ≡ (fire_pending now_us (opened dst payload now_us (drain_wire m no_event).0), ok))
          × (m.is_open ≡ false)
          × (length payload ≤ max_l3_message)
          × (dst < addr_count))
unfolding begin
begin_cases dst payload now_us m = ground arith

-- Every begin(), accepted or refused, keeps the engine valid.
pub begin-IsValid :
    (dst : ℕ) (payload : Bytes) (now_us : ℕ) (m : Master)
    → IsBytes payload
    → IsValid m
    → IsValid (begin dst payload now_us m).0
begin-IsValid dst payload now_us m b v = elim (begin_cases dst payload now_us m) [
  | inl (same, _) ↦ rw same v
  | inr (e, _, short, h) ↦
      let m1 = (drain_wire m no_event).0 in
      rw e (
        fire_pending-IsValid now_us (opened dst payload now_us m1)
          (opened-IsValid dst payload now_us m1 h short b (drain_wire-IsValid m no_event v)))
]

pub new_master-IsValid :
    (w : Wire) (host : ℕ) → All IsRxByte w.rx → host < 256 → IsValid (new_master w host)
unfolding new_master
new_master-IsValid w host h k = ground arith
