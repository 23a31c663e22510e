-- ===== src/Link/Master/Transmissions.antt =====
-- What link/master.cpp puts on the wire, and how often.
use omgp.Base.{
  ℕ, ◌+◌, ◌≤◌, ◌≡◌, ◌⊎◌, inl, inr, refl, ◌∙◌, ap, List, [], ◌∷◌, ◌++◌, Option, none, some, arith,
  ltb, Bytes, IsBytes, length, All, All-append, Bool-cases,
}
use omgp.Protocol.{retries}
use omgp.Link.Types.{ok, FrameFields, max_wire}
use omgp.Link.Wire.{RxByte}
use omgp.Link.Frame.{encode_frame}
use omgp.Link.Frame.Bounds.{encode_frame_cases}
use omgp.Link.Frame.Fields.{IsFields, on_wire}
use omgp.Link.Deframer.{Deframer, feed, feed_all, new_deframer}
use omgp.Link.Deframer.Stream.{feed_all-encode_frame, feed-flag_byte_idle}
use omgp.Link.Master.Invariant.{IsValid, IsRxByte, poll-IsValid, begin_cases, begin-IsValid}
use omgp.Link.Master.{
  Master, MasterEvent, no_event, byte_us, request, do_transmit, note_byte, on_frame, on_bad_crc,
  on_byte, drain, drain_wire, expire, fire_pending, poll, opened, begin,
}

-- `m'` has sent nothing that `m` has not, and is about the same request.
pub record Quiet (m m' : Master) : Type 0 where
  pub sent_eq : m'.wire.sent ≡ m.wire.sent
  pub attempts_eq : m'.attempt_count ≡ m.attempt_count
  pub request_eq : request m' ≡ request m
  pub next_seq_eq : m'.next_seq ≡ m.next_seq

pub Quiet-trans : {a b c : Master} → Quiet a b → Quiet b c → Quiet a c
Quiet-trans p q = record {
  sent_eq = q.sent_eq ∙ p.sent_eq;
  attempts_eq = q.attempts_eq ∙ p.attempts_eq;
  request_eq = q.request_eq ∙ p.request_eq;
  next_seq_eq = q.next_seq_eq ∙ p.next_seq_eq;
}

on_frame-Quiet :
    (t : ℕ) (out : Option FrameFields) (m : Master) (event : MasterEvent)
    → Quiet m (on_frame t out m event).0
unfolding on_frame request
on_frame-Quiet t none m event = ground arith
on_frame-Quiet t (some f) m event = ground arith

on_bad_crc-Quiet : (t u : ℕ) (m : Master) (event : MasterEvent) → Quiet m (on_bad_crc t u m event).0
unfolding on_bad_crc request
on_bad_crc-Quiet t u m event = ground arith

note_byte-Quiet : (r : RxByte) (d : Deframer) (m : Master) → Quiet m (note_byte r d m)
unfolding note_byte request
note_byte-Quiet r d m = ground arith

on_byte-Quiet : (r : RxByte) (m : Master) (event : MasterEvent) → Quiet m (on_byte r m event).0
unfolding on_byte
on_byte-Quiet r m event =
    let d = (feed r.byte m.deframer).0 in
    let out = (feed r.byte m.deframer).1 in
    let m' = note_byte r d m in
    Quiet-trans (note_byte-Quiet r d m)
      (elim (Bool-cases (ltb m.deframer.stats.bad_crcs d.stats.bad_crcs)) [
        | inl bad ↦ rw bad (on_bad_crc-Quiet m.resp_open_us (r.start_us + byte_us m) m' event)
        | inr good ↦ rw good (on_frame-Quiet m.resp_open_us out m' event)
      ])

drain-Quiet : (rs : List RxByte) (m : Master) (event : MasterEvent) → Quiet m (drain rs m event).0
unfolding drain
drain-Quiet [] m event = ground arith
drain-Quiet (r ∷ rs) m event =
    Quiet-trans (on_byte-Quiet r m event)
      (drain-Quiet rs (on_byte r m event).0 (on_byte r m event).1)

pub drain_wire-Quiet : (m : Master) (event : MasterEvent) → Quiet m (drain_wire m event).0
unfolding drain_wire request
drain_wire-Quiet m event =
    let q = drain-Quiet m.wire.rx (record m { wire = record (m.wire) { rx = [] } }) event in
    record {
      sent_eq = q.sent_eq;
      attempts_eq = q.attempts_eq;
      request_eq = q.request_eq;
      next_seq_eq = q.next_seq_eq;
    }

pub expire-Quiet :
    (now_us : ℕ) (m : Master) (event : MasterEvent) → Quiet m (expire now_us m event).0
unfolding expire request
expire-Quiet now_us m event = ground arith

-- From `m` to `m'` nothing was sent; or one frame was, at `now_us`, the encoding of the request.
abbrev pub Sends : ℕ → Master → Master → Type 0
Sends now_us m m' =
    ((m'.wire.sent ≡ m.wire.sent) × (m'.attempt_count ≡ m.attempt_count))
    ⊎ ((m'.wire.sent
          ≡ record { bytes = (encode_frame (request m) max_wire).1; at_us = now_us } ∷ m.wire.sent)
        × (m'.attempt_count ≡ m.attempt_count + 1))

pub fire_pending-Sends :
    (now_us : ℕ) (m : Master)
    → m.attempt_count ≤ 1 + retries
    → Sends now_us m (fire_pending now_us m)
unfolding fire_pending do_transmit request
fire_pending-Sends now_us m h = ground arith

Sends-Quiet : (now_us : ℕ) (m m1 m2 : Master) → Quiet m m1 → Sends now_us m1 m2 → Sends now_us m m2
Sends-Quiet now_us m m1 m2 q s = ground arith

-- A poll sends at most one frame, the encoding of the open request, at the instant of the poll, and
-- counts it as an attempt; otherwise it leaves the wire and the count of attempts alone.
pub poll-Sends : (now_us : ℕ) (m : Master) → IsValid m → Sends now_us m (poll now_us m).0
unfolding poll
poll-Sends now_us m v =
    let (m1, event) = drain_wire m no_event in
    let (m2, event') = expire now_us m1 event in
    let q = Quiet-trans (drain_wire-Quiet m no_event) (expire-Quiet now_us m1 event) in
    Sends-Quiet now_us m m2 (fire_pending now_us m2) q
      (fire_pending-Sends now_us m2 (omega (arith, q.attempts_eq, v.attempts_le)))

pub request-IsFields : (m : Master) → IsValid m → IsFields (request m)
unfolding request
request-IsFields m v = record {
  dst_lt = omega (arith, v.dst_lt);
  src_lt = v.host_lt;
  seq_lt = omega (arith, v.seq_lt);
  len_lt = omega arith;
  payload_bytes = v.payload_bytes;
  payload_len = omega (arith, v.payload_le);
}

request-encodes : (m : Master) → IsValid m → (encode_frame (request m) max_wire).0 ≡ ok
unfolding request
request-encodes m v = ground (arith, encode_frame_cases (request m) max_wire)

on_wire-request : (m : Master) → IsValid m → on_wire (request m) ≡ request m
unfolding request
on_wire-request m v = ground (arith, v.seq_lt)

pub request-decodes :
    (m : Master)
    → IsValid m
    → (feed_all (encode_frame (request m) max_wire).1 new_deframer).1 ≡ request m ∷ []
request-decodes m v =
    ap (λ r. r.1)
      (feed_all-encode_frame (request m) max_wire new_deframer (request-IsFields m v)
        (request-encodes m v))
    ∙ rw (feed-flag_byte_idle new_deframer refl (inl refl)) (ap (λ g. g ∷ []) (on_wire-request m v))

-- Bytes arrive on the wire.
unfoldable pub receive : List RxByte → Master → Master
receive rs m = record m { wire = record (m.wire) { rx = m.wire.rx ++ rs } }

-- The engine's life between two calls of begin(): polls, and bytes that arrive.
pub data Run (m : Master) : Master → Type 0 where
  start : Run m m
  polled : {m' : Master} → Run m m' → (now_us : ℕ) → Run m (poll now_us m').0
  received : {m' : Master} → Run m m' → (rs : List RxByte) → All IsRxByte rs → Run m (receive rs m')

receive-IsValid :
    (rs : List RxByte) (m : Master) → All IsRxByte rs → IsValid m → IsValid (receive rs m)
unfolding receive
receive-IsValid rs m b v = let all = All-append IsRxByte m.wire.rx rs v.rx_bytes b in ground arith

pub Run-IsValid : {m m' : Master} → Run m m' → IsValid m → IsValid m'
Run-IsValid start v = v
Run-IsValid (polled {m'} r now_us) v = poll-IsValid now_us m' (Run-IsValid r v)
Run-IsValid (received {m'} r rs b) v = receive-IsValid rs m' b (Run-IsValid r v)

-- Each transmission is an attempt.
abbrev Counted : ℕ → Master → Type 0
Counted base m = length m.wire.sent ≡ base + m.attempt_count

poll-Counted :
    (base now_us : ℕ) (m : Master) → IsValid m → Counted base m → Counted base (poll now_us m).0
poll-Counted base now_us m v h = elim (poll-Sends now_us m v) [
  | inl (s, a) ↦ omega (arith, ap length s, a)
  | inr (s, a) ↦ omega (arith, ap length s, a)
]

receive-Counted :
    (base : ℕ) (rs : List RxByte) (m : Master) → Counted base m → Counted base (receive rs m)
unfolding receive
receive-Counted base rs m h = h

Run-Counted : {m m' : Master} (base : ℕ) → Run m m' → IsValid m → Counted base m → Counted base m'
Run-Counted base start v h = h
Run-Counted base (polled {m'} r now_us) v h =
    poll-Counted base now_us m' (Run-IsValid r v) (Run-Counted base r v h)
Run-Counted base (received {m'} r rs b) v h = receive-Counted base rs m' (Run-Counted base r v h)

-- An accepted begin() drains the wire, opens the transaction and transmits where it may.
pub begin_ok :
    (dst : ℕ) (payload : Bytes) (now_us : ℕ) (m : Master)
    → (begin dst payload now_us m).1 ≡ ok
    → (begin dst payload now_us m).0
      ≡ fire_pending now_us (opened dst payload now_us (drain_wire m no_event).0)
begin_ok dst payload now_us m h = elim (begin_cases dst payload now_us m) [
  | inl (_, refused) ↦ absurd (refused h)
  | inr (e, _, _, _) ↦ ap (λ r. r.0) e
]

begin-Counted :
    (dst : ℕ) (payload : Bytes) (now_us : ℕ) (m : Master)
    → (begin dst payload now_us m).1 ≡ ok
    → Counted (length m.wire.sent) (begin dst payload now_us m).0
unfolding opened
begin-Counted dst payload now_us m h =
    let m1 = (drain_wire m no_event).0 in
    let q = drain_wire-Quiet m no_event in
    let same = begin_ok dst payload now_us m h in
    let fired = fire_pending-Sends now_us (opened dst payload now_us m1) (omega arith) in
    rw same (elim fired [
      | inl (s, a) ↦ omega (arith, ap length (s ∙ q.sent_eq), a)
      | inr (s, a) ↦ omega (arith, ap length s, ap length q.sent_eq, a)
    ])

-- Whatever arrives and however often the engine is polled, one accepted begin() leads to at most
-- three transmissions: the request and two retries.
pub transmissions_le :
    (dst : ℕ) (payload : Bytes) (now_us : ℕ) (m m' : Master)
    → IsValid m
    → IsBytes payload
    → (begin dst payload now_us m).1 ≡ ok
    → Run (begin dst payload now_us m).0 m'
    → length m'.wire.sent ≤ length m.wire.sent + (1 + retries)
transmissions_le dst payload now_us m m' v b h r =
    let v1 = begin-IsValid dst payload now_us m b v in
    let v' = Run-IsValid r v1 in
    omega (
      arith,
      Run-Counted (length m.wire.sent) r v1 (begin-Counted dst payload now_us m h),
      v'.attempts_le,
    )
