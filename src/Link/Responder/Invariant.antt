-- ===== src/Link/Responder/Invariant.antt =====
-- What holds of the engine of link/responder.cpp between calls, for a handler that writes bytes.
use omgp.Base.{
  ℕ, ◌+◌, ◌≤◌, ◌<◌, ◌≡◌, ◌≢◌, ◌⊎◌, inl, inr, refl, Bool, true, false, arith, Bytes, IsBytes, length,
  ltb, All, Bool-cases,
}
use omgp.Protocol.{turn_min_us, turn_max_us, max_l3_message}
use omgp.Link.Types.{FrameFields, max_wire}
use omgp.Link.Frame.{encode_frame}
use omgp.Link.Wire.{RxByte}
use omgp.Link.Held.{IsRing, append_held}
use omgp.Link.Deframer.{Deframer}
use omgp.Link.Deframer.Invariant.{
  IsDelivered, feed-IsDelivered, feed-IsValid, encode_frame-feed_all,
}
use omgp.Link.Deframer.Invariant as DeframerInvariant
use omgp.Link.Responder.{
  Responder, ResponderState, listening, scheduled, transmitting, acceptable, discard, answer,
  response, serve_replay, hold_or_discard, note_byte, finish_transmitting, transmit_late,
  transmit_scheduled, transmit_if_due, defer, send, count_late, store, schedule, is_replay,
  ReplayBuffer,
}

-- A response from this node, to the request that the replay buffer names.
pub record IsResponse (my_addr peer seq : ℕ) (f : FrameFields) : Type 0 where
  pub delivered : IsDelivered f
  pub dst_eq : f.dst ≡ peer
  pub src_eq : f.src ≡ my_addr
  pub is_response : f.response ≡ true
  pub seq_eq : f.seq ≡ seq

-- The buffer holds the encoding of a response to the request that it names.
abbrev pub Stored : ℕ → ReplayBuffer → Type 0
Stored my_addr b =
    (f : FrameFields) × IsResponse my_addr b.peer b.seq f × (b.bytes ≡ (encode_frame f max_wire).1)

pub record IsValid {A : Type 0} (r : Responder A) : Type 0 where
  pub deframer_valid : DeframerInvariant.IsValid r.deframer
  pub rx_bytes : All (λ b. b.byte < 256) r.wire.rx
  pub ring : IsRing r.held
  pub held_valid : IsDelivered r.held.slot0.f × IsDelivered r.held.slot1.f
  pub turnaround_bounds : (turn_min_us ≤ r.turnaround_us) × (r.turnaround_us ≤ turn_max_us)
  pub buffer_stored : (r.buffer.valid ≡ false) ⊎ Stored r.my_addr r.buffer
  pub due :
      (r.state ≢ scheduled)
      ⊎ ((r.buffer.valid ≡ true) × (r.deadline_us ≡ r.request_end_us + r.turnaround_us))

module _ {A : Type 0} where
  finish_transmitting-IsValid :
      (now_us : ℕ) (s : ResponderState) (r : Responder A)
      → IsValid r
      → IsValid (finish_transmitting now_us s r)
  unfolding finish_transmitting
  finish_transmitting-IsValid now_us transmitting r v = ground arith
  finish_transmitting-IsValid now_us listening r v = v
  finish_transmitting-IsValid now_us scheduled r v = v

  transmit_late-IsValid :
      (now_us : ℕ) (r : Responder A) → IsValid r → IsValid (transmit_late now_us r)
  unfolding transmit_late defer send count_late
  transmit_late-IsValid now_us r v = ground arith

  send-IsValid : (now_us : ℕ) (r : Responder A) → IsValid r → IsValid (send now_us r)
  unfolding send
  send-IsValid now_us r v = ground arith

  transmit_scheduled-IsValid :
      (now_us : ℕ) (drained : Bool) (r : Responder A)
      → IsValid r
      → IsValid (transmit_scheduled now_us drained r)
  unfolding transmit_scheduled
  transmit_scheduled-IsValid now_us drained r v =
      ground (arith, transmit_late-IsValid now_us r v, send-IsValid now_us r v)

  pub transmit_if_due-IsValid :
      (now_us : ℕ) (drained : Bool) (r : Responder A)
      → IsValid r
      → IsValid (transmit_if_due now_us drained r)
  unfolding transmit_if_due
  transmit_if_due-IsValid now_us drained r v =
      transmit_scheduled-IsValid now_us drained (finish_transmitting now_us r.state r)
        (finish_transmitting-IsValid now_us r.state r v)

  pub discard-IsValid : (r : Responder A) → IsValid r → IsValid (discard r)
  unfolding discard
  discard-IsValid r v = ground arith

  pub response-IsResponse :
      (r : Responder A) (f : FrameFields) (payload : Bytes)
      → IsDelivered f
      → acceptable r f ≡ true
      → IsBytes payload
      → length payload ≤ max_l3_message
      → IsResponse r.my_addr f.src f.seq (response r f payload)
  unfolding response acceptable
  response-IsResponse r f payload q a b short = record {
    delivered = record {
      fields = record {
        dst_lt = q.fields.src_lt;
        src_lt = ground arith;
        seq_lt = q.fields.seq_lt;
        len_lt = omega arith;
        payload_bytes = b;
        payload_len = omega arith;
      };
      seq_lt = q.seq_lt;
      len_le = omega arith;
      dst_ne = ground arith;
    };
    dst_eq = refl;
    src_eq = refl;
    is_response = refl;
    seq_eq = refl;
  }

  scheduled-IsValid :
      (t : ℕ) (r : Responder A) → r.buffer.valid ≡ true → IsValid r → IsValid (schedule t r)
  unfolding schedule
  scheduled-IsValid t r h v = ground arith

  stored-IsValid :
      (f : FrameFields) (payload : Bytes) (r : Responder A)
      → IsResponse r.my_addr f.src f.seq (response r f payload)
      → IsValid r
      → IsValid (store f (encode_frame (response r f payload) max_wire).1 r)
  unfolding store
  stored-IsValid f payload r q v = record {
    deframer_valid = v.deframer_valid;
    rx_bytes = v.rx_bytes;
    ring = v.ring;
    held_valid = v.held_valid;
    turnaround_bounds = v.turnaround_bounds;
    buffer_stored = inr (response r f payload, q, refl);
    due = ground arith;
  }

  -- A response is stored and scheduled, unless it is longer than a message may be.
  pub answer_cases :
      (f : FrameFields) (t : ℕ) (payload : Bytes) (r : Responder A)
      → IsDelivered f
      → acceptable r f ≡ true
      → IsBytes payload
      → ((answer f t payload r ≡ discard r) × (max_l3_message < length payload))
        ⊎ ((answer f t payload r
              ≡ schedule t (store f (encode_frame (response r f payload) max_wire).1 r))
            × IsResponse r.my_addr f.src f.seq (response r f payload))
  unfolding answer
  answer_cases f t payload r q a b = elim (Bool-cases (ltb max_l3_message (length payload))) [
    | inl long ↦ rw long (inl (refl, ground arith))
    | inr short ↦
        let e = response-IsResponse r f payload q a b (ground arith) in
        rw short (rw (encode_frame-feed_all (response r f payload) e.delivered).0 (inr (refl, e)))
  ]

  store-valid :
      (f : FrameFields) (bytes : Bytes) (r : Responder A) → (store f bytes r).buffer.valid ≡ true
  unfolding store
  store-valid f bytes r = refl

  pub answer-IsValid :
      (f : FrameFields) (t : ℕ) (payload : Bytes) (r : Responder A)
      → IsDelivered f
      → acceptable r f ≡ true
      → IsBytes payload
      → IsValid r
      → IsValid (answer f t payload r)
  answer-IsValid f t payload r q a b v = elim (answer_cases f t payload r q a b) [
    | inl (e, _) ↦ rw e (discard-IsValid r v)
    | inr (e, s) ↦
        let bytes = (encode_frame (response r f payload) max_wire).1 in
        rw e (
          scheduled-IsValid t (store f bytes r) (store-valid f bytes r)
            (stored-IsValid f payload r s v))
  ]

  pub replay-IsValid :
      (t : ℕ) (r : Responder A) → r.buffer.valid ≡ true → IsValid r → IsValid (serve_replay t r)
  unfolding serve_replay schedule
  replay-IsValid t r h v = ground arith

  pub is_replay-valid :
      (r : Responder A) (f : FrameFields) → is_replay r f ≡ true → r.buffer.valid ≡ true
  unfolding is_replay
  is_replay-valid r f h = ground arith

  pub hold_or_discard-IsValid :
      (f : FrameFields) (t : ℕ) (r : Responder A)
      → IsDelivered f
      → IsValid r
      → IsValid (hold_or_discard f t r)
  unfolding hold_or_discard append_held
  hold_or_discard-IsValid f t r q v = ground (arith, discard-IsValid r v)

  pub note_byte-IsValid :
      (b : RxByte) (d : Deframer) (r : Responder A)
      → DeframerInvariant.IsValid d
      → IsValid r
      → IsValid (note_byte b d r)
  unfolding note_byte
  note_byte-IsValid b d r h v = ground arith

  -- The application's state changed.
  pub app-IsValid : (a : A) (r : Responder A) → IsValid r → IsValid (record r { app = a })
  app-IsValid a r v = ground arith
