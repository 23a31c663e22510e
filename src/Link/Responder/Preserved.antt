-- ===== src/Link/Responder/Preserved.antt =====
-- Every poll of link/responder.cpp keeps the engine valid, for a handler that writes bytes.
use omgp.Base.{
  ℕ, zero, suc, ◌+◌, ◌<◌, ◌≡◌, inl, inr, true, false, List, [], ◌∷◌, some, arith, Bytes, IsBytes,
  take, All, All-take, Bool-cases, Option-cases,
}
use omgp.Link.Types.{FrameFields, byte_time_us}
use omgp.Link.Wire.{RxByte}
use omgp.Link.Held.{slot, drop_held}
use omgp.Link.Deframer.{feed}
use omgp.Link.Deframer.Invariant.{IsDelivered, feed-IsDelivered, feed-IsValid}
use omgp.Link.Responder.{
  Responder, acceptable, on_request, note_byte, on_frame, on_byte, read_byte, serve_held,
  transmit_if_due, round, rounds, enough_rounds, poll, is_replay,
}
use omgp.Link.Responder.Invariant.{
  IsValid, transmit_if_due-IsValid, discard-IsValid, answer-IsValid, replay-IsValid,
  is_replay-valid, hold_or_discard-IsValid, note_byte-IsValid, app-IsValid,
}

-- `writes`: what the handler answers are bytes.
module _ {A : Type 0} (handle : A → Bytes → A × Bytes)
    (writes : (a : A) (bs : Bytes) → IsBytes bs → IsBytes (handle a bs).1) where
  pub on_request-IsValid :
      (f : FrameFields) (t : ℕ) (r : Responder A)
      → IsDelivered f
      → IsValid r
      → IsValid (on_request handle f t r)
  unfolding on_request acceptable
  on_request-IsValid f t r q v = elim (Bool-cases (acceptable r f)) [
    | inr refused ↦ rw refused (discard-IsValid r v)
    | inl taken ↦ elim (Bool-cases (is_replay r f)) [
      | inl again ↦ rw taken (rw again (replay-IsValid t r (is_replay-valid r f again) v))
      | inr fresh ↦
          let (app', payload) = handle r.app (take f.len f.payload) in
          rw taken (
            rw fresh (
              answer-IsValid f t payload (record r { app = app' }) q taken
                (writes r.app _ (All-take (λ x. x < 256) f.len f.payload q.fields.payload_bytes))
                (app-IsValid app' r v)))
    ]
  ]

  on_frame-IsValid :
      (f : FrameFields) (t : ℕ) (r : Responder A)
      → IsDelivered f
      → IsValid r
      → IsValid (on_frame handle f t r)
  unfolding on_frame
  on_frame-IsValid f t r q v =
      ground (arith, on_request-IsValid f t r q v, hold_or_discard-IsValid f t r q v)

  on_byte-IsValid :
      (b : RxByte) (r : Responder A) → b.byte < 256 → IsValid r → IsValid (on_byte handle b r)
  unfolding on_byte
  on_byte-IsValid b r h v =
      let (d, out) = feed b.byte r.deframer in
      let r' = note_byte b d r in
      let v' = note_byte-IsValid b d r (feed-IsValid b.byte r.deframer h v.deframer_valid) v in
      elim (Option-cases out) [
        | inl e ↦ rw (on_byte, e) (ground (arith, discard-IsValid r' v'))
        | inr (f, e) ↦
            rw (on_byte, e)
              (on_frame-IsValid f (b.start_us + byte_time_us r.wire.bit_rate) r'
                (feed-IsDelivered b.byte r.deframer f v.deframer_valid e) v')
      ]

  read_byte-IsValid :
      (bs : List RxByte) (r : Responder A)
      → All (λ b. b.byte < 256) bs
      → IsValid r
      → IsValid (read_byte handle bs r).1
  unfolding read_byte
  read_byte-IsValid [] r h v = v
  read_byte-IsValid (b ∷ bs) r h v =
      on_byte-IsValid b (record r { wire = record (r.wire) { rx = bs } }) h.0 (ground (arith, h.1))

  serve_held-IsValid : (r : Responder A) → IsValid r → IsValid (serve_held handle r)
  unfolding serve_held slot drop_held
  serve_held-IsValid r v =
      let q = slot r.held r.held.head in
      on_request-IsValid q.f q.request_end_us (record r { held = drop_held r.held }) (ground arith)
        (ground arith)

  pub round-IsValid : (now_us : ℕ) (r : Responder A) → IsValid r → IsValid (round handle now_us r).1
  unfolding round
  round-IsValid now_us r v =
      let r1 = transmit_if_due now_us false r in
      let v1 = transmit_if_due-IsValid now_us false r v in
      ground (arith, serve_held-IsValid r1 v1, read_byte-IsValid r1.wire.rx r1 v1.rx_bytes v1)

  pub rounds-IsValid :
      (n now_us : ℕ) (r r' : Responder A)
      → IsValid r
      → rounds handle n now_us r ≡ some r'
      → IsValid r'
  unfolding rounds
  rounds-IsValid zero now_us r r' v h = ground arith
  rounds-IsValid (suc n) now_us r r' v h =
      let (more, r1) = round handle now_us r in
      let v1 = round-IsValid now_us r v in
      elim (Bool-cases more) [
        | inl e ↦ rounds-IsValid n now_us r1 r' v1 (ground arith)
        | inr e ↦ ground arith
      ]

  -- A poll that finds the engine valid leaves it valid, whatever bytes are due: among other things
  -- the replay buffer is empty or holds the encoding of a response to the request it names, and a
  -- scheduled transmission is due one turnaround after the end of its request.
  pub poll_responder-IsValid :
      (now_us : ℕ) (r r' : Responder A) → IsValid r → poll handle now_us r ≡ some r' → IsValid r'
  unfolding poll
  poll_responder-IsValid now_us r r' v h =
      elim (Option-cases (rounds handle (enough_rounds r) now_us r)) [
        | inl e ↦ ground arith
        | inr (r1, e) ↦
            let v1 = rounds-IsValid (enough_rounds r) now_us r r1 v e in
            ground (arith, transmit_if_due-IsValid now_us true r1 v1)
      ]
