-- ===== src/Link/Responder/Rounds.antt =====
-- The loop of Responder::poll in link/responder.cpp ends.
use omgp.Base.{
  ℕ, zero, suc, ◌+◌, ◌*◌, ◌≤◌, ◌<◌, ◌≡◌, refl, ◌∙◌, sym, Bool, true, false, List, [], ◌∷◌, some,
  arith, Bytes, length, take, Bool-cases, Option-cases, inl, inr,
}
use omgp.Link.Types.{FrameFields, byte_time_us}
use omgp.Link.Wire.{RxByte}
use omgp.Link.Held.{slot, append_held, drop_held}
use omgp.Link.Deframer.{feed}
use omgp.Link.Responder.{
  Responder, ResponderState, listening, scheduled, transmitting, discard, answer, serve_replay,
  on_request, hold_or_discard, note_byte, on_frame, on_byte, read_byte, serve_held,
  finish_transmitting, transmit_late, transmit_scheduled, transmit_if_due, round, rounds,
  enough_rounds, poll, defer, send, count_late, store, schedule,
}

module _ {A : Type 0} where
  -- The bytes that are due and the requests that wait.
  abbrev Keeps : Responder A → Responder A → Type 0
  Keeps r r' = (r'.wire.rx ≡ r.wire.rx) × (r'.held ≡ r.held)

  finish_transmitting-Keeps :
      (now_us : ℕ) (s : ResponderState) (r : Responder A) → Keeps r (finish_transmitting now_us s r)
  unfolding finish_transmitting
  finish_transmitting-Keeps now_us transmitting r = ground arith
  finish_transmitting-Keeps now_us listening r = (refl, refl)
  finish_transmitting-Keeps now_us scheduled r = (refl, refl)

  transmit_late-Keeps : (now_us : ℕ) (r : Responder A) → Keeps r (transmit_late now_us r)
  unfolding transmit_late defer send count_late
  transmit_late-Keeps now_us r = ground arith

  transmit_scheduled-Keeps :
      (now_us : ℕ) (drained : Bool) (r : Responder A)
      → Keeps r (transmit_scheduled now_us drained r)
  unfolding transmit_scheduled send
  transmit_scheduled-Keeps now_us drained r = ground (arith, transmit_late-Keeps now_us r)

  pub transmit_if_due-Keeps :
      (now_us : ℕ) (drained : Bool) (r : Responder A)
      → ((transmit_if_due now_us drained r).wire.rx ≡ r.wire.rx)
        × ((transmit_if_due now_us drained r).held ≡ r.held)
  unfolding transmit_if_due
  transmit_if_due-Keeps now_us drained r =
      let first = finish_transmitting-Keeps now_us r.state r in
      let then_sent =
        transmit_scheduled-Keeps now_us drained (finish_transmitting now_us r.state r) in
      (then_sent.0 ∙ first.0, then_sent.1 ∙ first.1)

  answer-Keeps :
      (f : FrameFields) (t : ℕ) (payload : Bytes) (r : Responder A) → Keeps r (answer f t payload r)
  unfolding answer discard schedule store
  answer-Keeps f t payload r = ground arith

  hold_or_discard-le :
      (f : FrameFields) (t : ℕ) (r : Responder A)
      → ((hold_or_discard f t r).wire.rx ≡ r.wire.rx)
        × ((hold_or_discard f t r).held.count ≤ r.held.count + 1)
  unfolding hold_or_discard discard append_held
  hold_or_discard-le f t r = ground arith

module _ {A : Type 0} (handle : A → Bytes → A × Bytes) where
  on_request-Keeps : (f : FrameFields) (t : ℕ) (r : Responder A) → Keeps r (on_request handle f t r)
  unfolding on_request discard serve_replay schedule
  on_request-Keeps f t r = ground (
    arith,
    answer-Keeps f t (handle r.app (take f.len f.payload)).1
        (record r { app = (handle r.app (take f.len f.payload)).0 }),
  )

  on_frame-le :
      (f : FrameFields) (t : ℕ) (r : Responder A)
      → ((on_frame handle f t r).wire.rx ≡ r.wire.rx)
        × ((on_frame handle f t r).held.count ≤ r.held.count + 1)
  unfolding on_frame
  on_frame-le f t r = ground (arith, on_request-Keeps f t r, hold_or_discard-le f t r)

  on_byte-le :
      (b : RxByte) (r : Responder A)
      → ((on_byte handle b r).wire.rx ≡ r.wire.rx)
        × ((on_byte handle b r).held.count ≤ r.held.count + 1)
  unfolding on_byte note_byte discard
  on_byte-le b r =
      let (d, out) = feed b.byte r.deframer in
      elim (Option-cases out) [
        | inl e ↦ rw (on_byte, e) (ground arith)
        | inr (f, e) ↦
            rw (on_byte, e)
              (on_frame-le f (b.start_us + byte_time_us r.wire.bit_rate) (note_byte b d r))
      ]

  -- What the loop has left to do.
  abbrev left : Responder A → ℕ
  left r = 2 * length r.wire.rx + r.held.count

  read_byte-left :
      (bs : List RxByte) (r : Responder A)
      → r.wire.rx ≡ bs
      → (read_byte handle bs r).0 ≡ true
      → left (read_byte handle bs r).1 < left r
  unfolding read_byte
  read_byte-left [] r e h = ground arith
  read_byte-left (b ∷ bs) r e h =
      rw e (ground (arith, on_byte-le b (record r { wire = record (r.wire) { rx = bs } })))

  serve_held-left : (r : Responder A) → 0 < r.held.count → left (serve_held handle r) < left r
  unfolding serve_held drop_held
  serve_held-left r h =
      let q = slot r.held r.held.head in
      let kept = on_request-Keeps q.f q.request_end_us (record r { held = drop_held r.held }) in
      rw kept.0 (rw kept.1 (omega arith))

  round-left :
      (now_us : ℕ) (r : Responder A)
      → (round handle now_us r).0 ≡ true
      → left (round handle now_us r).1 < left r
  unfolding round
  round-left now_us r h =
      let r1 = transmit_if_due now_us false r in
      let kept = transmit_if_due-Keeps now_us false r in
      rw (sym kept.0)
        (rw (sym kept.1) (ground (arith, serve_held-left r1, read_byte-left r1.wire.rx r1 refl)))

  rounds-returns :
      (n now_us : ℕ) (r : Responder A)
      → left r < n
      → (r' : Responder A) × (rounds handle n now_us r ≡ some r')
  unfolding rounds
  rounds-returns zero now_us r h = ground arith
  rounds-returns (suc n) now_us r h = elim (Bool-cases (round handle now_us r).0) [
    | inl e ↦
        rw (rounds, e)
          (rounds-returns n now_us (round handle now_us r).1 (omega (arith, round-left now_us r e)))
    | inr e ↦ rw (rounds, e) ((round handle now_us r).1, refl)
  ]

  -- The loop of poll() ends, whatever is due and however many requests wait: every poll returns.
  pub poll-returns :
      (now_us : ℕ) (r : Responder A) → (r' : Responder A) × (poll handle now_us r ≡ some r')
  unfolding poll
  poll-returns now_us r =
      let (r', e) = rounds-returns (enough_rounds r) now_us r (omega arith) in
      rw (poll, e) (transmit_if_due now_us true r', refl)
