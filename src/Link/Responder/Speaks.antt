-- ===== src/Link/Responder/Speaks.antt =====
-- All that one call of Responder::poll in link/responder.cpp puts on the wire.
use omgp.Base.{
  ℕ, zero, suc, ◌+◌, ◌≡◌, inl, inr, refl, sym, ◌∙◌, ap, Bool, true, false, List, [], ◌∷◌, ◌++◌,
  some, arith, Bytes, IsBytes, take, All, All-append, Bool-cases, Option-cases, append_assoc, subst,
}
use omgp.Link.Types.{FrameFields, byte_time_us}
use omgp.Link.Wire.{RxByte, Transmission}
use omgp.Link.Held.{slot, drop_held}
use omgp.Link.Deframer.{feed, feed_all, new_deframer}
use omgp.Link.Deframer.Invariant.{encode_frame-feed_all}
use omgp.Link.Responder.{
  Responder, scheduled, discard, answer, serve_replay, schedule, store, on_request, hold_or_discard,
  note_byte, on_frame, on_byte, read_byte, serve_held, transmit_late, transmit_scheduled,
  finish_transmitting, transmit_if_due, round, rounds, enough_rounds, poll, defer, send, count_late,
}
use omgp.Link.Responder.Invariant.{IsValid}
use omgp.Link.Responder.Preserved.{round-IsValid, rounds-IsValid}
use omgp.Link.Responder.Transmissions.{transmit_if_due-Sent}

-- A transmission that began at `now_us` and decodes to one response from node `my_addr`.
pub record IsSpoken (now_us my_addr : ℕ) (t : Transmission) : Type 0 where
  pub at_eq : t.at_us ≡ now_us
  pub decodes :
      (g : FrameFields) × (g.src ≡ my_addr)
      × (g.response ≡ true)
      × ((feed_all t.bytes new_deframer).1 ≡ g ∷ [])

module _ {A : Type 0} where
  -- From `r` to `r'` the node says nothing but responses, at `now_us`.
  pub record Speaks (now_us : ℕ) (r r' : Responder A) : Type 0 where
    pub my_addr_eq : r'.my_addr ≡ r.my_addr
    pub said : List Transmission
    pub sent_eq : r'.wire.sent ≡ said ++ r.wire.sent
    pub said_spoken : All (IsSpoken now_us r.my_addr) said

  Speaks-trans :
      {a b c : Responder A} (now_us : ℕ) → Speaks now_us a b → Speaks now_us b c → Speaks now_us a c
  Speaks-trans {a} {b} {c} now_us p q = record {
    my_addr_eq = q.my_addr_eq ∙ p.my_addr_eq;
    said = q.said ++ p.said;
    sent_eq =
        q.sent_eq ∙ ap (λ l. q.said ++ l) p.sent_eq ∙ sym (append_assoc q.said p.said a.wire.sent);
    said_spoken =
        All-append (IsSpoken now_us a.my_addr) q.said p.said
          (subst (λ n. All (IsSpoken now_us n) q.said) p.my_addr_eq q.said_spoken) p.said_spoken;
  }

  -- Nothing is said, no response is late, and no wait for the bus begins or ends.
  pub record Mute (r r' : Responder A) : Type 0 where
    pub sent_eq : r'.wire.sent ≡ r.wire.sent
    pub my_addr_eq : r'.my_addr ≡ r.my_addr
    pub late_eq : r'.stats.late_responses ≡ r.stats.late_responses
    pub rate_eq : r'.wire.bit_rate ≡ r.wire.bit_rate
    pub has_defer_eq : r'.has_defer_origin ≡ r.has_defer_origin
    pub defer_eq : r'.defer_origin_us ≡ r.defer_origin_us

  pub Mute-trans : {a b c : Responder A} → Mute a b → Mute b c → Mute a c
  Mute-trans p q = record {
    sent_eq = q.sent_eq ∙ p.sent_eq;
    my_addr_eq = q.my_addr_eq ∙ p.my_addr_eq;
    late_eq = q.late_eq ∙ p.late_eq;
    rate_eq = q.rate_eq ∙ p.rate_eq;
    has_defer_eq = q.has_defer_eq ∙ p.has_defer_eq;
    defer_eq = q.defer_eq ∙ p.defer_eq;
  }

  Mute-Speaks : (now_us : ℕ) (r r' : Responder A) → Mute r r' → Speaks now_us r r'
  Mute-Speaks now_us r r' m = record {
    my_addr_eq = m.my_addr_eq;
    said = [];
    sent_eq = m.sent_eq;
    said_spoken = tt;
  }

  transmit_if_due-my_addr :
      (now_us : ℕ) (drained : Bool) (r : Responder A)
      → (transmit_if_due now_us drained r).my_addr ≡ r.my_addr
  unfolding transmit_if_due transmit_scheduled finish_transmitting transmit_late defer send
      count_late
  transmit_if_due-my_addr now_us drained r = ground arith

  stored_response :
      (r : Responder A)
      → IsValid r
      → r.state ≡ scheduled
      → (g : FrameFields) × (g.src ≡ r.my_addr)
        × (g.response ≡ true)
        × ((feed_all r.buffer.bytes new_deframer).1 ≡ g ∷ [])
  stored_response r v h = elim v.buffer_stored [
    | inl e ↦ ground arith
    | inr (g, q, e) ↦ (
      g,
      q.src_eq,
      q.is_response,
      ap (λ bs. (feed_all bs new_deframer).1) e ∙ (encode_frame-feed_all g q.delivered).1,
    )
  ]

  transmit_if_due-Speaks :
      (now_us : ℕ) (drained : Bool) (r : Responder A)
      → IsValid r
      → Speaks now_us r (transmit_if_due now_us drained r)
  transmit_if_due-Speaks now_us drained r v =
      let same = transmit_if_due-my_addr now_us drained r in
      elim (transmit_if_due-Sent now_us drained r v) [
        | inl quiet ↦ record {
          my_addr_eq = same;
          said = [];
          sent_eq = ap (λ w. w.sent) quiet.0;
          said_spoken = tt;
        }
        | inr s ↦ record {
          my_addr_eq = same;
          said = record { bytes = r.buffer.bytes; at_us = now_us } ∷ [];
          sent_eq = s.sent_eq;
          said_spoken =
              (record { at_eq = refl; decodes = stored_response r v s.was_scheduled }, tt);
        }
      ]

module _ {A : Type 0} (handle : A → Bytes → A × Bytes)
    (writes : (a : A) (bs : Bytes) → IsBytes bs → IsBytes (handle a bs).1) where
  answer-Mute :
      (f : FrameFields) (t : ℕ) (payload : Bytes) (r : Responder A) → Mute r (answer f t payload r)
  unfolding answer discard schedule store
  answer-Mute f t payload r = ground arith

  on_request-Mute : (f : FrameFields) (t : ℕ) (r : Responder A) → Mute r (on_request handle f t r)
  unfolding on_request discard serve_replay schedule
  on_request-Mute f t r =
      let (app', payload) = handle r.app (take f.len f.payload) in
      ground (arith, answer-Mute f t payload (record r { app = app' }))

  on_frame-Mute : (f : FrameFields) (t : ℕ) (r : Responder A) → Mute r (on_frame handle f t r)
  unfolding on_frame hold_or_discard discard
  on_frame-Mute f t r = ground (arith, on_request-Mute f t r)

  on_byte-Mute : (b : RxByte) (r : Responder A) → Mute r (on_byte handle b r)
  unfolding on_byte note_byte discard
  on_byte-Mute b r =
      let (d, out) = feed b.byte r.deframer in
      elim (Option-cases out) [
        | inl e ↦ rw (on_byte, e) (ground arith)
        | inr (f, e) ↦
            let m = on_frame-Mute f (b.start_us + byte_time_us r.wire.bit_rate) (note_byte b d r) in
            rw (on_byte, e)
              (record {
                sent_eq = m.sent_eq;
                my_addr_eq = m.my_addr_eq;
                late_eq = m.late_eq;
                rate_eq = m.rate_eq;
                has_defer_eq = m.has_defer_eq;
                defer_eq = m.defer_eq;
              })
      ]

  read_byte-Mute : (bs : List RxByte) (r : Responder A) → Mute r (read_byte handle bs r).1
  unfolding read_byte
  read_byte-Mute [] r = ground arith
  read_byte-Mute (b ∷ bs) r =
      let m = on_byte-Mute b (record r { wire = record (r.wire) { rx = bs } }) in
      record {
        sent_eq = m.sent_eq;
        my_addr_eq = m.my_addr_eq;
        late_eq = m.late_eq;
        rate_eq = m.rate_eq;
        has_defer_eq = m.has_defer_eq;
        defer_eq = m.defer_eq;
      }

  serve_held-Mute : (r : Responder A) → Mute r (serve_held handle r)
  unfolding serve_held
  serve_held-Mute r =
      let q = slot r.held r.held.head in
      let m = on_request-Mute q.f q.request_end_us (record r { held = drop_held r.held }) in
      record {
        sent_eq = m.sent_eq;
        my_addr_eq = m.my_addr_eq;
        late_eq = m.late_eq;
        rate_eq = m.rate_eq;
        has_defer_eq = m.has_defer_eq;
        defer_eq = m.defer_eq;
      }

  pub rest_of_round-Mute :
      (now_us : ℕ) (r : Responder A)
      → Mute (transmit_if_due now_us false r) (round handle now_us r).1
  unfolding round
  rest_of_round-Mute now_us r =
      let r1 = transmit_if_due now_us false r in
      ground (arith, serve_held-Mute r1, read_byte-Mute r1.wire.rx r1)

  round-Speaks :
      (now_us : ℕ) (r : Responder A) → IsValid r → Speaks now_us r (round handle now_us r).1
  round-Speaks now_us r v =
      Speaks-trans now_us (transmit_if_due-Speaks now_us false r v)
        (Mute-Speaks now_us _ _ (rest_of_round-Mute now_us r))

  rounds-Speaks :
      (n now_us : ℕ) (r r' : Responder A)
      → IsValid r
      → rounds handle n now_us r ≡ some r'
      → Speaks now_us r r'
  unfolding rounds
  rounds-Speaks zero now_us r r' v h = ground arith
  rounds-Speaks (suc n) now_us r r' v h =
      let (more, r1) = round handle now_us r in
      let v1 = round-IsValid handle writes now_us r v in
      let said = round-Speaks now_us r v in
      elim (Bool-cases more) [
        | inl e ↦ Speaks-trans now_us said (rounds-Speaks n now_us r1 r' v1 (ground arith))
        | inr e ↦ ground (arith, said)
      ]

  -- Whatever arrives, all that a valid node puts on the wire in one poll decodes to responses: each
  -- transmission begins at the poll's instant and decodes to just one frame, a response that names this
  -- node as its source. The node never speaks as another one, and never sends a request.
  pub poll-Speaks :
      (now_us : ℕ) (r r' : Responder A)
      → IsValid r
      → poll handle now_us r ≡ some r'
      → Speaks now_us r r'
  unfolding poll
  poll-Speaks now_us r r' v h = elim (Option-cases (rounds handle (enough_rounds r) now_us r)) [
    | inl e ↦ ground arith
    | inr (r1, e) ↦
        let v1 = rounds-IsValid handle writes (enough_rounds r) now_us r r1 v e in
        let first = rounds-Speaks (enough_rounds r) now_us r r1 v e in
        let last = Speaks-trans now_us first (transmit_if_due-Speaks now_us true r1 v1) in
        ground (arith, last)
  ]
