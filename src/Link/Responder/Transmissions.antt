-- ===== src/Link/Responder/Transmissions.antt =====
-- When link/responder.cpp transmits, and what.
use omgp.Base.{
  ℕ, ◌+◌, ◌*◌, ◌≤◌, ◌<◌, ◌≡◌, ◌⊎◌, inl, inr, refl, Bool, true, false, ◌∷◌, arith, length,
}
use omgp.Base.Words.{inc32}
use omgp.Protocol.{turn_min_us, turn_max_us, gap_us}
use omgp.Link.Types.{max_wire, byte_time_us}
use omgp.Link.Responder.{
  Responder, ResponderState, listening, scheduled, transmitting, transmit_late, transmit_scheduled,
  finish_transmitting, transmit_if_due, defer, send, count_late, past_window, want_us, max_frame_us,
}
use omgp.Link.Responder.Invariant.{IsValid}

module _ {A : Type 0} where
  -- The wire saw nothing new, and no response was late.
  abbrev pub Silent : Responder A → Responder A → Type 0
  Silent r r' = (r'.wire ≡ r.wire) × (r'.stats ≡ r.stats)

  -- The bus has been silent for the gap, or the wait for that has reached its cap.
  abbrev pub BusFree : ℕ → Responder A → Type 0
  BusFree now_us r =
      ((r.has_activity ≡ true) × (r.last_activity_us + gap_us ≤ now_us))
      ⊎ (r.has_activity ≡ false)
      ⊎ ((r.has_defer_origin ≡ true)
          × (r.defer_origin_us + max_wire * byte_time_us r.wire.bit_rate + gap_us ≤ now_us))

  -- The stored response went out at `now_us`, no sooner than the turnaround allows.
  pub record Sent (now_us : ℕ) (drained : Bool) (r r' : Responder A) : Type 0 where
    pub was_scheduled : r.state ≡ scheduled
    pub state_eq : r'.state ≡ transmitting
    pub sent_eq : r'.wire.sent ≡ record { bytes = r.buffer.bytes; at_us = now_us } ∷ r.wire.sent
    pub busy_until :
        r'.transmit_until_us ≡ now_us + length r.buffer.bytes * byte_time_us r.wire.bit_rate
    pub not_early : r.request_end_us + turn_min_us ≤ now_us
    pub punctual :
        ((now_us ≤ r.request_end_us + turn_max_us) × (r'.stats ≡ r.stats))
        ⊎ ((r.request_end_us + turn_max_us < now_us)
            × (drained ≡ true)
            × BusFree now_us r
            × (r'.stats.late_responses ≡ inc32 r.stats.late_responses))

  send-Sent :
      (now_us : ℕ) (drained : Bool) (r : Responder A)
      → IsValid r
      → r.state ≡ scheduled
      → r.deadline_us ≤ now_us
      → past_window now_us r ≡ false
      → Sent now_us drained r (send now_us r)
  unfolding send past_window
  send-Sent now_us drained r v s h p = ground arith

  transmit_late-Sent :
      (now_us : ℕ) (r : Responder A)
      → IsValid r
      → r.state ≡ scheduled
      → r.deadline_us ≤ now_us
      → past_window now_us r ≡ true
      → Silent r (transmit_late now_us r) ⊎ Sent now_us true r (transmit_late now_us r)
  unfolding send past_window transmit_late defer want_us max_frame_us count_late
  transmit_late-Sent now_us r v s h p = ground arith

  transmit_scheduled-Sent :
      (now_us : ℕ) (drained : Bool) (r : Responder A)
      → IsValid r
      → Silent r (transmit_scheduled now_us drained r)
        ⊎ Sent now_us drained r (transmit_scheduled now_us drained r)
  unfolding transmit_scheduled
  transmit_scheduled-Sent now_us drained r v =
      ground (arith, transmit_late-Sent now_us r v, send-Sent now_us drained r v)

  pub transmit_scheduled_listening :
      (now_us : ℕ) (drained : Bool) (r : Responder A)
      → r.state ≡ listening
      → transmit_scheduled now_us drained r ≡ r
  unfolding transmit_scheduled
  transmit_scheduled_listening now_us drained r e = rw e refl

  pub finish_transmitting_cases :
      (now_us : ℕ) (s : ResponderState) (r : Responder A)
      → r.state ≡ s
      → (finish_transmitting now_us s r ≡ r)
        ⊎ (((finish_transmitting now_us s r).state ≡ listening)
            × Silent r (finish_transmitting now_us s r))
  unfolding finish_transmitting
  finish_transmitting_cases now_us transmitting r e = ground arith
  finish_transmitting_cases now_us listening r e = inl refl
  finish_transmitting_cases now_us scheduled r e = inl refl

  -- What transmit_if_due() does in a valid engine. It sends nothing unless an answer is scheduled, never
  -- sooner than the least turnaround after the end of the request, and sends just the stored bytes; up to
  -- the end of the turnaround window that is not counted as late. Later than that, it sends only where its
  -- argument `drained` is true and the bus is free, and the response is counted as late. Otherwise the
  -- wire and the counters stay as they are.
  pub transmit_if_due-Sent :
      (now_us : ℕ) (drained : Bool) (r : Responder A)
      → IsValid r
      → Silent r (transmit_if_due now_us drained r)
        ⊎ Sent now_us drained r (transmit_if_due now_us drained r)
  unfolding transmit_if_due
  transmit_if_due-Sent now_us drained r v = elim (finish_transmitting_cases now_us r.state r refl) [
    | inl e ↦ rw e (transmit_scheduled-Sent now_us drained r v)
    | inr (idle, w) ↦
        let e =
          transmit_scheduled_listening now_us drained (finish_transmitting now_us r.state r) idle in
        rw e (inl w)
  ]
