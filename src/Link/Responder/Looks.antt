-- ===== src/Link/Responder/Looks.antt =====
-- What one look at the time in link/responder.cpp, transmit_if_due(), does.
use omgp.Base.{
  ℕ, ◌+◌, ◌*◌, ◌≤◌, ◌<◌, ◌≡◌, ◌⊎◌, inl, inr, refl, Bool, true, false, ◌∷◌, arith, Bytes, Bool-cases,
  ltb, not, ◌||◌,
}
use omgp.Base.Words.{inc32}
use omgp.Protocol.{turn_min_us, turn_max_us, gap_us}
use omgp.Link.Types.{max_wire, byte_time_us}
use omgp.Link.Responder.{
  Responder, ResponderState, listening, scheduled, transmitting, is_scheduled, transmit_late,
  transmit_scheduled, finish_transmitting, transmit_if_due, defer, send, count_late, past_window,
  want_us, max_frame_us,
}
use omgp.Link.Responder.Invariant.{IsValid}
use omgp.Link.Responder.Transmissions.{finish_transmitting_cases, transmit_scheduled_listening}
use omgp.Link.Responder.Speaks.{Mute}

is_scheduled-scheduled : (s : ResponderState) → is_scheduled s ≡ true → s ≡ scheduled
is_scheduled-scheduled listening e = ground arith
is_scheduled-scheduled scheduled e = refl
is_scheduled-scheduled transmitting e = ground arith

module _ {A : Type 0} where
  -- From `r` to `r'` one response went out at `now_us`, between the least and the greatest turnaround
  -- behind the end of the request.
  pub record OnTime (now_us : ℕ) (r r' : Responder A) : Type 0 where
    pub bytes : Bytes
    pub sent_eq : r'.wire.sent ≡ record { bytes = bytes; at_us = now_us } ∷ r.wire.sent
    pub not_early : r'.request_end_us + turn_min_us ≤ now_us
    pub not_late : now_us ≤ r'.request_end_us + turn_max_us
    pub late_eq : r'.stats.late_responses ≡ r.stats.late_responses

  -- The bus has been silent for the gap; or an earlier poll had begun the wait for that, a worst-case
  -- frame and the gap ago.
  abbrev pub BusFree : ℕ → Responder A → Responder A → Type 0
  BusFree now_us r r' =
      (r'.has_activity ≡ false)
      ⊎ (r'.last_activity_us + gap_us ≤ now_us)
      ⊎ ((r.has_defer_origin ≡ true)
          × (r.defer_origin_us + max_wire * byte_time_us r.wire.bit_rate + gap_us ≤ now_us))

  -- One response went out at `now_us`, behind the window: that is counted.
  pub record Late (now_us : ℕ) (r r' : Responder A) : Type 0 where
    pub bytes : Bytes
    pub sent_eq : r'.wire.sent ≡ record { bytes = bytes; at_us = now_us } ∷ r.wire.sent
    pub is_late : r'.request_end_us + turn_max_us < now_us
    pub bus_free : BusFree now_us r r'
    pub late_eq : r'.stats.late_responses ≡ inc32 r.stats.late_responses

  -- Nothing went out, and the wait for a silent bus began at `now_us`.
  pub record Waits (now_us : ℕ) (r r' : Responder A) : Type 0 where
    pub sent_eq : r'.wire.sent ≡ r.wire.sent
    pub late_eq : r'.stats.late_responses ≡ r.stats.late_responses
    pub is_late : r'.request_end_us + turn_max_us < now_us
    pub not_waiting : r.has_defer_origin ≡ false
    pub waiting : r'.has_defer_origin ≡ true
    pub since : r'.defer_origin_us ≡ now_us

  Mute-refl : (r : Responder A) → Mute r r
  Mute-refl r = ground arith

  due_scheduled :
      (now_us : ℕ) (r : Responder A)
      → (not (is_scheduled r.state) || ltb now_us r.deadline_us) ≡ false
      → r.state ≡ scheduled
  due_scheduled now_us r e = is_scheduled-scheduled r.state (ground arith)

  past_late :
      (now_us : ℕ) (r : Responder A)
      → past_window now_us r ≡ true
      → r.request_end_us + turn_max_us < now_us
  unfolding past_window
  past_late now_us r e = ground arith

  send-OnTime :
      (now_us : ℕ) (r : Responder A)
      → IsValid r
      → r.state ≡ scheduled
      → r.deadline_us ≤ now_us
      → past_window now_us r ≡ false
      → OnTime now_us r (send now_us r)
  unfolding send past_window
  send-OnTime now_us r v s h p = record {
    bytes = r.buffer.bytes;
    sent_eq = refl;
    not_early = ground arith;
    not_late = ground arith;
    late_eq = refl;
  }

  send-state : (now_us : ℕ) (r : Responder A) → (send now_us r).state ≡ transmitting
  unfolding send
  send-state now_us r = refl

  finish_transmitting-Mute :
      (now_us : ℕ) (s : ResponderState) (r : Responder A) → Mute r (finish_transmitting now_us s r)
  unfolding finish_transmitting
  finish_transmitting-Mute now_us transmitting r = ground arith
  finish_transmitting-Mute now_us listening r = ground arith
  finish_transmitting-Mute now_us scheduled r = ground arith

  send-Late :
      (now_us : ℕ) (r : Responder A)
      → r.request_end_us + turn_max_us < now_us
      → BusFree now_us r r
      → Late now_us r (count_late (send now_us r))
  unfolding send count_late
  send-Late now_us r late free = record {
    bytes = r.buffer.bytes;
    sent_eq = refl;
    is_late = late;
    bus_free = free;
    late_eq = refl;
  }

  defer_waiting : (now_us : ℕ) (r : Responder A) → r.has_defer_origin ≡ true → defer now_us r ≡ r
  unfolding defer
  defer_waiting now_us r e = rw (defer, e) refl

  BusFree-waiting :
      (now_us : ℕ) (r : Responder A)
      → r.has_defer_origin ≡ true
      → want_us now_us r ≤ now_us
      → BusFree now_us r r
  unfolding want_us max_frame_us
  BusFree-waiting now_us r e h = ground arith

  BusFree-at_once :
      (now_us : ℕ) (r : Responder A)
      → r.has_defer_origin ≡ false
      → want_us now_us (defer now_us r) ≤ now_us
      → BusFree now_us r r
  unfolding want_us max_frame_us defer
  BusFree-at_once now_us r e h = ground arith

  defer-Waits :
      (now_us : ℕ) (r : Responder A)
      → r.has_defer_origin ≡ false
      → r.request_end_us + turn_max_us < now_us
      → Waits now_us r (defer now_us r)
  unfolding defer
  defer-Waits now_us r e late = ground arith

  send_deferred-Late :
      (now_us : ℕ) (r : Responder A)
      → r.has_defer_origin ≡ false
      → r.request_end_us + turn_max_us < now_us
      → BusFree now_us r r
      → Late now_us r (count_late (send now_us (defer now_us r)))
  unfolding send count_late defer
  send_deferred-Late now_us r e late free = record {
    bytes = r.buffer.bytes;
    sent_eq = ground arith;
    is_late = ground arith;
    bus_free = ground arith;
    late_eq = ground arith;
  }

  transmit_late-cases :
      (now_us : ℕ) (r : Responder A)
      → r.request_end_us + turn_max_us < now_us
      → Mute r (transmit_late now_us r)
        ⊎ Waits now_us r (transmit_late now_us r)
        ⊎ Late now_us r (transmit_late now_us r)
  unfolding transmit_late
  transmit_late-cases now_us r late = elim (Bool-cases r.has_defer_origin) [
    | inl e ↦ elim (Bool-cases (ltb now_us (want_us now_us r))) [
      | inl w ↦ rw (transmit_late, defer_waiting now_us r e) (rw w (inl (ground arith)))
      | inr w ↦
          rw (transmit_late, defer_waiting now_us r e)
            (rw w (inr (inr (send-Late now_us r late (BusFree-waiting now_us r e (ground arith))))))
    ]
    | inr e ↦ elim (Bool-cases (ltb now_us (want_us now_us (defer now_us r)))) [
      | inl w ↦ rw (transmit_late, w) (inr (inl (defer-Waits now_us r e late)))
      | inr w ↦
          rw (transmit_late, w)
            (inr (
              inr (send_deferred-Late now_us r e late (BusFree-at_once now_us r e (ground arith)))))
    ]
  ]

  -- What one look at the time does: nothing, or a response in time; and once the bytes are read, a late
  -- response, or the start of the wait for one.
  transmit_scheduled-cases :
      (now_us : ℕ) (drained : Bool) (r : Responder A)
      → IsValid r
      → (Mute r (transmit_scheduled now_us drained r)
          ⊎ (OnTime now_us r (transmit_scheduled now_us drained r)
              × ((transmit_scheduled now_us drained r).state ≡ transmitting)))
        ⊎ ((drained ≡ true)
            × (past_window now_us r ≡ true)
            × (Waits now_us r (transmit_scheduled now_us drained r)
                ⊎ Late now_us r (transmit_scheduled now_us drained r)))
  unfolding transmit_scheduled
  transmit_scheduled-cases now_us drained r v =
      elim (Bool-cases (not (is_scheduled r.state) || ltb now_us r.deadline_us)) [
        | inl e ↦ rw (transmit_scheduled, e) (inl (inl (Mute-refl r)))
        | inr e ↦ elim (Bool-cases (past_window now_us r)) [
          | inr p ↦
              rw (transmit_scheduled, e)
                (rw p (
                  inl (
                    inr (
                      send-OnTime now_us r v (due_scheduled now_us r e) (ground arith) p,
                      send-state now_us r,
                    ))))
          | inl p ↦ elim (Bool-cases drained) [
            | inr d ↦ rw (transmit_scheduled, e) (rw p (rw d (inl (inl (Mute-refl r)))))
            | inl d ↦
                let late : r.request_end_us + turn_max_us < now_us = past_late now_us r p in
                elim (transmit_late-cases now_us r late) [
                  | inl m ↦ rw (transmit_scheduled, e) (rw p (rw d (inl (inl m))))
                  | inr k ↦ rw (transmit_scheduled, e) (rw p (rw d (inr (refl, refl, k))))
                ]
          ]
        ]
      ]

  -- The same, once the wire is found free or not.
  pub transmit_if_due-cases :
      (now_us : ℕ) (drained : Bool) (r : Responder A)
      → IsValid r
      → (Mute r (transmit_if_due now_us drained r)
          ⊎ (OnTime now_us r (transmit_if_due now_us drained r)
              × ((transmit_if_due now_us drained r).state ≡ transmitting)))
        ⊎ ((drained ≡ true)
            × (past_window now_us r ≡ true)
            × (Waits now_us r (transmit_if_due now_us drained r)
                ⊎ Late now_us r (transmit_if_due now_us drained r)))
  unfolding transmit_if_due
  transmit_if_due-cases now_us drained r v =
      elim (finish_transmitting_cases now_us r.state r refl) [
        | inl e ↦ rw (transmit_if_due, e) (transmit_scheduled-cases now_us drained r v)
        | inr (idle, w) ↦
            let r1 = finish_transmitting now_us r.state r in
            let e = transmit_scheduled_listening now_us drained r1 idle in
            rw (transmit_if_due, e) (inl (inl (finish_transmitting-Mute now_us r.state r)))
      ]

  -- A node that is transmitting does not transmit.
  pub transmit_if_due-busy :
      (now_us : ℕ) (drained : Bool) (r : Responder A)
      → r.state ≡ transmitting
      → Mute r (transmit_if_due now_us drained r)
        × ((transmit_if_due now_us drained r).request_end_us ≡ r.request_end_us)
  unfolding transmit_if_due transmit_scheduled finish_transmitting
  transmit_if_due-busy now_us drained r e = ground arith
