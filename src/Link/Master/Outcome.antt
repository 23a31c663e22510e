-- ===== src/Link/Master/Outcome.antt =====
-- Events of link/master.cpp: one for each transaction, and a failure only after every retry.
use omgp.Base.{
  ℕ, ◌+◌, ◌≤◌, ◌≡◌, ◌⊎◌, inl, inr, refl, ◌∙◌, true, false, List, [], ◌∷◌, Option, none, some, arith,
  ltb, Bool-cases,
}
use omgp.Protocol.{retries}
use omgp.Link.Types.{FrameFields}
use omgp.Link.Wire.{RxByte}
use omgp.Link.Deframer.{feed}
use omgp.Link.Master.{
  Master, MasterEvent, no_event, answered, failed, byte_us, do_transmit, note_byte, on_frame,
  on_bad_crc, on_byte, drain, drain_wire, expire, is_overdue, fire_pending, poll,
}

-- An event that ends a transaction after `n` transmissions.
abbrev pub Ends : MasterEvent → ℕ → Type 0
Ends no_event n = ⊥
Ends (answered f) n = Unit {0}
Ends (failed why) n = 1 + retries ≤ n

-- From `m`: no event, and the transaction is as open as it was; or the event that ends an open one.
abbrev pub Outcome : Master → Master × MasterEvent → Type 0
Outcome m (m', event) =
    ((event ≡ no_event) × (m'.is_open ≡ m.is_open))
    ⊎ ((m.is_open ≡ true) × (m'.is_open ≡ false) × Ends event m'.attempt_count)

on_frame-Outcome :
    (m0 : Master) (t : ℕ) (out : Option FrameFields) (m : Master) (event : MasterEvent)
    → Outcome m0 (m, event)
    → Outcome m0 (on_frame t out m event)
unfolding on_frame
on_frame-Outcome m0 t none m event h = h
on_frame-Outcome m0 t (some f) m event h = ground arith

on_bad_crc-Outcome :
    (m0 : Master) (t u : ℕ) (m : Master) (event : MasterEvent)
    → Outcome m0 (m, event)
    → Outcome m0 (on_bad_crc t u m event)
unfolding on_bad_crc
on_bad_crc-Outcome m0 t u m event h = ground arith

on_byte-Outcome :
    (m0 : Master) (r : RxByte) (m : Master) (event : MasterEvent)
    → Outcome m0 (m, event)
    → Outcome m0 (on_byte r m event)
unfolding on_byte note_byte
on_byte-Outcome m0 r m event h =
    let d = (feed r.byte m.deframer).0 in
    let out = (feed r.byte m.deframer).1 in
    let m' = note_byte r d m in
    elim (Bool-cases (ltb m.deframer.stats.bad_crcs d.stats.bad_crcs)) [
      | inl bad ↦ rw bad (on_bad_crc-Outcome m0 m.resp_open_us (r.start_us + byte_us m) m' event h)
      | inr good ↦ rw good (on_frame-Outcome m0 m.resp_open_us out m' event h)
    ]

drain-Outcome :
    (m0 : Master) (rs : List RxByte) (m : Master) (event : MasterEvent)
    → Outcome m0 (m, event)
    → Outcome m0 (drain rs m event)
unfolding drain
drain-Outcome m0 [] m event h = h
drain-Outcome m0 (r ∷ rs) m event h =
    drain-Outcome m0 rs (on_byte r m event).0 (on_byte r m event).1 (on_byte-Outcome m0 r m event h)

expire-Outcome :
    (m0 : Master) (now_us : ℕ) (m : Master) (event : MasterEvent)
    → Outcome m0 (m, event)
    → Outcome m0 (expire now_us m event)
unfolding expire is_overdue
expire-Outcome m0 now_us m event h = ground arith

pub fire_pending-is_open : (now_us : ℕ) (m : Master) → (fire_pending now_us m).is_open ≡ m.is_open
unfolding fire_pending do_transmit
fire_pending-is_open now_us m = ground arith

pub fire_pending_closed : (now_us : ℕ) (m : Master) → m.is_open ≡ false → fire_pending now_us m ≡ m
unfolding fire_pending
fire_pending_closed now_us m h = rw h

fire_pending-Outcome :
    (m0 : Master) (now_us : ℕ) (m : Master) (event : MasterEvent)
    → Outcome m0 (m, event)
    → Outcome m0 (fire_pending now_us m, event)
fire_pending-Outcome m0 now_us m event (inl (e, o)) = inl (e, fire_pending-is_open now_us m ∙ o)
fire_pending-Outcome m0 now_us m event (inr (o, c, e)) =
    rw (fire_pending_closed now_us m c) (inr (o, c, e))

-- A poll reports at most one event, and only on an open transaction, which that event closes. It
-- reports a failure only after three transmissions. With no event the transaction stays open if it
-- was open, and none is opened.
pub poll-Outcome : (now_us : ℕ) (m : Master) → Outcome m (poll now_us m)
unfolding poll drain_wire
poll-Outcome now_us m =
    let emptied = record m { wire = record (m.wire) { rx = [] } } in
    let (m1, event) = drain m.wire.rx emptied no_event in
    let (m2, event') = expire now_us m1 event in
    fire_pending-Outcome m now_us m2 event' (
      expire-Outcome m now_us m1 event
        (drain-Outcome m m.wire.rx emptied no_event (inl (refl, refl))))
