-- ===== src/Link/Master/Memory.antt =====
-- What link/master.cpp remembers of the activity on the bus.
use omgp.Base.{
  ℕ, ◌+◌, ◌/◌, ◌≤◌, ◌≡◌, subst, ◌⊎◌, inl, inr, refl, ◌∙◌, ap, true, false, List, [], ◌∷◌, Option,
  none, some, arith, ltb, All, Bool-cases,
}
use omgp.Protocol.{gap_us}
use omgp.Link.Types.{FrameFields}
use omgp.Link.Wire.{RxByte}
use omgp.Link.Deframer.{Deframer, feed}
use omgp.Link.Master.{
  Master, MasterEvent, awaiting, byte_us, note_byte, on_frame, on_bad_crc, on_byte, drain, expire,
}

-- The instant that a pending transmission waits from is kept; and where an attempt has ended, a new one
-- that is pending waits from T_gap behind the activity that was known, or later.
abbrev pub SameOrigin : Master → Master → Type 0
SameOrigin m m' =
    ((awaiting m ≡ false)
      × (awaiting m' ≡ false)
      × (m'.is_open ≡ m.is_open)
      × (m'.defer_origin_us ≡ m.defer_origin_us))
    ⊎ ((awaiting m ≡ true) × (awaiting m' ≡ true))
    ⊎ ((awaiting m ≡ true)
        × (awaiting m' ≡ false)
        × ((m'.is_open ≡ false) ⊎ (m.last_activity + gap_us ≤ m'.defer_origin_us)))

-- The activity that `m` knew of is known to `m'`, at the same byte time.
pub record Remembers (m m' : Master) : Type 0 where
  pub known_le : m.last_activity ≤ m'.last_activity
  pub still_known : (m.has_last_activity ≡ false) ⊎ (m'.has_last_activity ≡ true)
  pub rate_eq : m'.wire.bit_rate ≡ m.wire.bit_rate
  pub attempts_eq : m'.attempt_count ≡ m.attempt_count
  pub origin : SameOrigin m m'

pub Remembers-trans : {a b c : Master} → Remembers a b → Remembers b c → Remembers a c
Remembers-trans p q = record {
  known_le = omega (arith, p.known_le, q.known_le);
  still_known = ground (arith, p.still_known, q.still_known);
  rate_eq = q.rate_eq ∙ p.rate_eq;
  attempts_eq = q.attempts_eq ∙ p.attempts_eq;
  origin = ground (arith, p.origin, q.origin, p.known_le);
}

on_frame-Remembers :
    (t : ℕ) (out : Option FrameFields) (m : Master) (event : MasterEvent)
    → Remembers m (on_frame t out m event).0
unfolding on_frame
on_frame-Remembers t none m event = ground arith
on_frame-Remembers t (some f) m event = ground arith

on_bad_crc-Remembers :
    (t u : ℕ) (m : Master) (event : MasterEvent) → Remembers m (on_bad_crc t u m event).0
unfolding on_bad_crc
on_bad_crc-Remembers t u m event = ground arith

-- The bookkeeping knows the byte's end.
note_byte-Remembers :
    (r : RxByte) (d : Deframer) (m : Master)
    → Remembers m (note_byte r d m)
      × (r.start_us + byte_us m ≤ (note_byte r d m).last_activity)
      × ((note_byte r d m).has_last_activity ≡ true)
unfolding note_byte
note_byte-Remembers r d m = ground arith

on_byte-Remembers :
    (r : RxByte) (m : Master) (event : MasterEvent)
    → Remembers m (on_byte r m event).0
      × (r.start_us + byte_us m ≤ (on_byte r m event).0.last_activity)
      × ((on_byte r m event).0.has_last_activity ≡ true)
unfolding on_byte
on_byte-Remembers r m event =
    let d = (feed r.byte m.deframer).0 in
    let out = (feed r.byte m.deframer).1 in
    let m' = note_byte r d m in
    let (noted, end, has) = note_byte-Remembers r d m in
    elim (Bool-cases (ltb m.deframer.stats.bad_crcs d.stats.bad_crcs)) [
      | inl bad ↦
          let q = on_bad_crc-Remembers m.resp_open_us (r.start_us + byte_us m) m' event in
          rw bad (
            Remembers-trans noted q,
            omega (arith, end, q.known_le),
            ground (arith, has, q.still_known),
          )
      | inr good ↦
          let q = on_frame-Remembers m.resp_open_us out m' event in
          rw good (
            Remembers-trans noted q,
            omega (arith, end, q.known_le),
            ground (arith, has, q.still_known),
          )
    ]

-- Every byte of `rs` ended by the last activity that is known.
abbrev pub EndsBy : ℕ → ℕ → List RxByte → Type 0
EndsBy byte_time last = All (λ r. r.start_us + byte_time ≤ last)

pub EndsBy-mono :
    (byte_time a b : ℕ) (rs : List RxByte) → a ≤ b → EndsBy byte_time a rs → EndsBy byte_time b rs
EndsBy-mono byte_time a b [] h e = tt
EndsBy-mono byte_time a b (r ∷ rs) h e = (omega (arith, e.0), EndsBy-mono byte_time a b rs h e.1)

pub drain-Remembers :
    (rs : List RxByte) (m : Master) (event : MasterEvent)
    → Remembers m (drain rs m event).0
      × EndsBy (byte_us m) (drain rs m event).0.last_activity rs
      × ((rs ≡ []) ⊎ ((drain rs m event).0.has_last_activity ≡ true))
unfolding drain
drain-Remembers [] m event = (ground arith, tt, inl refl)
drain-Remembers (r ∷ rs) m event =
    let (m', event') = on_byte r m event in
    let (first, end, has) = on_byte-Remembers r m event in
    let (rest, ends, _) = drain-Remembers rs m' event' in
    let rate : byte_us m' ≡ byte_us m = ap (λ b. 10000000 / b) first.rate_eq in
    (
      Remembers-trans first rest,
      (
        omega (arith, end, rest.known_le),
        subst (λ u. EndsBy u (drain rs m' event').0.last_activity rs) rate ends,
      ),
      inr (ground (arith, has, rest.still_known)),
    )

pub expire-Remembers :
    (now_us : ℕ) (m : Master) (event : MasterEvent) → Remembers m (expire now_us m event).0
unfolding expire
expire-Remembers now_us m event = ground arith
