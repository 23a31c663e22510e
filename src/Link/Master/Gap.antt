-- ===== src/Link/Master/Gap.antt =====
-- When link/master.cpp transmits: T_gap behind the last activity it knows of, within a bound.
use omgp.Base.{
  ℕ, ◌+◌, ◌*◌, ◌/◌, ◌≤◌, ◌≡◌, ◌≢◌, ◌⊎◌, inl, inr, sym, ◌∙◌, ap, true, false, List, [], ◌∷◌, arith,
  All, Bytes, ◌<◌,
}
use omgp.Protocol.{gap_us}
use omgp.Link.Types.{ok}
use omgp.Link.Master.Invariant.{begin_cases}
use omgp.Link.Wire.{RxByte}
use omgp.Link.Master.{
  Master, no_event, awaiting, byte_us, max_frame_us, want_us, do_transmit, drain_wire, expire,
  fire_pending, poll, opened, begin,
}
use omgp.Link.Master.Memory.{
  SameOrigin, Remembers, Remembers-trans, EndsBy, EndsBy-mono, drain-Remembers, expire-Remembers,
}

-- A transmission waits for T_gap behind the last activity, or for its cap.
abbrev GapKept : ℕ → Master → Type 0
GapKept now_us m =
    (m.has_last_activity ≡ false)
    ⊎ (m.last_activity + gap_us ≤ now_us)
    ⊎ (m.defer_origin_us + max_frame_us m + gap_us ≤ now_us)

-- The poll did not transmit, and the wait goes on; or it did, by the gap rule.
fire_pending-GapKept :
    (now_us : ℕ) (m : Master)
    → (((fire_pending now_us m).attempt_count ≡ m.attempt_count)
        × (awaiting (fire_pending now_us m) ≡ awaiting m)
        × ((fire_pending now_us m).is_open ≡ m.is_open)
        × ((fire_pending now_us m).defer_origin_us ≡ m.defer_origin_us))
      ⊎ (((fire_pending now_us m).attempt_count ≢ m.attempt_count)
          × GapKept now_us m
          × (m.is_open ≡ true)
          × (awaiting m ≡ false))
unfolding fire_pending want_us do_transmit
fire_pending-GapKept now_us m = ground arith

-- What the gap rule demands of a transmission at `now_us`: the bytes that were due had ended T_gap
-- ago, and so had all activity before them.
abbrev pub GapBehind : ℕ → Master → Type 0
GapBehind now_us m =
    All (λ r. r.start_us + byte_us m + gap_us ≤ now_us) m.wire.rx
    × ((m.has_last_activity ≡ false) ⊎ (m.last_activity + gap_us ≤ now_us))

ends_behind :
    (byte_time last now_us : ℕ) (rs : List RxByte)
    → last + gap_us ≤ now_us
    → EndsBy byte_time last rs
    → All (λ r. r.start_us + byte_time + gap_us ≤ now_us) rs
ends_behind byte_time last now_us [] h e = tt
ends_behind byte_time last now_us (r ∷ rs) h e =
    (omega (arith, e.0), ends_behind byte_time last now_us rs h e.1)

behind_activity :
    (t : ℕ) (m m2 : Master)
    → Remembers m m2
    → EndsBy (byte_us m) m2.last_activity m.wire.rx
    → (m.wire.rx ≡ []) ⊎ (m2.has_last_activity ≡ true)
    → (m2.has_last_activity ≡ false) ⊎ (m2.last_activity + gap_us ≤ t)
    → GapBehind t m
behind_activity t m m2 q ends has (inl silent) = elim has [
  | inl none_due ↦ (rw none_due tt, ground (arith, q.still_known))
  | inr heard ↦ cc
]
behind_activity t m m2 q ends has (inr late) = (
  ends_behind (byte_us m) m2.last_activity t m.wire.rx late ends,
  inr (omega (arith, q.known_le)),
)

behind :
    (now_us : ℕ) (m m2 : Master)
    → Remembers m m2
    → EndsBy (byte_us m) m2.last_activity m.wire.rx
    → (m.wire.rx ≡ []) ⊎ (m2.has_last_activity ≡ true)
    → GapKept now_us m2
    → GapBehind now_us m ⊎ (m2.defer_origin_us + max_frame_us m + gap_us ≤ now_us)
unfolding max_frame_us
behind now_us m m2 q ends has (inl silent) =
    inl (behind_activity now_us m m2 q ends has (inl silent))
behind now_us m m2 q ends has (inr (inl late)) =
    inl (behind_activity now_us m m2 q ends has (inr late))
behind now_us m m2 q ends has (inr (inr capped)) =
    inr (omega (arith, ap (λ b. 142 * (10000000 / b)) q.rate_eq))

drain_wire-Remembers :
    (m : Master)
    → let m1 = (drain_wire m no_event).0 in
      Remembers m m1
      × EndsBy (byte_us m) m1.last_activity m.wire.rx
      × ((m.wire.rx ≡ []) ⊎ (m1.has_last_activity ≡ true))
unfolding drain_wire
drain_wire-Remembers m =
    let emptied = record m { wire = record (m.wire) { rx = [] } } in
    let (q, ends, has) = drain-Remembers m.wire.rx emptied no_event in
    let start : Remembers m emptied = ground arith in (Remembers-trans start q, ends, has)

poll-Remembers :
    (now_us : ℕ) (m : Master)
    → let m2 = (expire now_us (drain_wire m no_event).0 (drain_wire m no_event).1).0 in
      Remembers m m2
      × EndsBy (byte_us m) m2.last_activity m.wire.rx
      × ((m.wire.rx ≡ []) ⊎ (m2.has_last_activity ≡ true))
poll-Remembers now_us m =
    let (q, ends, has) = drain_wire-Remembers m in
    let (m1, event) = drain_wire m no_event in
    let late = expire-Remembers now_us m1 event in
    (
      Remembers-trans q late,
      EndsBy-mono (byte_us m) m1.last_activity (expire now_us m1 event).0.last_activity m.wire.rx
          late.known_le ends,
      ground (arith, has, late.still_known),
    )

-- The transmission has been put off by a worst-case frame and T_gap: since the instant that the engine
-- keeps for it, where it was pending before; or, where this poll ended the attempt before it, since T_gap
-- behind the activity known then.
abbrev pub PutOff : ℕ → Master → Type 0
PutOff now_us m =
    ((awaiting m ≡ false) × (m.defer_origin_us + max_frame_us m + gap_us ≤ now_us))
    ⊎ ((awaiting m ≡ true) × (m.last_activity + gap_us + max_frame_us m + gap_us ≤ now_us))

put_off :
    (now_us : ℕ) (m m2 : Master)
    → SameOrigin m m2
    → m2.is_open ≡ true
    → awaiting m2 ≡ false
    → m2.defer_origin_us + max_frame_us m + gap_us ≤ now_us
    → PutOff now_us m
put_off now_us m m2 (inl (a, _, _, e)) o w late = inl (a, omega arith)
put_off now_us m m2 (inr (inl (_, b))) o w late = ground (arith, b, w)
put_off now_us m m2 (inr (inr (a, _, k))) o w late = inr (a, ground (arith, k, o, late))

still_origin :
    (m m2 m3 : Master)
    → SameOrigin m m2
    → awaiting m3 ≡ awaiting m2
    → m3.is_open ≡ m2.is_open
    → m3.defer_origin_us ≡ m2.defer_origin_us
    → SameOrigin m m3
still_origin m m2 m3 k a o e = rw a (rw o (rw e k))

-- A call of poll(), or of begin() with its node and its payload.
pub data Action : Type 0 where
  polling : Action
  beginning : ℕ → Bytes → Action

abbrev pub GapRule : Action → ℕ → Master → Type 0
GapRule polling now_us m =
    (((poll now_us m).0.attempt_count ≡ m.attempt_count) × SameOrigin m (poll now_us m).0)
    ⊎ (((poll now_us m).0.attempt_count ≢ m.attempt_count) × (GapBehind now_us m ⊎ PutOff now_us m))
GapRule (beginning dst payload) now_us m =
    let m' = (begin dst payload now_us m).0 in
    ((m' ≡ m) × ((begin dst payload now_us m).1 ≢ ok))
    ⊎ ((m'.attempt_count ≡ 1) × GapBehind now_us m)
    ⊎ ((m'.attempt_count ≡ 0)
        × (m'.is_open ≡ true)
        × (awaiting m' ≡ false)
        × (now_us < m'.defer_origin_us)
        × GapBehind m'.defer_origin_us m)

poll-GapRule : (now_us : ℕ) (m : Master) → GapRule polling now_us m
unfolding poll
poll-GapRule now_us m =
    let m2 = (expire now_us (drain_wire m no_event).0 (drain_wire m no_event).1).0 in
    let (q, ends, has) = poll-Remembers now_us m in
    elim (fire_pending-GapKept now_us m2) [
      | inl (same, a, o, e) ↦
          inl (same ∙ q.attempts_eq, still_origin m m2 (fire_pending now_us m2) q.origin a o e)
      | inr (sent, kept, o, a) ↦ inr (
        λ e. sent (e ∙ sym q.attempts_eq),
        elim (behind now_us m m2 q ends has kept) [
          | inl gap ↦ inl gap
          | inr late ↦ inr (put_off now_us m m2 q.origin o a late)
        ],
      )
    ]

-- The transmission of a transaction that has just been opened.
fire_pending-opened :
    (dst : ℕ) (payload : Bytes) (now_us : ℕ) (m : Master)
    → let m' = fire_pending now_us (opened dst payload now_us m) in
      ((m'.attempt_count ≡ 1)
        × ((m.has_last_activity ≡ false) ⊎ (m.last_activity + gap_us ≤ now_us)))
      ⊎ ((m'.attempt_count ≡ 0)
          × (m'.is_open ≡ true)
          × (awaiting m' ≡ false)
          × (now_us < m'.defer_origin_us)
          × (m.last_activity + gap_us ≤ m'.defer_origin_us))
unfolding fire_pending opened want_us do_transmit
fire_pending-opened dst payload now_us m = ground arith

begin-GapRule :
    (dst : ℕ) (payload : Bytes) (now_us : ℕ) (m : Master) → GapRule (beginning dst payload) now_us m
begin-GapRule dst payload now_us m = elim (begin_cases dst payload now_us m) [
  | inl refused ↦ inl refused
  | inr (e, _, _, _) ↦
      let (q, ends, has) = drain_wire-Remembers m in
      let m1 = (drain_wire m no_event).0 in
      rw e (elim (fire_pending-opened dst payload now_us m1) [
        | inl (sent, free) ↦ inr (inl (sent, behind_activity now_us m m1 q ends has free))
        | inr (waits, o, a, later, free) ↦
            inr (inr (waits, o, a, later, behind_activity _ m m1 q ends has (inr free)))
      ])
]

-- The gap rule. Where a poll transmits, every byte that was due, and all activity known before, had
-- ended at least T_gap earlier; unless the transmission has been put off by a worst-case frame and
-- T_gap. For one that was pending before the poll, that is since the instant that the engine keeps for
-- it; for a retry of an attempt that this very poll ended, it is since T_gap behind the activity known
-- before the poll. A poll that does not transmit keeps that instant for a transmission that was pending,
-- and sets it no earlier than T_gap behind the activity known before where it ends an attempt. An
-- accepted begin() transmits at once only T_gap behind all that was due and known; or it leaves the
-- transmission pending, and the instant kept for it is a later one that is T_gap behind all that.
pub act-GapRule : (action : Action) (now_us : ℕ) (m : Master) → GapRule action now_us m
act-GapRule polling now_us m = poll-GapRule now_us m
act-GapRule (beginning dst payload) now_us m = begin-GapRule dst payload now_us m
