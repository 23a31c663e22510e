-- ===== src/Link/Master/Silence.antt =====
-- A destination that never answers: link/master.cpp gives up on it after a bounded number of polls.
use omgp.Base.{
  ℕ, zero, suc, ◌+◌, ◌-◌, ◌*◌, ◌≤◌, ◌<◌, ◌≡◌, ◌⊎◌, inl, inr, refl, true, false, [], arith,
  if◌then◌else◌,
}
use omgp.Protocol.{retries}
use omgp.Link.Master.Invariant.{IsValid, poll-IsValid}
use omgp.Link.Master.{
  Master, MasterEvent, no_event, answered, failed, timeout, await_response, pending_transmit,
  is_awaiting, byte_us, want_us, do_transmit, end_attempt, frame_arriving, frame_pending_in_window,
  is_overdue, drain, drain_wire, expire, fire_pending, poll,
}

-- Polls, each at the instant that `clock` gives, until one reports an event.
pub poll_until : ℕ → (Master → ℕ) → Master → Master × MasterEvent
poll_until zero clock m = (m, no_event)
poll_until (suc n) clock m =
    let (m', event) = poll (clock m) m in
    elim event [
      | no_event ↦ poll_until n clock m'
      | answered f ↦ (m', answered f)
      | failed why ↦ (m', failed why)
    ]

-- Late enough for whatever the engine is waiting for: the pending transmission is due, the response
-- window is over, and the last byte received is more than a byte time ago.
abbrev pub IsLate : ℕ → Master → Type 0
IsLate now_us m = (want_us m ≤ now_us) × (m.deadline ≤ now_us) × (m.last_rx_us + byte_us m < now_us)

-- What is left of a transaction on a silent wire, in polls.
abbrev rank : Master → ℕ
rank m = 2 * (3 - m.attempt_count) + (if is_awaiting m.sub_phase then 1 else 0)

drain_wire_silent :
    (m : Master) (event : MasterEvent) → m.wire.rx ≡ [] → drain_wire m event ≡ (m, event)
unfolding drain_wire drain
drain_wire_silent m event h = ground arith

-- One late poll on a silent wire.
abbrev Progress : Master → Master × MasterEvent → Type 0
Progress m (m', event) =
    (event ≡ failed timeout)
    ⊎ ((event ≡ no_event) × (m'.is_open ≡ true) × (m'.wire.rx ≡ []) × (rank m' < rank m))

is_overdue_late :
    (now_us : ℕ) (m : Master)
    → IsLate now_us m
    → m.is_open ≡ true
    → m.sub_phase ≡ await_response
    → is_overdue now_us m ≡ true
unfolding is_overdue frame_pending_in_window frame_arriving
is_overdue_late now_us m l o a = ground arith

fire_pending_due :
    (now_us : ℕ) (m : Master)
    → want_us m ≤ now_us
    → m.is_open ≡ true
    → m.sub_phase ≡ pending_transmit
    → m.attempt_count ≤ retries
    → m.wire.rx ≡ []
    → Progress m (fire_pending now_us m, no_event)
unfolding fire_pending do_transmit
fire_pending_due now_us m l o p a r = ground arith

fire_pending_any :
    (now_us : ℕ) (m : Master)
    → m.is_open ≡ true
    → m.attempt_count ≤ retries
    → m.sub_phase ≡ pending_transmit
    → m.wire.rx ≡ []
    → ((fire_pending now_us m).is_open ≡ true)
      × ((fire_pending now_us m).wire.rx ≡ [])
      × (rank (fire_pending now_us m) ≤ rank m)
unfolding fire_pending do_transmit
fire_pending_any now_us m o a p r = ground arith

end_attempt_retry :
    (t : ℕ) (m : Master)
    → m.is_open ≡ true
    → m.sub_phase ≡ await_response
    → m.wire.rx ≡ []
    → m.attempt_count ≤ 1 + retries
    → ((end_attempt t timeout m).1 ≡ failed timeout)
      ⊎ (((end_attempt t timeout m).1 ≡ no_event)
          × ((end_attempt t timeout m).0.is_open ≡ true)
          × ((end_attempt t timeout m).0.attempt_count ≤ retries)
          × ((end_attempt t timeout m).0.sub_phase ≡ pending_transmit)
          × ((end_attempt t timeout m).0.wire.rx ≡ [])
          × (rank (end_attempt t timeout m).0 < rank m))
unfolding end_attempt
end_attempt_retry t m o a r h = ground arith

poll_silent :
    (now_us : ℕ) (m : Master)
    → m.wire.rx ≡ []
    → poll now_us m
      ≡ (fire_pending now_us (expire now_us m no_event).0, (expire now_us m no_event).1)
unfolding poll
poll_silent now_us m r = rw (drain_wire_silent m no_event r)

poll-Progress :
    (now_us : ℕ) (m : Master)
    → IsValid m
    → m.is_open ≡ true
    → m.wire.rx ≡ []
    → IsLate now_us m
    → Progress m (poll now_us m)
unfolding expire
poll-Progress now_us m v o r l = rw (poll_silent now_us m r) (elim v.phase [
  | inl closed ↦ cc
  | inr (inl (a, _, _)) ↦
      rw (is_overdue_late now_us m l o a)
        (elim (end_attempt_retry m.deadline m o a r v.attempts_le) [
          | inl over ↦ inl over
          | inr (e, o', n, p, r', less) ↦
              let (o2, r2, k) =
                fire_pending_any now_us (end_attempt m.deadline timeout m).0 o' n p r' in
              inr (e, o2, r2, omega arith)
        ])
  | inr (inr (p, n)) ↦
      let idle : is_overdue now_us m ≡ false = unfold is_overdue in ground arith in
      rw idle (fire_pending_due now_us m l.0 o p n r)
])

rank_bounds : (m : Master) → IsValid m → m.is_open ≡ true → (1 ≤ rank m) × (rank m ≤ 6)
rank_bounds m v o = elim v.phase [
  | inl closed ↦ cc
  | inr (inl (a, n, _)) ↦ ground (arith, v.attempts_le)
  | inr (inr (p, n)) ↦ ground (arith, v.attempts_le)
]

poll_until-failed :
    (n : ℕ) (clock : Master → ℕ) (m : Master)
    → ((m' : Master) → IsLate (clock m') m')
    → IsValid m
    → m.is_open ≡ true
    → m.wire.rx ≡ []
    → rank m ≤ n
    → (poll_until n clock m).1 ≡ failed timeout
unfolding poll_until
poll_until-failed zero clock m l v o r h = absurd (omega (arith, rank_bounds m v o))
poll_until-failed (suc n) clock m l v o r h = elim (poll-Progress (clock m) m v o r (l m)) [
  | inl e ↦ rw (e, poll_until) refl
  | inr (e, o', r', less) ↦
      rw (e, poll_until)
        (poll_until-failed n clock (poll (clock m) m).0 l (poll-IsValid (clock m) m v) o' r'
          (omega arith))
]

-- No transaction hangs on a silent destination: if no byte arrives and each poll comes late enough
-- for what the engine waits for, then within six polls it reports a timeout.
pub silent_times_out :
    (clock : Master → ℕ) (m : Master)
    → ((m' : Master) → IsLate (clock m') m')
    → IsValid m
    → m.is_open ≡ true
    → m.wire.rx ≡ []
    → (poll_until 6 clock m).1 ≡ failed timeout
silent_times_out clock m l v o r = poll_until-failed 6 clock m l v o r (rank_bounds m v o).1
