-- ===== src/Link/Health/Preserved.antt =====
-- Every operation of link/health.cpp keeps the tracker valid.
use omgp.Base.{
  ℕ, zero, suc, ◌+◌, ◌≤◌, ◌<◌, ◌≡◌, ◌≢◌, inl, inr, refl, Bool, true, List, [], ◌∷◌, arith, length,
  modify, Bool-cases,
}
use omgp.Protocol.{trunk_bit_rate, trunk_bit_rate_fallback}
use omgp.Link.Types.{addr_count}
use omgp.Link.Health.Records.{HealthRecord, expire_record, count_enrolled, is_unenrolled}
use omgp.Link.Health.Tracker.{
  HealthTracker, new_tracker, record_at, notify_all, note_wire_rate, is_node_addr, backplane_count,
}
use omgp.Link.Health.Results.{
  outcome_in, note_fallback_answer, judge, step_pass, resolve, on_result, expire_from, tick,
}
use omgp.Link.Health.Probes.{
  mark_polled, pass_scan, pass_probe, probe_scan, skip_pass_addr, give_up_waiting, alternate,
  next_probe, set_bit_rate, next_backplane_addr, is_probed,
}
use omgp.Link.Health.Invariant.{
  IsRate, IsValid, with_record-IsSound, notify_all-IsSound, notify_all-bus, record_at-IsRecord,
  expire_record-IsRecord, apply_result-IsValid, note_wire_rate-IsValid, note_probe-IsValid,
  evaluate_declare-IsValid, clear_fault-IsValid,
}

count_enrolled-le : (rs : List HealthRecord) → count_enrolled rs ≤ length rs
unfolding count_enrolled
count_enrolled-le [] = omega arith
count_enrolled-le (r ∷ rs) = ground (arith, count_enrolled-le rs)

outcome_in-IsValid : (addr : ℕ) (t : HealthTracker) → IsValid t → IsValid (outcome_in addr t)
unfolding outcome_in
outcome_in-IsValid addr t v = ground arith

note_fallback_answer-IsValid :
    (addr : ℕ) (t : HealthTracker)
    → t.bus.fault ≡ true
    → IsValid t
    → IsValid (note_fallback_answer addr t)
unfolding note_fallback_answer
note_fallback_answer-IsValid addr t h v = ground (arith, count_enrolled-le t.records)

judge-IsValid :
    (addr : ℕ) (ok : Bool) (now_us : ℕ) (t : HealthTracker)
    → IsValid t
    → IsValid (judge addr ok now_us t)
unfolding judge outcome_in
judge-IsValid addr ok now_us t v =
    let t1 = outcome_in addr t in
    let v1 = outcome_in-IsValid addr t v in
    ground
      (arith, v1, note_fallback_answer-IsValid addr t1, apply_result-IsValid addr ok now_us t1 v1)

step_pass-IsValid :
    (addr : ℕ) (t : HealthTracker) → addr ≢ 0 → IsValid t → IsValid (step_pass addr t).1
unfolding step_pass
step_pass-IsValid addr t h v = ground arith

resolve-IsValid :
    (proves ended : Bool) (now_us : ℕ) (t : HealthTracker)
    → IsValid t
    → IsValid (resolve proves ended now_us t)
unfolding resolve
resolve-IsValid proves ended now_us t v = ground (
  arith,
  clear_fault-IsValid trunk_bit_rate now_us t (inl refl) v.sound,
  clear_fault-IsValid trunk_bit_rate_fallback now_us t (inr refl) v.sound,
)

-- Every outcome keeps the tracker valid, whoever it is of and whatever it says.
pub on_result-IsValid :
    (addr : ℕ) (ok : Bool) (now_us : ℕ) (t : HealthTracker)
    → IsValid t
    → IsValid (on_result addr ok now_us t)
unfolding on_result
on_result-IsValid addr ok now_us t v = elim (Bool-cases (is_node_addr addr)) [
  | inr e ↦ rw (on_result, e) v
  | inl e ↦
      let v1 = judge-IsValid addr ok now_us t v in
      let v2 = step_pass-IsValid addr (judge addr ok now_us t) (ground arith) v1 in
      rw (on_result, e)
        (evaluate_declare-IsValid now_us _
          (resolve-IsValid _ _ now_us (step_pass addr (judge addr ok now_us t)).1 v2))
]

expire_from-IsValid :
    (n addr now_us : ℕ) (t : HealthTracker) → IsValid t → IsValid (expire_from n addr now_us t)
unfolding expire_from
expire_from-IsValid zero addr now_us t v = v
expire_from-IsValid (suc n) addr now_us t v =
    let (r, ns) = expire_record now_us (record_at t addr) in
    let t1 = record t { records = modify addr (λ _. r) t.records } in
    let q = expire_record-IsRecord now_us (record_at t addr) (record_at-IsRecord addr t v.sound) in
    let s1 = with_record-IsSound addr (λ _. r) t (λ _ _. q) v.sound in
    expire_from-IsValid n (addr + 1) now_us (notify_all ns addr t1) (record {
      sound = notify_all-IsSound ns addr t1 s1;
      pass = rw (notify_all-bus ns addr t1) v.pass;
    })

-- So does the passing of time.
pub tick-IsValid : (now_us : ℕ) (t : HealthTracker) → IsValid t → IsValid (tick now_us t)
unfolding tick
tick-IsValid now_us t v =
    evaluate_declare-IsValid now_us _ (expire_from-IsValid addr_count 0 now_us t v)

pub mark_polled-IsValid :
    (addr now_us : ℕ) (t : HealthTracker) → IsValid t → IsValid (mark_polled addr now_us t)
unfolding mark_polled
mark_polled-IsValid addr now_us t v =
    let polled : HealthRecord → HealthRecord = λ r. record r { last_poll_us = now_us } in
    let t1 = record t { records = modify addr polled t.records } in
    let s1 =
      with_record-IsSound addr polled t
        (λ r h. record { failures_le = h.failures_le; enrolled_lt = h.enrolled_lt }) v.sound in
    let v1 : IsValid t1 = record { sound = s1; pass = v.pass } in
    ground (arith, note_probe-IsValid addr t.bus.bit_rate now_us t1 v1)

-- A pass goes on to the next backplane.
advanced-IsValid :
    (t : HealthTracker)
    → IsValid t
    → IsValid (record t {
      bus = record (t.bus) { pass_next_addr = next_backplane_addr t.bus.pass_next_addr };
    })
advanced-IsValid t v = ground arith

waiting-IsValid :
    (addr : ℕ) (t : HealthTracker)
    → addr < addr_count
    → 0 < t.bus.ref_pass_left
    → IsValid t
    → IsValid (record t { bus = record (t.bus) { pass_addr = addr } })
waiting-IsValid addr t a h v = ground arith

pass_scan-IsValid :
    (n now_us : ℕ) (t : HealthTracker)
    → 0 < t.bus.ref_pass_left
    → IsValid t
    → IsValid (pass_scan n now_us t).0
unfolding pass_scan
pass_scan-IsValid zero now_us t h v = note_wire_rate-IsValid trunk_bit_rate t (inl refl) v
pass_scan-IsValid (suc n) now_us t h v =
    let addr = t.bus.pass_next_addr in
    let t1 : HealthTracker = record t {
      bus = record (t.bus) { pass_next_addr = next_backplane_addr addr };
    } in
    let v1 : IsValid t1 = advanced-IsValid t v in
    elim (Bool-cases (is_unenrolled (record_at t1 addr).state)) [
      | inl e ↦ rw (pass_scan, e) (pass_scan-IsValid n now_us t1 h v1)
      | inr e ↦
          let t2 : HealthTracker = record t1 { bus = record (t1.bus) { pass_addr = addr } } in
          let v2 : IsValid t2 = waiting-IsValid addr t1 (omega (arith, v.sound.pass_next)) h v1 in
          rw (pass_scan, e)
            (note_probe-IsValid addr trunk_bit_rate now_us (note_wire_rate trunk_bit_rate t2)
              (note_wire_rate-IsValid trunk_bit_rate t2 (inl refl) v2))
    ]

pass_probe-IsValid :
    (now_us : ℕ) (t : HealthTracker)
    → 0 < t.bus.ref_pass_left
    → IsValid t
    → IsValid (pass_probe now_us t).0
unfolding pass_probe
pass_probe-IsValid now_us t h v = ground (
  arith,
  note_wire_rate-IsValid trunk_bit_rate t (inl refl) v,
  pass_scan-IsValid backplane_count now_us t h v,
)

rotated-IsValid :
    (t : HealthTracker)
    → IsValid t
    → IsValid (record t { next_probe_addr = next_backplane_addr t.next_probe_addr })
rotated-IsValid t v = ground arith

probe_scan-IsValid :
    (n rate now_us : ℕ) (t : HealthTracker) → IsValid t → IsValid (probe_scan n rate now_us t).0
unfolding probe_scan
probe_scan-IsValid zero rate now_us t v = v
probe_scan-IsValid (suc n) rate now_us t v =
    let addr = next_backplane_addr t.next_probe_addr in
    let t1 : HealthTracker = record t { next_probe_addr = addr } in
    let v1 : IsValid t1 = rotated-IsValid t v in
    elim (Bool-cases (is_probed t1.bus.fault (record_at t1 addr).state)) [
      | inl e ↦ rw (probe_scan, e) (note_probe-IsValid addr rate now_us t1 v1)
      | inr e ↦ rw (probe_scan, e) (probe_scan-IsValid n rate now_us t1 v1)
    ]

skip_pass_addr-IsValid :
    (t : HealthTracker) → t.bus.pass_addr ≢ 0 → IsValid t → IsValid (skip_pass_addr t)
unfolding skip_pass_addr
skip_pass_addr-IsValid t h v = ground arith

give_up_waiting-IsValid :
    (now_us : ℕ) (t : HealthTracker) → IsValid t → IsValid (give_up_waiting now_us t)
unfolding give_up_waiting
give_up_waiting-IsValid now_us t v = ground (
  arith,
  skip_pass_addr-IsValid t,
  clear_fault-IsValid trunk_bit_rate_fallback now_us (skip_pass_addr t) (inr refl),
)

alternate-IsValid :
    (t : HealthTracker) → IsValid t → IsValid (alternate t).0 × IsRate (alternate t).1
unfolding alternate
alternate-IsValid t v = ground arith

pub next_probe-IsValid :
    (now_us : ℕ) (t : HealthTracker) → IsValid t → IsValid (next_probe now_us t).0
unfolding next_probe
next_probe-IsValid now_us t0 v0 =
    let t = give_up_waiting now_us t0 in
    let v = give_up_waiting-IsValid now_us t0 v0 in
    let (t1, rate) = alternate t in
    let (v1, h1) = alternate-IsValid t v in
    let scanned =
      probe_scan-IsValid backplane_count rate now_us (note_wire_rate rate t1)
        (note_wire_rate-IsValid rate t1 h1 v1) in
    ground (arith, scanned, pass_probe-IsValid now_us t)

pub set_bit_rate-IsValid : (bps : ℕ) (t : HealthTracker) → IsValid t → IsValid (set_bit_rate bps t)
unfolding set_bit_rate
set_bit_rate-IsValid bps t v = ground arith

pub new_tracker-IsValid : IsValid new_tracker
new_tracker-IsValid = ground arith
