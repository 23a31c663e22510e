-- ===== src/Link/Health/Invariant.antt =====
-- What holds of the tracker of link/health.cpp between calls.
use omgp.Base.{
  ℕ, zero, suc, ◌+◌, ◌≤◌, ◌<◌, ◌≡◌, ◌≢◌, ◌⊎◌, inl, inr, refl, Bool, true, List, [], ◌∷◌, arith,
  ◌==◌, length, modify, length-modify, modify-All, All, All-get_or, Bool-cases,
}
use omgp.Protocol.{
  addr_backplane_min, addr_backplane_max, suspect_after_failures, trunk_bit_rate,
  trunk_bit_rate_fallback,
}
use omgp.Link.Types.{addr_count}
use omgp.Link.Health.Records.{
  HealthState, unenrolled, enrolled, suspect, offline, Notice, HealthRecord, no_record, next_record,
  expire_record,
}
use omgp.Link.Health.Tracker.{
  BusState, HealthTracker, record_at, notify, notify_all, apply_result, note_wire_rate, note_probe,
  declare, evaluate_declare, apply_seen, unfault, end_fault, clear_fault, has_bit, backplane_count,
}

-- Three failures in a row do not leave a node enrolled.
pub record IsRecord (r : HealthRecord) : Type 0 where
  pub failures_le : r.consecutive_failures ≤ suspect_after_failures
  pub enrolled_lt : (r.state ≢ enrolled) ⊎ (r.consecutive_failures < suspect_after_failures)

abbrev pub IsRate : ℕ → Type 0
IsRate bps = (bps ≡ trunk_bit_rate) ⊎ (bps ≡ trunk_bit_rate_fallback)

abbrev pub IsBackplane : ℕ → Type 0
IsBackplane addr = (addr_backplane_min ≤ addr) × (addr ≤ addr_backplane_max)

pub record IsSound (t : HealthTracker) : Type 0 where
  pub records_length : length t.records ≡ addr_count
  pub records_valid : All IsRecord t.records
  pub bit_rate_valid : IsRate t.bus.bit_rate
  pub wire_rate_valid : IsRate t.bus.wire_rate
  pub pass_le : t.bus.ref_pass_left ≤ addr_count
  pub pass_addr_lt : t.bus.pass_addr < addr_count
  pub pass_next : IsBackplane t.bus.pass_next_addr
  pub probe_next : IsBackplane t.next_probe_addr

-- A pass over the nodes at the reference rate is open only in a fault, and waits for a node only while
-- nodes are left.
pub record IsPass (b : BusState) : Type 0 where
  pub in_fault : (b.fault ≡ true) ⊎ (b.ref_pass_left ≡ 0)
  pub waits : (b.pass_addr ≡ 0) ⊎ (0 < b.ref_pass_left)

pub record IsValid (t : HealthTracker) : Type 0 where
  pub sound : IsSound t
  pub pass : IsPass t.bus

next_record-IsRecord :
    (s : HealthState) (ok : Bool) (now_us : ℕ) (r : HealthRecord)
    → r.state ≡ s
    → IsRecord r
    → IsRecord (next_record s ok now_us r).0
unfolding next_record
next_record-IsRecord unenrolled ok now_us r e v = ground arith
next_record-IsRecord enrolled ok now_us r e v = ground arith
next_record-IsRecord suspect ok now_us r e v = ground arith
next_record-IsRecord offline ok now_us r e v = ground arith

pub expire_record-IsRecord :
    (now_us : ℕ) (r : HealthRecord) → IsRecord r → IsRecord (expire_record now_us r).0
unfolding expire_record
expire_record-IsRecord now_us r v = ground arith

notify-IsSound : (n : Notice) (addr : ℕ) (t : HealthTracker) → IsSound t → IsSound (notify n addr t)
unfolding notify
notify-IsSound n addr t v = ground arith

pub notify_all-IsSound :
    (ns : List Notice) (addr : ℕ) (t : HealthTracker) → IsSound t → IsSound (notify_all ns addr t)
notify_all-IsSound [] addr t v = v
notify_all-IsSound (n ∷ ns) addr t v =
    notify_all-IsSound ns addr (notify n addr t) (notify-IsSound n addr t v)

pub record_at-IsRecord : (addr : ℕ) (t : HealthTracker) → IsSound t → IsRecord (record_at t addr)
record_at-IsRecord addr t v =
    All-get_or IsRecord t.records addr no_record v.records_valid (ground arith)

-- A record of the tracker replaced by a valid one.
pub with_record-IsSound :
    (addr : ℕ) (f : HealthRecord → HealthRecord) (t : HealthTracker)
    → ((r : HealthRecord) → IsRecord r → IsRecord (f r))
    → IsSound t
    → IsSound (record t { records = modify addr f t.records })
with_record-IsSound addr f t keep v =
    let size = length-modify addr f t.records in
    let all = modify-All IsRecord f keep addr t.records v.records_valid in ground arith

pub apply_result-IsSound :
    (addr : ℕ) (ok : Bool) (now_us : ℕ) (t : HealthTracker)
    → IsSound t
    → IsSound (apply_result addr ok now_us t)
unfolding apply_result
apply_result-IsSound addr ok now_us t v =
    let (r, ns) = next_record (record_at t addr).state ok now_us (record_at t addr) in
    let q =
      next_record-IsRecord (record_at t addr).state ok now_us (record_at t addr) refl
        (record_at-IsRecord addr t v) in
    notify_all-IsSound ns addr (record t { records = modify addr (λ _. r) t.records })
      (with_record-IsSound addr (λ _. r) t (λ _ _. q) v)

pub notify_all-bus :
    (ns : List Notice) (addr : ℕ) (t : HealthTracker) → (notify_all ns addr t).bus ≡ t.bus
unfolding notify
notify_all-bus [] addr t = refl
notify_all-bus (n ∷ ns) addr t = notify_all-bus ns addr (notify n addr t)

pub apply_result-bus :
    (addr : ℕ) (ok : Bool) (now_us : ℕ) (t : HealthTracker)
    → (apply_result addr ok now_us t).bus ≡ t.bus
unfolding apply_result
apply_result-bus addr ok now_us t =
    notify_all-bus (next_record (record_at t addr).state ok now_us (record_at t addr)).1 addr _

pub apply_result-IsValid :
    (addr : ℕ) (ok : Bool) (now_us : ℕ) (t : HealthTracker)
    → IsValid t
    → IsValid (apply_result addr ok now_us t)
apply_result-IsValid addr ok now_us t v = record {
  sound = apply_result-IsSound addr ok now_us t v.sound;
  pass = rw (apply_result-bus addr ok now_us t) v.pass;
}

pub note_wire_rate-IsSound :
    (bit_rate : ℕ) (t : HealthTracker)
    → IsRate bit_rate
    → IsSound t
    → IsSound (note_wire_rate bit_rate t)
unfolding note_wire_rate
note_wire_rate-IsSound bit_rate t h v = ground arith

pub note_wire_rate-IsValid :
    (bit_rate : ℕ) (t : HealthTracker)
    → IsRate bit_rate
    → IsValid t
    → IsValid (note_wire_rate bit_rate t)
unfolding note_wire_rate
note_wire_rate-IsValid bit_rate t h v = ground arith

pub note_probe-IsValid :
    (addr bit_rate now_us : ℕ) (t : HealthTracker)
    → IsValid t
    → IsValid (note_probe addr bit_rate now_us t)
unfolding note_probe
note_probe-IsValid addr bit_rate now_us t v =
    let q =
      with_record-IsSound addr (λ r. record r { probe_issued_us = now_us }) t
        (λ r h. record { failures_le = h.failures_le; enrolled_lt = h.enrolled_lt }) v.sound in
    ground arith

pub declare-IsValid : (now_us : ℕ) (t : HealthTracker) → IsValid t → IsValid (declare now_us t)
unfolding declare notify
declare-IsValid now_us t v = record {
  sound = record {
    records_length = v.sound.records_length;
    records_valid = v.sound.records_valid;
    bit_rate_valid = v.sound.bit_rate_valid;
    wire_rate_valid = v.sound.wire_rate_valid;
    pass_le = omega arith;
    pass_addr_lt = omega arith;
    pass_next = omega arith;
    probe_next = v.sound.probe_next;
  };
  pass = record { in_fault = inl refl; waits = inl refl };
}

pub evaluate_declare-IsValid :
    (now_us : ℕ) (t : HealthTracker) → IsValid t → IsValid (evaluate_declare now_us t)
unfolding evaluate_declare
evaluate_declare-IsValid now_us t v = ground (arith, declare-IsValid now_us t v)

apply_seen-IsSound :
    (n addr now_us : ℕ) (t : HealthTracker) → IsSound t → IsSound (apply_seen n addr now_us t)
unfolding apply_seen
apply_seen-IsSound zero addr now_us t v = v
apply_seen-IsSound (suc n) addr now_us t v = elim (Bool-cases (has_bit t.bus.fallback_seen addr)) [
  | inl e ↦
      rw (apply_seen, e)
        (apply_seen-IsSound n (addr + 1) now_us (apply_result addr true now_us t)
          (apply_result-IsSound addr true now_us t v))
  | inr e ↦ rw (apply_seen, e) (apply_seen-IsSound n (addr + 1) now_us t v)
]

unfault-IsSound :
    (bit_rate : ℕ) (t : HealthTracker) → IsRate bit_rate → IsSound t → IsSound (unfault bit_rate t)
unfolding unfault
unfault-IsSound bit_rate t h v = ground arith

end_fault-IsValid : (t : HealthTracker) → IsSound t → IsValid (end_fault t)
unfolding end_fault notify
end_fault-IsValid t v = ground arith

pub clear_fault-IsValid :
    (bit_rate now_us : ℕ) (t : HealthTracker)
    → IsRate bit_rate
    → IsSound t
    → IsValid (clear_fault bit_rate now_us t)
unfolding clear_fault
clear_fault-IsValid bit_rate now_us t h v =
    let t1 = note_wire_rate bit_rate (unfault bit_rate t) in
    let v1 =
      note_wire_rate-IsSound bit_rate (unfault bit_rate t) h (unfault-IsSound bit_rate t h v) in
    elim (Bool-cases (bit_rate == trunk_bit_rate_fallback)) [
      | inl e ↦
          rw (clear_fault, e)
            (end_fault-IsValid (apply_seen backplane_count addr_backplane_min now_us t1)
              (apply_seen-IsSound backplane_count addr_backplane_min now_us t1 v1))
      | inr e ↦ rw (clear_fault, e) (end_fault-IsValid t1 v1)
    ]
