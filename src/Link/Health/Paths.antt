-- ===== src/Link/Health/Paths.antt =====
-- The states of the nodes over every call of link/health.cpp, and over any run of calls.
use omgp.Base.{
  ◌&&◌, ℕ, zero, suc, ◌≡◌, ◌⊎◌, inl, inr, refl, ◌∙◌, List, [], ◌∷◌, arith, ltb, ◌==◌, modify,
  Bool-cases,
}
use omgp.Protocol.{trunk_bit_rate, trunk_bit_rate_fallback}
use omgp.Link.Health.Records.{HealthState, HealthRecord, is_unenrolled}
use omgp.Link.Health.Tracker.{
  HealthTracker, record_at, note_wire_rate, clear_fault, backplane_count, is_node_addr,
}
use omgp.Link.Health.Probes.{
  is_probed, next_backplane_addr, mark_polled, pass_scan, pass_probe, probe_scan, skip_pass_addr,
  give_up_waiting, alternate, next_probe, set_bit_rate,
}
use omgp.Link.Health.Runs.{Call, result, ticked, polled, probed, rate_set, call}
use omgp.Link.Health.Transitions.{Changes, Rises, Rises-Changes, Follows, end, Changes-Follows}
use omgp.Link.Health.Evolves.{
  Evolves, Evolves-weaken, Evolves-trans, same_records, modified, note_wire_rate-records,
  note_probe-Evolves, clear_fault-Evolves, on_result-Evolves, tick-Evolves,
}

mark_polled-Evolves :
    (addr now_us : ℕ) (t : HealthTracker) → Evolves Rises t (mark_polled addr now_us t)
unfolding mark_polled
mark_polled-Evolves addr now_us t = elim (Bool-cases (is_node_addr addr)) [
  | inr e ↦ rw (mark_polled, e) (same_records t t refl)
  | inl e ↦
      let polled : HealthRecord → HealthRecord = λ r. record r { last_poll_us = now_us } in
      let t1 : HealthTracker = record t { records = modify addr polled t.records } in
      rw (mark_polled, e)
        (Evolves-trans _ _ _ (modified Rises (λ s. inl refl) addr polled t t1 refl (inl refl))
          (note_probe-Evolves addr t.bus.bit_rate now_us t1))
]

pass_scan-Evolves : (n now_us : ℕ) (t : HealthTracker) → Evolves Rises t (pass_scan n now_us t).0
unfolding pass_scan
pass_scan-Evolves zero now_us t = same_records t _ (note_wire_rate-records trunk_bit_rate t)
pass_scan-Evolves (suc n) now_us t =
    let addr = t.bus.pass_next_addr in
    let t1 : HealthTracker = record t {
      bus = record (t.bus) { pass_next_addr = next_backplane_addr addr };
    } in
    elim (Bool-cases (is_unenrolled (record_at t1 addr).state)) [
      | inl e ↦
          rw (pass_scan, e)
            (Evolves-trans _ _ _ (same_records t t1 refl) (pass_scan-Evolves n now_us t1))
      | inr e ↦
          let t2 : HealthTracker = record t1 { bus = record (t1.bus) { pass_addr = addr } } in
          let t3 = note_wire_rate trunk_bit_rate t2 in
          rw (pass_scan, e)
            (Evolves-trans _ _ _ (same_records t t3 (note_wire_rate-records trunk_bit_rate t2))
              (note_probe-Evolves addr trunk_bit_rate now_us t3))
    ]

pass_probe-Evolves : (now_us : ℕ) (t : HealthTracker) → Evolves Rises t (pass_probe now_us t).0
unfolding pass_probe
pass_probe-Evolves now_us t = elim (Bool-cases (t.bus.pass_addr == 0)) [
  | inl e ↦ rw (pass_probe, e) (pass_scan-Evolves backplane_count now_us t)
  | inr e ↦ rw (pass_probe, e) (same_records t _ (note_wire_rate-records trunk_bit_rate t))
]

probe_scan-Evolves :
    (n rate now_us : ℕ) (t : HealthTracker) → Evolves Rises t (probe_scan n rate now_us t).0
unfolding probe_scan
probe_scan-Evolves zero rate now_us t = same_records t t refl
probe_scan-Evolves (suc n) rate now_us t =
    let addr = next_backplane_addr t.next_probe_addr in
    let t1 : HealthTracker = record t { next_probe_addr = addr } in
    elim (Bool-cases (is_probed t1.bus.fault (record_at t1 addr).state)) [
      | inl e ↦
          rw (probe_scan, e)
            (Evolves-trans _ _ _ (same_records t t1 refl) (note_probe-Evolves addr rate now_us t1))
      | inr e ↦
          rw (probe_scan, e)
            (Evolves-trans _ _ _ (same_records t t1 refl) (probe_scan-Evolves n rate now_us t1))
    ]

skip_pass_addr-records : (t : HealthTracker) → (skip_pass_addr t).records ≡ t.records
unfolding skip_pass_addr
skip_pass_addr-records t = refl

give_up_waiting-cases :
    (now_us : ℕ) (t : HealthTracker)
    → (give_up_waiting now_us t ≡ t)
      ⊎ ((give_up_waiting now_us t ≡ skip_pass_addr t)
          ⊎ (give_up_waiting now_us t
              ≡ clear_fault trunk_bit_rate_fallback now_us (skip_pass_addr t)))
unfolding give_up_waiting
give_up_waiting-cases now_us t = ground arith

give_up_waiting-Evolves :
    (now_us : ℕ) (t : HealthTracker) → Evolves Rises t (give_up_waiting now_us t)
give_up_waiting-Evolves now_us t = elim (give_up_waiting-cases now_us t) [
  | inl e ↦ rw e (same_records t t refl)
  | inr (inl e) ↦ rw e (same_records t _ (skip_pass_addr-records t))
  | inr (inr e) ↦ rw e (
      Evolves-trans _ _ _ (same_records t _ (skip_pass_addr-records t))
        (clear_fault-Evolves trunk_bit_rate_fallback now_us (skip_pass_addr t)))
]

alternate-records : (t : HealthTracker) → (alternate t).0.records ≡ t.records
unfolding alternate
alternate-records t = ground arith

next_probe-Evolves : (now_us : ℕ) (t : HealthTracker) → Evolves Rises t (next_probe now_us t).0
unfolding next_probe
next_probe-Evolves now_us t0 =
    let t = give_up_waiting now_us t0 in
    let (t1, rate) = alternate t in
    let t2 = note_wire_rate rate t1 in
    Evolves-trans _ _ _ (give_up_waiting-Evolves now_us t0)
      (elim (Bool-cases (t.bus.fault && ltb 0 t.bus.ref_pass_left)) [
        | inl e ↦ rw (next_probe, e) (pass_probe-Evolves now_us t)
        | inr e ↦
            rw (next_probe, e)
              (Evolves-trans _ _ _
                (same_records t t2 (note_wire_rate-records rate t1 ∙ alternate-records t))
                (probe_scan-Evolves backplane_count rate now_us t2))
      ])

set_bit_rate-records : (bps : ℕ) (t : HealthTracker) → (set_bit_rate bps t).records ≡ t.records
unfolding set_bit_rate
set_bit_rate-records bps t = ground arith

rising : (t t' : HealthTracker) → Evolves Rises t t' → Evolves Changes t t'
rising t t' e = Evolves-weaken Rises Changes t t' Rises-Changes e

call-Evolves : (c : Call) (t : HealthTracker) → Evolves Changes t (call c t)
call-Evolves (result addr ok now_us) t = on_result-Evolves addr ok now_us t
call-Evolves (ticked now_us) t = tick-Evolves now_us t
call-Evolves (polled addr now_us) t = rising _ _ (mark_polled-Evolves addr now_us t)
call-Evolves (probed now_us) t = rising _ _ (next_probe-Evolves now_us t)
call-Evolves (rate_set bps) t = rising _ _ (same_records t _ (set_bit_rate-records bps t))

-- The state of the node after each of the calls.
abbrev pub states : List Call → HealthTracker → ℕ → List HealthState
states [] t addr = []
states (c ∷ cs) t addr = (record_at (call c t) addr).state ∷ states cs (call c t) addr

-- Whatever calls are made, each of them moves a node along at most one edge of the state machine: an
-- enrolled node becomes suspected, a suspected one is lost or recovers, and an unenrolled or lost node
-- is enrolled. So none goes offline without being suspected by an earlier call, and a node that was
-- once enrolled is never unenrolled again.
pub run-Follows :
    (cs : List Call) (t : HealthTracker) (addr : ℕ)
    → Follows (record_at t addr).state (states cs t addr)
run-Follows [] t addr = end
run-Follows (c ∷ cs) t addr =
    Changes-Follows (record_at t addr).state (record_at (call c t) addr).state
      (states cs (call c t) addr) ((call-Evolves c t).change addr) (run-Follows cs (call c t) addr)
