-- ===== src/Link/Health/Rotation.antt =====
-- link/health.cpp, next_probe: the rotation over the backplanes.
use omgp.Base.{
  ℕ, zero, suc, ◌+◌, ◌-◌, ◌≤◌, ◌<◌, ◌≡◌, ◌≢◌, ◌⊎◌, inl, inr, refl, sym, ap, ap₂, ◌∙◌, subst, true,
  false, List, [], ◌∷◌, arith, ltb, ◌==◌, if◌then◌else◌, length, Bool-cases,
}
use mathlib.Core.Bool.{false≢true}
use mathlib.Core.List.{Memᴰ}
use omgp.Link.Health.Records.{HealthRecord, no_record}
use omgp.Link.Health.Tracker.{
  HealthTracker, Probe, record_at, note_wire_rate, note_probe, backplane_count,
}
use omgp.Link.Health.Probes.{
  is_probed, next_backplane_addr, probe_scan, give_up_waiting, alternate, next_probe,
}
use omgp.Link.Health.Invariant.{IsBackplane}
use omgp.Link.Health.Evolves.{get_or-modify}

-- How many backplanes the rotation asks after `from` before it comes to `addr`.
abbrev distance : ℕ → ℕ → ℕ
distance from addr = if ltb from addr then addr - from - 1 else addr + backplane_count - from - 1

-- From `t` to `t'` neither the state of a node nor the verdict on the bus changes.
record Unmoved (t t' : HealthTracker) : Type 0 where
  states : (addr : ℕ) → (record_at t' addr).state ≡ (record_at t addr).state
  fault : t'.bus.fault ≡ t.bus.fault

Unmoved-trans : {a b c : HealthTracker} → Unmoved a b → Unmoved b c → Unmoved a c
Unmoved-trans p q = record {
  states = λ addr. q.states addr ∙ p.states addr;
  fault = q.fault ∙ p.fault;
}

note_probe-Unmoved :
    (addr rate now_us : ℕ) (t : HealthTracker) → Unmoved t (note_probe addr rate now_us t)
unfolding note_probe
note_probe-Unmoved addr rate now_us t =
    let probed : HealthRecord → HealthRecord = λ r. record r { probe_issued_us = now_us } in
    record {
      states = λ x. elim (get_or-modify addr x probed t.records no_record) [
        | inl e ↦ rw e refl
        | inr (q, e) ↦ rw e refl
      ];
      fault = refl;
    }

note_wire_rate-Unmoved : (rate : ℕ) (t : HealthTracker) → Unmoved t (note_wire_rate rate t)
unfolding note_wire_rate
note_wire_rate-Unmoved rate t = elim (Bool-cases (rate == t.bus.wire_rate)) [
  | inl e ↦ rw (note_wire_rate, e) (record { states = λ _. refl; fault = refl })
  | inr e ↦ rw (note_wire_rate, e) (record { states = λ _. refl; fault = refl })
]

note_probe-next :
    (addr rate now_us : ℕ) (t : HealthTracker)
    → (note_probe addr rate now_us t).next_probe_addr ≡ t.next_probe_addr
unfolding note_probe
note_probe-next addr rate now_us t = refl

note_wire_rate-next :
    (rate : ℕ) (t : HealthTracker) → (note_wire_rate rate t).next_probe_addr ≡ t.next_probe_addr
unfolding note_wire_rate
note_wire_rate-next rate t = ground arith

-- What a scan that starts behind `from` comes to: `addr` itself, or a backplane that is nearer to it.
abbrev Nearer : ℕ → ℕ → HealthTracker → HealthTracker × Probe → Type 0
Nearer from addr t (t', p) =
    Unmoved t t'
    × (IsBackplane p.addr
        × ((p.addr ≡ addr)
            ⊎ ((t'.next_probe_addr ≡ p.addr) × (distance p.addr addr < distance from addr))))

nearer :
    (from addr : ℕ)
    → IsBackplane from
    → IsBackplane addr
    → IsBackplane (next_backplane_addr from)
      × ((next_backplane_addr from ≡ addr)
          ⊎ (distance (next_backplane_addr from) addr + 1 ≡ distance from addr))
nearer from addr a b = ground arith

not_probed :
    (x addr : ℕ) (t : HealthTracker)
    → is_probed t.bus.fault (record_at t x).state ≡ false
    → is_probed t.bus.fault (record_at t addr).state ≡ true
    → x ≢ addr
not_probed x addr t e h q =
    false≢true (sym e ∙ ap (λ y. is_probed t.bus.fault (record_at t y).state) q ∙ h)

probe_scan-Nearer :
    (n rate now_us addr : ℕ) (t : HealthTracker)
    → IsBackplane addr
    → IsBackplane t.next_probe_addr
    → is_probed t.bus.fault (record_at t addr).state ≡ true
    → distance t.next_probe_addr addr < n
    → Nearer t.next_probe_addr addr t (probe_scan n rate now_us t)
unfolding probe_scan
probe_scan-Nearer zero rate now_us addr t a b h k = ground arith
probe_scan-Nearer (suc n) rate now_us addr t a b h k =
    let x = next_backplane_addr t.next_probe_addr in
    let t1 : HealthTracker = record t { next_probe_addr = x } in
    let (c, d) = nearer t.next_probe_addr addr b a in
    elim (Bool-cases (is_probed t1.bus.fault (record_at t1 x).state)) [
      | inl e ↦
          let moved : Unmoved t t1 = record { states = λ _. refl; fault = refl } in
          rw (probe_scan, e)
            (
              Unmoved-trans moved (note_probe-Unmoved x rate now_us t1),
              (c, ground (arith, note_probe-next x rate now_us t1)),
            )
      | inr e ↦
          let moved : Unmoved t t1 = record { states = λ _. refl; fault = refl } in
          let other = not_probed x addr t1 e h in
          let (u, (p, q)) = probe_scan-Nearer n rate now_us addr t1 a c h (ground arith) in
          rw (probe_scan, e) (Unmoved-trans moved u, (p, ground arith))
    ]

probed_same :
    (addr : ℕ) (t t' : HealthTracker)
    → Unmoved t t'
    → is_probed t.bus.fault (record_at t addr).state ≡ true
    → is_probed t'.bus.fault (record_at t' addr).state ≡ true
probed_same addr t t' u h = ap₂ is_probed u.fault (u.states addr) ∙ h

-- The addresses that are asked when the program above probes at each of the instants in turn.
abbrev pub probed_addrs : List ℕ → HealthTracker → List ℕ
probed_addrs [] t = []
probed_addrs (now_us ∷ rest) t = let (t', p) = next_probe now_us t in p.addr ∷ probed_addrs rest t'

give_up_waiting-healthy :
    (now_us : ℕ) (t : HealthTracker) → t.bus.fault ≡ false → give_up_waiting now_us t ≡ t
unfolding give_up_waiting
give_up_waiting-healthy now_us t h = rw h refl

next_probe-healthy :
    (now_us : ℕ) (t : HealthTracker)
    → t.bus.fault ≡ false
    → next_probe now_us t
      ≡ probe_scan backplane_count t.bus.bit_rate now_us (note_wire_rate t.bus.bit_rate t)
unfolding next_probe alternate
next_probe-healthy now_us t h = rw (give_up_waiting-healthy now_us t h) (rw h refl)

distance_lt :
    (from addr : ℕ) → IsBackplane from → IsBackplane addr → distance from addr < backplane_count
distance_lt from addr a b = ground arith

next_probe-Nearer :
    (now_us addr : ℕ) (t : HealthTracker)
    → t.bus.fault ≡ false
    → IsBackplane addr
    → IsBackplane t.next_probe_addr
    → is_probed false (record_at t addr).state ≡ true
    → Nearer t.next_probe_addr addr t (next_probe now_us t)
next_probe-Nearer now_us addr t h a b k =
    let t1 : HealthTracker = note_wire_rate t.bus.bit_rate t in
    let u = note_wire_rate-Unmoved t.bus.bit_rate t in
    let e = note_wire_rate-next t.bus.bit_rate t in
    let (m, (p, q)) =
      probe_scan-Nearer backplane_count t.bus.bit_rate now_us addr t1 a (rw e b)
        (probed_same addr t t1 u (rw h k)) (rw e (distance_lt t.next_probe_addr addr b a)) in
    rw (next_probe-healthy now_us t h) (Unmoved-trans u m, (p, ground arith))

reaches :
    (nows : List ℕ) (addr : ℕ) (t : HealthTracker)
    → t.bus.fault ≡ false
    → IsBackplane addr
    → IsBackplane t.next_probe_addr
    → is_probed false (record_at t addr).state ≡ true
    → distance t.next_probe_addr addr < length nows
    → Memᴰ addr (probed_addrs nows t)
reaches [] addr t h a b k d = ground arith
reaches (now_us ∷ nows) addr t h a b k d =
    let (u, (p, q)) = next_probe-Nearer now_us addr t h a b k in
    elim q [
      | inl e ↦ Memᴰ.head (sym e)
      | inr (e, l) ↦
          let t1 = (next_probe now_us t).0 in
          let k1 =
            subst (λ b. is_probed b (record_at t1 addr).state ≡ true) (u.fault ∙ h)
              (probed_same addr t t1 u (rw h k)) in
          Memᴰ.tail (reaches nows addr t1 (u.fault ∙ h) a (rw e p) k1 (ground arith))
    ]

-- On a healthy bus every backplane that polls do not reach, because it is not enrolled or is offline, is
-- probed within as many probes as there are backplanes, whatever the instants and wherever the rotation
-- stands.
pub next_probe_reaches :
    (nows : List ℕ) (addr : ℕ) (t : HealthTracker)
    → t.bus.fault ≡ false
    → IsBackplane addr
    → IsBackplane t.next_probe_addr
    → is_probed false (record_at t addr).state ≡ true
    → backplane_count ≤ length nows
    → Memᴰ addr (probed_addrs nows t)
next_probe_reaches nows addr t h a b k d =
    reaches nows addr t h a b k (omega (arith, d, distance_lt t.next_probe_addr addr b a))
