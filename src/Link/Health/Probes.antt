-- ===== src/Link/Health/Probes.antt =====
-- link/health.hpp and link/health.cpp: which node is asked next, and at which rate.
use omgp.Base.{
  ℕ, zero, suc, ◌+◌, ◌-◌, ◌%◌, Bool, true, false, not, ◌&&◌, ◌||◌, ltb, leb, ◌==◌, if◌then◌else◌,
  modify,
}
use omgp.Base.Words.{u8, inc32}
use omgp.Protocol.{addr_host, addr_backplane_min, trunk_bit_rate, trunk_bit_rate_fallback}
use omgp.Link.Health.Records.{
  HealthState, unenrolled, enrolled, suspect, elapsed_us, is_unenrolled, is_suspect, is_offline,
}
use omgp.Link.Health.Results.{dec8}
use omgp.Link.Health.Tracker.{
  Probe, HealthTracker, is_node_addr, backplane_count, outcome_window_us, suspect_poll_period_us,
  record_at, note_wire_rate, note_probe, clear_fault,
}

pub state : ℕ → HealthTracker → HealthState
state addr t = if not (is_node_addr addr) then unenrolled else (record_at t addr).state

abbrev pub due_in : HealthState → ℕ → ℕ → Bool
due_in enrolled now_us last_poll_us = true
due_in suspect now_us last_poll_us = leb suspect_poll_period_us (elapsed_us now_us last_poll_us)
due_in _ now_us last_poll_us = false

unfoldable pub poll_due : ℕ → ℕ → HealthTracker → Bool
poll_due addr now_us t =
    is_node_addr addr
    && (not t.bus.fault && due_in (record_at t addr).state now_us (record_at t addr).last_poll_us)

unfoldable pub mark_polled : ℕ → ℕ → HealthTracker → HealthTracker
mark_polled addr now_us t =
    if not (is_node_addr addr)
    then t
    else note_probe addr t.bus.bit_rate now_us
        (record t { records = modify addr (λ r. record r { last_poll_us = now_us }) t.records })

abbrev pub next_backplane_addr : ℕ → ℕ
next_backplane_addr addr =
    u8 ((addr + 1 - addr_backplane_min) % u8 backplane_count + addr_backplane_min)

-- The loop of pass_probe(): the next enrolled backplane, in at most `n` steps.
unfoldable pub pass_scan : ℕ → ℕ → HealthTracker → HealthTracker × Probe
pass_scan zero now_us t =
    (note_wire_rate trunk_bit_rate t, record { addr = addr_host; bit_rate = trunk_bit_rate })
pass_scan (suc n) now_us t =
    let addr = t.bus.pass_next_addr in
    let t1 = record t { bus = record (t.bus) { pass_next_addr = next_backplane_addr addr } } in
    let rest = pass_scan n now_us t1 in
    if is_unenrolled (record_at t1 addr).state then rest else (
      note_probe addr trunk_bit_rate now_us (
          note_wire_rate trunk_bit_rate (record t1 { bus = record (t1.bus) { pass_addr = addr } })),
      record { addr = addr; bit_rate = trunk_bit_rate },
    )

unfoldable pub pass_probe : ℕ → HealthTracker → HealthTracker × Probe
pass_probe now_us t =
    if not (t.bus.pass_addr == 0)
    then (
      note_wire_rate trunk_bit_rate t,
      record { addr = t.bus.pass_addr; bit_rate = trunk_bit_rate },
    )
    else pass_scan backplane_count now_us t

abbrev pub is_probed : Bool → HealthState → Bool
is_probed fault s = is_unenrolled s || (is_offline s || (fault && is_suspect s))

-- The loop of next_probe(): the next backplane that polls do not reach, in at most `n` steps.
unfoldable pub probe_scan : ℕ → ℕ → ℕ → HealthTracker → HealthTracker × Probe
probe_scan zero rate now_us t = (t, record { addr = addr_host; bit_rate = rate })
probe_scan (suc n) rate now_us t =
    let addr = next_backplane_addr t.next_probe_addr in
    let t1 = record t { next_probe_addr = addr } in
    let rest = probe_scan n rate now_us t1 in
    if is_probed t1.bus.fault (record_at t1 addr).state
    then (note_probe addr rate now_us t1, record { addr = addr; bit_rate = rate })
    else rest

-- The pass goes on without the outcome that it waits for.
unfoldable pub skip_pass_addr : HealthTracker → HealthTracker
skip_pass_addr t = record t {
  bus = record (t.bus) { pass_addr = 0; ref_pass_left = dec8 t.bus.ref_pass_left };
}

-- A pass does not wait for an outcome for ever.
unfoldable pub give_up_waiting : ℕ → HealthTracker → HealthTracker
give_up_waiting now_us t =
    if t.bus.fault
      && (not (t.bus.pass_addr == 0)
          && ltb outcome_window_us
              (elapsed_us now_us (record_at t t.bus.pass_addr).probe_issued_us))
    then (let t1 = skip_pass_addr t in
        if t1.bus.ref_pass_left == 0 then clear_fault trunk_bit_rate_fallback now_us t1 else t1)
    else t

-- In a fault the rates alternate.
unfoldable pub alternate : HealthTracker → HealthTracker × ℕ
alternate t =
    if t.bus.fault
    then (
      record t { bus = record (t.bus) { next_probe_fallback = not t.bus.next_probe_fallback } },
      if t.bus.next_probe_fallback then trunk_bit_rate_fallback else trunk_bit_rate,
    )
    else (t, t.bus.bit_rate)

unfoldable pub next_probe : ℕ → HealthTracker → HealthTracker × Probe
next_probe now_us t0 =
    let t = give_up_waiting now_us t0 in
    if t.bus.fault && ltb 0 t.bus.ref_pass_left
    then pass_probe now_us t
    else (let (t1, rate) = alternate t in
        probe_scan backplane_count rate now_us (note_wire_rate rate t1))

unfoldable pub set_bit_rate : ℕ → HealthTracker → HealthTracker
set_bit_rate bps t =
    if not (bps == trunk_bit_rate) && not (bps == trunk_bit_rate_fallback)
    then t
    else (let changed = not (bps == t.bus.bit_rate) || not (bps == t.bus.wire_rate) in
        let t1 = record t { bus = record (t.bus) { bit_rate = bps; wire_rate = bps } } in
        if changed
        then record t1 { stats = record (t1.stats) { rate_changes = inc32 t1.stats.rate_changes } }
        else t1)
