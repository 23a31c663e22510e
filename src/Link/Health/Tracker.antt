-- ===== src/Link/Health/Tracker.antt =====
-- link/health.hpp and link/health.cpp, class HealthTracker. A mask of addresses is the uint16_t itself.
use omgp.Base.{
  ℕ, zero, suc, ◌+◌, ◌-◌, ◌*◌, ◌^◌, Bool, true, false, not, ◌&&◌, List, [], ◌∷◌, ltb, ◌==◌,
  if◌then◌else◌, bit_and, bit_or, bit_xor, get_or, modify, replicate,
}
use omgp.Base.Words.{u16, inc32}
use omgp.Protocol.{
  addr_host, addr_backplane_min, addr_backplane_max, trunk_bit_rate, trunk_bit_rate_fallback,
  resp_us, poll_us,
}
use omgp.Link.Types.{addr_count, max_wire, byte_time_us, BusStats, no_bus_stats}
use omgp.Link.Health.Records.{
  Notice, bus_fault, alert, bus_recovered, HealthRecord, no_record, elapsed_us, next_record,
  count_enrolled, count_failing,
}

pub record Probe : Type 0 where
  pub addr : ℕ
  pub bit_rate : ℕ

pub record BusState : Type 0 where
  pub bit_rate : ℕ
  pub fault : Bool
  pub next_probe_fallback : Bool
  pub fallback_answerer : ℕ
  pub fallback_seen : ℕ
  pub ref_pass_left : ℕ
  pub pass_addr : ℕ
  pub pass_next_addr : ℕ
  pub wire_rate : ℕ
  pub probe_fallback : ℕ
  pub probe_live : ℕ
  pub probe_across_clear : ℕ

pub record HealthTracker : Type 0 where
  pub records : List HealthRecord
  pub next_probe_addr : ℕ
  pub bus : BusState
  pub stats : BusStats
  pub notices : List (Notice × ℕ)

abbrev pub new_tracker : HealthTracker
new_tracker = record {
  records = replicate addr_count no_record;
  next_probe_addr = addr_backplane_max;
  bus = record {
    bit_rate = trunk_bit_rate;
    fault = false;
    next_probe_fallback = false;
    fallback_answerer = 0;
    fallback_seen = 0;
    ref_pass_left = 0;
    pass_addr = 0;
    pass_next_addr = addr_backplane_min;
    wire_rate = trunk_bit_rate;
    probe_fallback = 0;
    probe_live = 0;
    probe_across_clear = 0;
  };
  stats = no_bus_stats;
  notices = [];
}

abbrev pub is_node_addr : ℕ → Bool
is_node_addr addr = not (addr == addr_host) && ltb addr addr_count

abbrev pub bus_addr : ℕ
bus_addr = 0

abbrev pub backplane_count : ℕ
backplane_count = addr_backplane_max - addr_backplane_min + 1

abbrev pub probe_bit : ℕ → ℕ
probe_bit addr = u16 (2 ^ addr)

abbrev pub has_bit : ℕ → ℕ → Bool
has_bit mask addr = not (bit_and mask (probe_bit addr) == 0)

abbrev pub set_bit : ℕ → ℕ → ℕ
set_bit mask addr = u16 (bit_or mask (probe_bit addr))

-- `mask & ~probe_bit(addr)`, cut to 16 bits.
abbrev pub clear_bit : ℕ → ℕ → ℕ
clear_bit mask addr = u16 (bit_and mask (bit_xor (probe_bit addr) 0xffff))

abbrev pub outcome_window_us : ℕ
outcome_window_us = 2 * max_wire * byte_time_us trunk_bit_rate_fallback + resp_us

abbrev pub all_probe_bits : ℕ
all_probe_bits = u16 (2 ^ addr_count - 1)

abbrev pub suspect_poll_period_us : ℕ
suspect_poll_period_us = 10 * poll_us

abbrev pub record_at : HealthTracker → ℕ → HealthRecord
record_at t addr = get_or t.records addr no_record

unfoldable pub notify : Notice → ℕ → HealthTracker → HealthTracker
notify notice addr t = record t { notices = (notice, addr) ∷ t.notices }

abbrev pub notify_all : List Notice → ℕ → HealthTracker → HealthTracker
notify_all [] addr t = t
notify_all (n ∷ ns) addr t = notify_all ns addr (notify n addr t)

unfoldable pub apply_result : ℕ → Bool → ℕ → HealthTracker → HealthTracker
apply_result addr ok now_us t =
    let (r, ns) = next_record (record_at t addr).state ok now_us (record_at t addr) in
    notify_all ns addr (record t { records = modify addr (λ _. r) t.records })

unfoldable pub note_wire_rate : ℕ → HealthTracker → HealthTracker
note_wire_rate bit_rate t = if bit_rate == t.bus.wire_rate then t else record t {
  bus = record (t.bus) { wire_rate = bit_rate };
  stats = record (t.stats) { rate_changes = inc32 t.stats.rate_changes };
}

unfoldable pub note_probe : ℕ → ℕ → ℕ → HealthTracker → HealthTracker
note_probe addr bit_rate now_us t = record t {
  bus = record (t.bus) {
    probe_fallback =
        if bit_rate == trunk_bit_rate_fallback
        then set_bit t.bus.probe_fallback addr
        else clear_bit t.bus.probe_fallback addr;
    probe_live = set_bit t.bus.probe_live addr;
    probe_across_clear = clear_bit t.bus.probe_across_clear addr;
  };
  records = modify addr (λ r. record r { probe_issued_us = now_us }) t.records;
}

-- The loop of evaluate_declare() over the addresses from `addr` on, `n` of them: an outcome that can
-- no longer come is not waited for.
unfoldable pub drop_stale : ℕ → ℕ → ℕ → List HealthRecord → ℕ → ℕ
drop_stale zero addr now_us records live = live
drop_stale (suc n) addr now_us records live = drop_stale n (addr + 1) now_us records (
    if has_bit live addr
      && ltb outcome_window_us (elapsed_us now_us (get_or records addr no_record).probe_issued_us)
    then clear_bit live addr
    else live)

unfoldable pub declare : ℕ → HealthTracker → HealthTracker
declare now_us t =
    let live = drop_stale backplane_count addr_backplane_min now_us t.records t.bus.probe_live in
    let in_use = if t.bus.bit_rate == trunk_bit_rate_fallback then all_probe_bits else 0 in
    notify alert bus_addr (
      notify bus_fault bus_addr (record t {
        bus = record (t.bus) {
          fault = true;
          next_probe_fallback = true;
          fallback_answerer = 0;
          ref_pass_left = 0;
          pass_addr = 0;
          pass_next_addr = addr_backplane_min;
          probe_live = live;
          probe_fallback =
              u16
                (bit_or (bit_and t.bus.probe_fallback live) (bit_and in_use (bit_xor live 0xffff)));
        };
        stats = record (t.stats) { bus_faults = inc32 t.stats.bus_faults };
      }))

abbrev pub all_fail : List HealthRecord → Bool
all_fail records =
    not (count_enrolled records == 0) && count_failing records == count_enrolled records

unfoldable pub evaluate_declare : ℕ → HealthTracker → HealthTracker
evaluate_declare now_us t =
    if t.bus.fault then t else if all_fail t.records then declare now_us t else t

-- The loop of clear_fault() over the addresses from `addr` on, `n` of them.
unfoldable pub apply_seen : ℕ → ℕ → ℕ → HealthTracker → HealthTracker
apply_seen zero addr now_us t = t
apply_seen (suc n) addr now_us t =
    apply_seen n (addr + 1) now_us
      (if has_bit t.bus.fallback_seen addr then apply_result addr true now_us t else t)

unfoldable pub unfault : ℕ → HealthTracker → HealthTracker
unfault bit_rate t = record t {
  bus = record (t.bus) {
    fault = false;
    bit_rate = bit_rate;
    probe_across_clear = u16 (bit_or t.bus.probe_across_clear t.bus.probe_live);
  };
}

unfoldable pub end_fault : HealthTracker → HealthTracker
end_fault t = notify bus_recovered bus_addr (record t {
  bus = record (t.bus) {
    fallback_seen = 0;
    fallback_answerer = 0;
    ref_pass_left = 0;
    pass_addr = 0;
  };
})

unfoldable pub clear_fault : ℕ → ℕ → HealthTracker → HealthTracker
clear_fault bit_rate now_us t =
    let t1 = note_wire_rate bit_rate (unfault bit_rate t) in
    end_fault (
      if bit_rate == trunk_bit_rate_fallback
      then apply_seen backplane_count addr_backplane_min now_us t1
      else t1)
