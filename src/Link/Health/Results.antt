-- ===== src/Link/Health/Results.antt =====
-- link/health.cpp, on_result and tick: what an outcome or the passing of time makes of the tracker.
use omgp.Base.{ℕ, zero, suc, ◌+◌, Bool, false, not, ◌&&◌, ◌||◌, leb, ◌==◌, if◌then◌else◌, modify}
use omgp.Base.Words.{u8}
use omgp.Protocol.{addr_backplane_min, trunk_bit_rate, trunk_bit_rate_fallback}
use omgp.Link.Types.{addr_count}
use omgp.Link.Health.Records.{elapsed_us, expire_record, count_enrolled}
use omgp.Link.Health.Tracker.{
  HealthTracker, is_node_addr, has_bit, set_bit, clear_bit, outcome_window_us, record_at,
  notify_all, apply_result, evaluate_declare, clear_fault,
}

-- The last probe of the node went out at the reference rate.
abbrev pub at_reference : ℕ → HealthTracker → Bool
at_reference addr t = not (has_bit t.bus.probe_fallback addr)

abbrev pub is_answerer : ℕ → Bool → HealthTracker → Bool
is_answerer addr ok t = ok && has_bit t.bus.fallback_seen addr

abbrev pub fallback_answer : ℕ → Bool → HealthTracker → Bool
fallback_answer addr ok t =
    t.bus.fault && (ok && (not (at_reference addr t) && not (is_answerer addr ok t)))

-- `at_reference != (bus_.bit_rate == TRUNK_bit_rate)`.
abbrev pub off_rate : ℕ → HealthTracker → Bool
off_rate addr t =
    let in_use = t.bus.bit_rate == trunk_bit_rate in
    if at_reference addr t then not in_use else in_use

abbrev pub late_stranded_probe : ℕ → ℕ → HealthTracker → Bool
late_stranded_probe addr now_us t =
    not t.bus.fault
    && (has_bit t.bus.probe_live addr
        && (has_bit t.bus.probe_across_clear addr
            && (leb (elapsed_us now_us (record_at t addr).probe_issued_us) outcome_window_us
                && off_rate addr t)))

unfoldable pub outcome_in : ℕ → HealthTracker → HealthTracker
outcome_in addr t = record t {
  bus = record (t.bus) { probe_live = clear_bit t.bus.probe_live addr };
}

-- An answer at the fallback rate: it counts only once the nodes have been tried at the reference rate.
unfoldable pub note_fallback_answer : ℕ → HealthTracker → HealthTracker
note_fallback_answer addr t =
    let bus = record (t.bus) {
      fallback_answerer = addr;
      fallback_seen = set_bit t.bus.fallback_seen addr;
    } in
    if t.bus.ref_pass_left == 0
    then record t {
      bus = record bus {
        ref_pass_left = count_enrolled t.records;
        pass_addr = 0;
        pass_next_addr = addr_backplane_min;
      };
    }
    else record t { bus = bus }

-- What the outcome says of its node; `t0` is the tracker that the outcome found.
unfoldable pub judge : ℕ → Bool → ℕ → HealthTracker → HealthTracker
judge addr ok now_us t0 =
    let t = outcome_in addr t0 in
    if is_answerer addr ok t0 || late_stranded_probe addr now_us t0
    then t
    else if fallback_answer addr ok t0
    then note_fallback_answer addr t
    else apply_result addr ok now_us t

-- `--ref_pass_left` on a uint8_t.
abbrev pub dec8 : ℕ → ℕ
dec8 n = u8 (n + 255)

-- The outcome of the node that the pass waits for, and whether it ends the pass.
unfoldable pub step_pass : ℕ → HealthTracker → Bool × HealthTracker
step_pass addr t =
    if t.bus.pass_addr == addr
    then (
      dec8 t.bus.ref_pass_left == 0,
      record t { bus = record (t.bus) { pass_addr = 0; ref_pass_left = dec8 t.bus.ref_pass_left } },
    )
    else (false, t)

-- `proves_reference` is an answer at the reference rate.
unfoldable pub resolve : Bool → Bool → ℕ → HealthTracker → HealthTracker
resolve proves_reference pass_ended now_us t =
    if t.bus.fault && proves_reference
    then clear_fault trunk_bit_rate now_us t
    else if pass_ended
    then clear_fault trunk_bit_rate_fallback now_us t
    else t

unfoldable pub on_result : ℕ → Bool → ℕ → HealthTracker → HealthTracker
on_result addr ok now_us t0 =
    if not (is_node_addr addr)
    then t0
    else (let t1 = judge addr ok now_us t0 in
        let (pass_ended, t2) = step_pass addr t1 in
        let proves_reference = ok && (at_reference addr t0 && not (is_answerer addr ok t0)) in
        evaluate_declare now_us (resolve proves_reference pass_ended now_us t2))

-- The loop of tick() over `n` records, from that of `addr` on.
unfoldable pub expire_from : ℕ → ℕ → ℕ → HealthTracker → HealthTracker
expire_from zero addr now_us t = t
expire_from (suc n) addr now_us t =
    let (r, ns) = expire_record now_us (record_at t addr) in
    expire_from n (addr + 1) now_us
      (notify_all ns addr (record t { records = modify addr (λ _. r) t.records }))

unfoldable pub tick : ℕ → HealthTracker → HealthTracker
tick now_us t = evaluate_declare now_us (expire_from addr_count 0 now_us t)
