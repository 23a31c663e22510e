-- ===== src/Core/Schedule.antt =====
-- core/core_engine.cpp: the plan of a superframe. One call of run_superframe() makes at most one request;
-- what is left of the plan waits for the next call.
use omgp.Base.{
  ℕ, zero, suc, ◌+◌, ◌-◌, ◌%◌, Bool, true, false, not, ◌&&◌, ◌||◌, [], Option, none, some, ◌==◌,
  if◌then◌else◌,
}
use omgp.Base.Words.{u8, inc32}
use omgp.Protocol.{
  addr_host, addr_module_min, addr_backplane_min, addr_backplane_max, poll_us, max_nodes,
}
use omgp.Link.Master.{MasterEvent, no_event, poll, set_bit_rate}
use omgp.Link.Health.Results.{tick}
use omgp.Link.Health.Probes.{poll_due, mark_polled, next_probe}
use omgp.L3.Payload.Bounds.{op_ping, op_get_status, op_bp_slot_map}
use omgp.Core.Types.{DescChunkItem}
use omgp.Core.Ring.{pop}
use omgp.Core.Engine.{
  CoreEngine, poll_phase, demand_phase, probe_phase, closed, status_poll, slot_map, probe, no_chunk,
  node_index, backplane_index, node_at, backplane_at, with_health,
}
use omgp.Core.Descriptors.{is_reading}
use omgp.Core.Slots.{id_pool}
use omgp.Core.Requests.{
  begin_request, begin_desc_chunk, admits, Resume, nothing, issued, refused, goes_on,
  resume_desc_read, scan_identify, retry_stalled_desc,
}
use omgp.Core.Answers.{complete_request}

unfoldable pub open_superframe : ℕ → CoreEngine → CoreEngine
open_superframe now_us c0 =
    let c = record c0 {
      superframe = inc32 c0.superframe;
      superframe_open = true;
      phase = poll_phase;
      poll_cursor = addr_backplane_min;
      probe_issued = false;
      demand_issued = false;
      budget = record { period_us = poll_us; remaining_us = poll_us };
    } in
    with_health (tick now_us c.health) c

abbrev pub is_odd : ℕ → Bool
is_odd n = n % 2 == 1

abbrev pub enrolled_at : Option ℕ → CoreEngine → Bool
enrolled_at none c = false
enrolled_at (some idx) c = (backplane_at c idx).enrolled

-- The poll of one backplane, if it is enrolled and due: odd superframes ask for the slot map, even ones
-- for the status.
unfoldable pub poll_one : ℕ → ℕ → CoreEngine → Bool × CoreEngine
poll_one addr now_us c =
    let marked = with_health (mark_polled addr now_us c.health) c in
    if not (enrolled_at (backplane_index addr) c) || not (poll_due addr now_us c.health)
    then (false, c)
    else if is_odd c.superframe
    then begin_request addr addr op_bp_slot_map [] slot_map now_us marked
    else begin_request addr addr op_get_status [] status_poll now_us marked

-- The loop of the poll phase over `n` addresses from the cursor on.
unfoldable pub poll_from : ℕ → ℕ → CoreEngine → Bool × CoreEngine
poll_from zero now_us c = (false, record c { phase = demand_phase })
poll_from (suc n) now_us c =
    let addr = c.poll_cursor in
    let (begun, c1) = poll_one addr now_us (record c { poll_cursor = u8 (addr + 1) }) in
    let rest = poll_from n now_us c1 in if begun then (true, c1) else rest

-- A chunk that is not to be asked for any more is passed over.
abbrev pub is_wanted : ℕ → CoreEngine → Bool
is_wanted node_id c = elim (node_index node_id) [
  | none ↦ false
  | some idx ↦
      (node_at c idx).in_use
      && (is_reading (node_at c idx).discovery && (node_at c idx).desc_stalled_superframe == 0)
]

-- The chunk that is held, or else the next of the queue; it is held then.
unfoldable pub hold_chunk : CoreEngine → Option DescChunkItem × CoreEngine
hold_chunk c =
    let (got, ring, item) = pop c.desc_queue no_chunk in
    elim c.desc_hold [
      | some held ↦ (some held, c)
      | none ↦
          if got
          then (some item, record c { desc_hold = some item; desc_queue = ring })
          else (none, c)
    ]

abbrev pub admits_id : ℕ → CoreEngine → Bool
admits_id node_id c = elim (node_index node_id) [ none ↦ false | some idx ↦ admits idx c ]

-- A held chunk that is wanted.
unfoldable pub issue_chunk : DescChunkItem → ℕ → CoreEngine → Resume × CoreEngine
issue_chunk item now_us c =
    let (begun, c1) = begin_desc_chunk item.node_id item.offset now_us c in
    if not (admits_id item.node_id c)
    then (refused, c)
    else if begun
    then (issued, record c1 { desc_hold = none })
    else (refused, c1)

-- A round of the loop over the chunks: whether it goes on, and with what result it ends if not.
unfoldable pub chunk_round : ℕ → CoreEngine → Bool × Resume × CoreEngine
chunk_round now_us c =
    let (held, c1) = hold_chunk c in
    elim held [
      | none ↦ (false, nothing, c1)
      | some item ↦
          if not (is_wanted item.node_id c1)
          then (true, nothing, record c1 { desc_hold = none })
          else (let (r, c2) = issue_chunk item now_us c1 in (false, r, c2))
    ]

-- The loop over the chunks in at most `n` rounds: a round that goes on takes one chunk away.
unfoldable pub issue_chunks : ℕ → ℕ → CoreEngine → Resume × CoreEngine
issue_chunks zero now_us c = (nothing, c)
issue_chunks (suc n) now_us c =
    let (again, r, c1) = chunk_round now_us c in
    let rest = issue_chunks n now_us c1 in if again then rest else (r, c1)

unfoldable pub resume_one : ℕ → ℕ → CoreEngine → Resume × CoreEngine
resume_one idx now_us c =
    let node = node_at c idx in
    if not node.in_use
      || (not (is_reading node.discovery) || not (node.desc_stalled_superframe == 0))
    then (nothing, c)
    else resume_desc_read (addr_module_min + idx) idx now_us c

-- The loop over the nodes that read without a chunk of theirs in the queue, `n` from index `idx` on.
unfoldable pub resume_from : ℕ → ℕ → ℕ → CoreEngine → Resume × CoreEngine
resume_from zero idx now_us c = (nothing, c)
resume_from (suc n) idx now_us c =
    let (r, c1) = resume_one idx now_us c in
    let rest = resume_from n (idx + 1) now_us c1 in if goes_on r then rest else (r, c1)

-- The second where the first has nothing to do.
abbrev pub then_try : (CoreEngine → Resume × CoreEngine) → Resume × CoreEngine → Resume × CoreEngine
then_try f (nothing, c) = f c
then_try f (r, c) = (r, c)

abbrev pub is_issued : Resume → Bool
is_issued issued = true
is_issued _ = false

-- The two passes alternate with the superframes.
unfoldable pub issue_passes : ℕ → CoreEngine → Resume × CoreEngine
issue_passes now_us c =
    if is_odd c.superframe
    then then_try (scan_identify now_us) (retry_stalled_desc now_us c)
    else then_try (retry_stalled_desc now_us) (scan_identify now_us c)

unfoldable pub issue_demand : ℕ → CoreEngine → Bool × CoreEngine
issue_demand now_us c =
    let (r, c1) =
      then_try (issue_passes now_us)
        (then_try (resume_from id_pool 0 now_us) (issue_chunks (max_nodes + 2) now_us c)) in
    if c.health.bus.fault then (false, c) else (is_issued r, c1)

abbrev pub at_rate : ℕ → CoreEngine → CoreEngine
at_rate bit_rate c =
    if bit_rate == c.wire_rate
    then c
    else record c { master = set_bit_rate bit_rate c.master; wire_rate = bit_rate }

unfoldable pub issue_probe : ℕ → CoreEngine → Bool × CoreEngine
issue_probe now_us c0 =
    let c = record c0 { probe_issued = true } in
    let (h, p) = next_probe now_us c.health in
    let c1 = with_health h c in
    if c0.probe_issued
    then (false, c0)
    else if p.addr == addr_host
    then (false, c1)
    else begin_request p.addr p.addr op_ping [] probe now_us (at_rate p.bit_rate c1)

-- The phases in turn, each from where the plan stands.
unfoldable pub issue_in_probe : ℕ → Bool × CoreEngine → Bool × CoreEngine
issue_in_probe now_us (true, c) = (true, c)
issue_in_probe now_us (false, c) = elim c.phase [
  | probe_phase ↦ issue_probe now_us (record c { phase = closed })
  | _ ↦ (false, c)
]

unfoldable pub issue_in_demand : ℕ → Bool × CoreEngine → Bool × CoreEngine
issue_in_demand now_us (true, c) = (true, c)
issue_in_demand now_us (false, c) = elim c.phase [
  | demand_phase ↦
      let (begun, c1) = issue_demand now_us c in
      if begun then (true, c1) else (false, record c1 { phase = probe_phase })
  | _ ↦ (false, c)
]

unfoldable pub issue_in_poll : ℕ → CoreEngine → Bool × CoreEngine
issue_in_poll now_us c = elim c.phase [
  | poll_phase ↦ poll_from (addr_backplane_max + 1 - c.poll_cursor) now_us c
  | _ ↦ (false, c)
]

unfoldable pub issue_next : ℕ → CoreEngine → Bool × CoreEngine
issue_next now_us c = issue_in_probe now_us (issue_in_demand now_us (issue_in_poll now_us c))

abbrev pub is_event : MasterEvent → Bool
is_event no_event = false
is_event _ = true

unfoldable pub run_superframe : ℕ → CoreEngine → CoreEngine
run_superframe now_us c0 =
    let (m, ev) = poll now_us c0.master in
    let polled = record c0 { master = m } in
    let c = if is_event ev then complete_request ev now_us polled else polled in
    let opened = if c.superframe_open then c else open_superframe now_us c in
    let (begun, planned) = issue_next now_us opened in
    if c.master.is_open
    then c
    else if begun
    then planned
    else record planned { superframe_open = false; phase = closed }
