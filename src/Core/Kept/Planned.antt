-- ===== src/Core/Kept/Planned.antt =====
-- core/core_engine.cpp: the plan of a superframe, and the tables of the assignment.
use omgp.Base.{
  ℕ, zero, suc, ◌+◌, ◌-◌, ◌≡◌, inl, inr, refl, Bool, true, false, [], none, arith, Bool-cases,
  Option-cases,
}
use omgp.Base.Words.{u8}
use omgp.Link.Master.{set_bit_rate}
use omgp.Protocol.{addr_backplane_max, addr_module_min, max_nodes}
use omgp.Core.Types.{DescChunkItem}
use omgp.Core.Engine.{CoreEngine, with_health}
use omgp.Core.Slots.{id_pool}
use omgp.Core.Requests.{
  begin_desc_chunk, Resume, nothing, issued, refused, scan_identify, retry_stalled_desc,
}
use omgp.Core.Schedule.{
  poll_one, poll_from, hold_chunk, issue_chunk, chunk_round, issue_chunks, resume_one, resume_from,
  then_try, issue_passes, issue_demand, issue_probe, issue_in_poll, issue_in_demand, issue_in_probe,
  issue_next, at_rate, is_odd,
}
use omgp.Core.Kept.Asked.{
  with_health-IsUnmoved, begin_request-IsUnmoved, begin_desc_chunk-tables, Still, Still-trans, here,
  outside, resume_desc_read-Still, scan_identify_from-Still, retry_stalled_from-Still, still,
}
use omgp.Link.Health.Probes.{mark_polled, next_probe}
use omgp.L3.Payload.Bounds.{op_ping, op_get_status, op_bp_slot_map}
use omgp.Core.Engine.{probe_phase, closed, status_poll, slot_map, probe}

resume_one-Still : (idx now_us : ℕ) (c : CoreEngine) → Still c (resume_one idx now_us c).1
unfolding resume_one
resume_one-Still idx now_us c =
    ground (arith, here c, resume_desc_read-Still (addr_module_min + idx) idx now_us c)

resume_from-Still : (n idx now_us : ℕ) (c : CoreEngine) → Still c (resume_from n idx now_us c).1
unfolding resume_from
resume_from-Still zero idx now_us c = here c
resume_from-Still (suc n) idx now_us c =
    let c1 = (resume_one idx now_us c).1 in
    let u = resume_one-Still idx now_us c in
    ground (arith, u, Still-trans u (resume_from-Still n (idx + 1) now_us c1))

hold_chunk-tables :
    (c : CoreEngine)
    → ((hold_chunk c).1.nodes ≡ c.nodes) × ((hold_chunk c).1.backplanes ≡ c.backplanes)
unfolding hold_chunk
hold_chunk-tables c = ground arith

issue_chunk-Still :
    (item : DescChunkItem) (now_us : ℕ) (c : CoreEngine) → Still c (issue_chunk item now_us c).1
unfolding issue_chunk
issue_chunk-Still item now_us c =
    let (n, b) = begin_desc_chunk-tables item.node_id item.offset now_us c in
    let c1 = (begin_desc_chunk item.node_id item.offset now_us c).1 in
    let c2 : CoreEngine = record c1 { desc_hold = none } in
    ground (arith, here c, outside c c1 n b, outside c c2 n b)

chunk_round-Still : (now_us : ℕ) (c : CoreEngine) → Still c (chunk_round now_us c).2
unfolding chunk_round
chunk_round-Still now_us c =
    let (n, b) = hold_chunk-tables c in
    let c1 = (hold_chunk c).1 in
    let u = outside c c1 n b in
    elim (Option-cases (hold_chunk c).0) [
      | inl e ↦ rw (chunk_round, e) u
      | inr (item, e) ↦
          let c2 : CoreEngine = record c1 { desc_hold = none } in
          rw (chunk_round, e)
            (ground (arith, outside c c2 n b, Still-trans u (issue_chunk-Still item now_us c1)))
    ]

issue_chunks-Still : (n now_us : ℕ) (c : CoreEngine) → Still c (issue_chunks n now_us c).1
unfolding issue_chunks
issue_chunks-Still zero now_us c = here c
issue_chunks-Still (suc n) now_us c =
    let c1 = (chunk_round now_us c).2 in
    let u = chunk_round-Still now_us c in
    ground (arith, u, Still-trans u (issue_chunks-Still n now_us c1))

then_try-Still :
    (f : CoreEngine → Resume × CoreEngine) (r : Resume × CoreEngine) (c : CoreEngine)
    → ((x : CoreEngine) → Still x (f x).1)
    → Still c r.1
    → Still c (then_try f r).1
then_try-Still f (nothing, c1) c h u = Still-trans u (h c1)
then_try-Still f (issued, c1) c h u = u
then_try-Still f (refused, c1) c h u = u

issue_passes-Still : (now_us : ℕ) (c : CoreEngine) → Still c (issue_passes now_us c).1
unfolding issue_passes
issue_passes-Still now_us c =
    let scan : (x : CoreEngine) → Still x (scan_identify now_us x).1 =
      λ x. scan_identify_from-Still id_pool 0 now_us x in
    let retry : (x : CoreEngine) → Still x (retry_stalled_desc now_us x).1 =
      λ x. retry_stalled_from-Still id_pool 0 now_us x in
    elim (Bool-cases (is_odd c.superframe)) [
      | inl e ↦ rw (issue_passes, e) (then_try-Still (scan_identify now_us) _ c scan (retry c))
      | inr e ↦ rw (issue_passes, e) (then_try-Still (retry_stalled_desc now_us) _ c retry (scan c))
    ]

issue_demand-Still : (now_us : ℕ) (c : CoreEngine) → Still c (issue_demand now_us c).1
unfolding issue_demand
issue_demand-Still now_us c =
    let chunks = issue_chunks (max_nodes + 2) now_us c in
    let resumed = then_try (resume_from id_pool 0 now_us) chunks in
    let u = then_try-Still (issue_passes now_us) resumed c (issue_passes-Still now_us) (
      then_try-Still (resume_from id_pool 0 now_us) chunks c (resume_from-Still id_pool 0 now_us)
        (issue_chunks-Still (max_nodes + 2) now_us c)) in
    ground (arith, here c, u)

poll_one-Still : (addr now_us : ℕ) (c : CoreEngine) → Still c (poll_one addr now_us c).1
unfolding poll_one
poll_one-Still addr now_us c =
    let h = mark_polled addr now_us c.health in
    let c1 = with_health h c in
    let u = still (with_health-IsUnmoved h c) in
    ground (
      arith,
      here c,
      Still-trans u
          (still (begin_request-IsUnmoved addr addr op_bp_slot_map [] slot_map now_us c1)),
      Still-trans u
          (still (begin_request-IsUnmoved addr addr op_get_status [] status_poll now_us c1)),
    )

poll_from-Still : (n now_us : ℕ) (c : CoreEngine) → Still c (poll_from n now_us c).1
unfolding poll_from
poll_from-Still zero now_us c = outside c _ refl refl
poll_from-Still (suc n) now_us c =
    let c0 : CoreEngine = record c { poll_cursor = u8 (c.poll_cursor + 1) } in
    let c1 = (poll_one c.poll_cursor now_us c0).1 in
    let u = Still-trans (outside c c0 refl refl) (poll_one-Still c.poll_cursor now_us c0) in
    ground (arith, u, Still-trans u (poll_from-Still n now_us c1))

at_rate-Still : (bit_rate : ℕ) (c : CoreEngine) → Still c (at_rate bit_rate c)
at_rate-Still bit_rate c =
    let c1 : CoreEngine = record c {
      master = set_bit_rate bit_rate c.master;
      wire_rate = bit_rate;
    } in
    ground (arith, here c, outside c c1 refl refl)

issue_probe-Still : (now_us : ℕ) (c : CoreEngine) → Still c (issue_probe now_us c).1
unfolding issue_probe
issue_probe-Still now_us c0 =
    let c : CoreEngine = record c0 { probe_issued = true } in
    let (h, p) = next_probe now_us c.health in
    let c1 = with_health h c in
    let u = Still-trans (outside c0 c refl refl) (still (with_health-IsUnmoved h c)) in
    let c2 = at_rate p.bit_rate c1 in
    let w = Still-trans u (
      Still-trans (at_rate-Still p.bit_rate c1)
        (still (begin_request-IsUnmoved p.addr p.addr op_ping [] probe now_us c2))) in
    ground (arith, here c0, u, w)

issue_in_poll-Still : (now_us : ℕ) (c : CoreEngine) → Still c (issue_in_poll now_us c).1
unfolding issue_in_poll
issue_in_poll-Still now_us c =
    ground (arith, here c, poll_from-Still (addr_backplane_max + 1 - c.poll_cursor) now_us c)

issue_in_demand-Still :
    (now_us : ℕ) (c : CoreEngine) (b : Bool) (c1 : CoreEngine)
    → Still c c1
    → Still c (issue_in_demand now_us (b, c1)).1
unfolding issue_in_demand
issue_in_demand-Still now_us c true c1 u = u
issue_in_demand-Still now_us c false c1 u =
    let w = Still-trans u (issue_demand-Still now_us c1) in
    let c2 = (issue_demand now_us c1).1 in
    let c3 : CoreEngine = record c2 { phase = probe_phase } in
    ground (arith, u, w, Still-trans w (outside c2 c3 refl refl))

issue_in_probe-Still :
    (now_us : ℕ) (c : CoreEngine) (b : Bool) (c1 : CoreEngine)
    → Still c c1
    → Still c (issue_in_probe now_us (b, c1)).1
unfolding issue_in_probe
issue_in_probe-Still now_us c true c1 u = u
issue_in_probe-Still now_us c false c1 u =
    let c2 : CoreEngine = record c1 { phase = closed } in
    ground (
      arith,
      u,
      Still-trans u (Still-trans (outside c1 c2 refl refl) (issue_probe-Still now_us c2)),
    )

pub issue_next-Still : (now_us : ℕ) (c : CoreEngine) → Still c (issue_next now_us c).1
unfolding issue_next
issue_next-Still now_us c =
    let (b, c1) = issue_in_poll now_us c in
    let (b2, c2) = issue_in_demand now_us (b, c1) in
    issue_in_probe-Still now_us c b2 c2
      (issue_in_demand-Still now_us c b c1 (issue_in_poll-Still now_us c))
