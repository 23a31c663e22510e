-- ===== src/Core/Kept/Superframe.antt =====
-- core/core_engine.cpp: run_superframe(), and the tables of the assignment.
use omgp.Base.{
  take, length, min, ℕ, ◌+◌, ◌-◌, inl, inr, refl, Bool, true, false, Option, none, some, arith,
  Bytes, Bool-cases, Option-cases, if◌then◌else◌,
}
use omgp.Base.Words.{u16}
use omgp.L3.Payload.Bounds.{op_read_desc}
use omgp.L3.Header.{is_ok}
use omgp.Core.Engine.{
  CoreEngine, TxKind, identify, read_desc, node_index, backplane_index, node_at, entry_at,
  with_health,
}
use omgp.Core.Descriptors.{find_descriptor}
use omgp.Core.Slots.Moves.{with_backplane-IsUnmoved}
use omgp.Core.Schedule.{open_superframe, issue_next}
use omgp.Core.Kept.Asked.{
  with_health-IsUnmoved, open_superframe-IsUnmoved, Still, Still-IsUnmoved, Still-trans, here,
  outside, still,
}
use omgp.L3.Payload.Bounds.{op_bp_slot_map}
use omgp.Core.Engine.{closed, status_poll, slot_map, probe}
use omgp.Link.Types.{FrameFields}
use omgp.Link.Master.{MasterEvent, no_event, answered, failed, poll}
use omgp.Link.Health.Results.{on_result}
use omgp.L3.Payload.Tails.{decode_read_desc_resp, decode_bp_slot_map_resp}
use omgp.L3.Payload.Bounds.{op_bp_slot_map}
use omgp.Core.Slots.Assigned.{IsAssigned, IsUnmoved-IsAssigned}
use omgp.Core.Slots.Preserved.{reconcile_slot_map-IsAssigned}
use omgp.Core.Kept.Planned.{issue_next-Still}
use omgp.Core.Engine.{no_request}
use omgp.Core.Answers.{
  message_of, on_slot_map, stalled, store_chunk, progressed, after_chunk, append_chunk, read_chunk,
  no_chunk_read, on_desc_chunk, elapsed, measure_backplane, measure_node, handle_answer,
  handle_failure, is_answered, dispatch, is_open, complete_request, no_slots,
}
use omgp.Core.Schedule.{run_superframe, is_event}
use omgp.Core.Kept.Answered.{
  queued, given_up, node_changed, on_identify-Still, stalled-Still, finish_read-Still,
}

after_chunk-Still : (idx at n : ℕ) (c : CoreEngine) → Still c (after_chunk idx at n c)
unfolding after_chunk
after_chunk-Still idx at n c = ground (
  arith,
  given_up idx at c,
  queued c.tx_node (entry_at c at).received c,
  finish_read-Still idx at c,
)

store_chunk-Still : (at : ℕ) (bytes : Bytes) (c : CoreEngine) → Still c (store_chunk at bytes c)
unfolding store_chunk
store_chunk-Still at bytes c = outside c _ refl refl

progressed-Still : (idx n : ℕ) (c : CoreEngine) → Still c (progressed idx n c)
unfolding progressed
progressed-Still idx n c =
    let moved =
      node_changed idx (λ node. record node { desc_stalled_superframe = 0 }) c
        (λ n. record { in_use_same = refl; backplane_same = refl; slot_same = refl }) in
    ground (arith, here c, moved)

append_chunk-Still :
    (idx at : ℕ) (bytes : Bytes) (c : CoreEngine) → Still c (append_chunk idx at bytes c)
unfolding append_chunk
append_chunk-Still idx at bytes c =
    let room = u16 ((entry_at c at).len + 0x10000 - (entry_at c at).received) in
    let taken = take (min (length bytes) room) bytes in
    let c1 = store_chunk at taken c in
    let c2 = progressed idx (length taken) c1 in
    ground (
      arith,
      given_up idx at c,
      Still-trans (store_chunk-Still at taken c) (
          Still-trans (progressed-Still idx (length taken) c1)
            (after_chunk-Still idx at (length taken) c2)),
    )

read_chunk-Still : (idx at : ℕ) (f : FrameFields) (c : CoreEngine) → Still c (read_chunk idx at f c)
unfolding read_chunk
read_chunk-Still idx at f c =
    let c1 : CoreEngine = stalled idx c in
    let u = stalled-Still idx c in
    elim (Option-cases (message_of op_read_desc f)) [
      | inl e ↦ rw (read_chunk, e) (Still-trans u (queued c.tx_node c.tx_offset c1))
      | inr (payload, e) ↦
          let resp = (decode_read_desc_resp payload no_chunk_read).1 in
          rw (read_chunk, e)
            (ground (
              arith,
              u,
              Still-trans u (queued c.tx_node (entry_at c at).received c1),
              append_chunk-Still idx at resp.bytes c,
            ))
    ]

on_desc_chunk-Still : (f : FrameFields) (c : CoreEngine) → Still c (on_desc_chunk f c)
unfolding on_desc_chunk
on_desc_chunk-Still f c = elim (Option-cases (node_index c.tx_node)) [
  | inl e ↦ rw (on_desc_chunk, e) (here c)
  | inr (idx, e) ↦
      let node = node_at c idx in
      elim (Option-cases (find_descriptor node.module_type node.desc_len node.desc_crc c)) [
        | inl k ↦ rw (on_desc_chunk, e) (rw k (ground (arith, here c)))
        | inr (at, k) ↦
            rw (on_desc_chunk, e) (rw k (ground (arith, here c, read_chunk-Still idx at f c)))
      ]
]

handle_failure-Still : (kind : TxKind) (c : CoreEngine) → Still c (handle_failure kind c)
unfolding handle_failure
handle_failure-Still no_request c = here c
handle_failure-Still status_poll c = here c
handle_failure-Still slot_map c = here c
handle_failure-Still probe c = here c
handle_failure-Still identify c = here c
handle_failure-Still read_desc c = elim (Option-cases (node_index c.tx_node)) [
  | inl e ↦ rw (handle_failure, e) (here c)
  | inr (idx, e) ↦
      let c1 : CoreEngine = stalled idx c in
      rw (handle_failure, e) (Still-trans (stalled-Still idx c) (queued c.tx_node c.tx_offset c1))
]

Still-IsAssigned : {c c' : CoreEngine} → Still c c' → IsAssigned c → IsAssigned c'
Still-IsAssigned {c} {c'} u v = IsUnmoved-IsAssigned c c' (Still-IsUnmoved u) v

on_slot_map-IsAssigned :
    (f : FrameFields) (c : CoreEngine) → IsAssigned c → IsAssigned (on_slot_map f c)
unfolding on_slot_map
on_slot_map-IsAssigned f c v = elim (Option-cases (message_of op_bp_slot_map f)) [
  | inl e ↦ rw (on_slot_map, e) v
  | inr (payload, e) ↦
      let (st, resp) = decode_bp_slot_map_resp payload no_slots in
      elim (Bool-cases (is_ok st)) [
        | inl k ↦ rw (on_slot_map, e) (rw k (reconcile_slot_map-IsAssigned c.tx_addr resp c v))
        | inr k ↦ rw (on_slot_map, e) (rw k v)
      ]
]

handle_answer-IsAssigned :
    (kind : TxKind) (f : FrameFields) (c : CoreEngine)
    → IsAssigned c
    → IsAssigned (handle_answer kind f c)
unfolding handle_answer
handle_answer-IsAssigned no_request f c v = v
handle_answer-IsAssigned status_poll f c v = v
handle_answer-IsAssigned slot_map f c v = on_slot_map-IsAssigned f c v
handle_answer-IsAssigned probe f c v = v
handle_answer-IsAssigned identify f c v = Still-IsAssigned (on_identify-Still f c) v
handle_answer-IsAssigned read_desc f c v = Still-IsAssigned (on_desc_chunk-Still f c) v

dispatch-IsAssigned :
    (kind : TxKind) (ev : MasterEvent) (c : CoreEngine)
    → IsAssigned c
    → IsAssigned (dispatch kind ev c)
unfolding dispatch
dispatch-IsAssigned kind (answered f) c v = handle_answer-IsAssigned kind f c v
dispatch-IsAssigned kind no_event c v = Still-IsAssigned (handle_failure-Still kind c) v
dispatch-IsAssigned kind (failed r) c v = Still-IsAssigned (handle_failure-Still kind c) v

measure_backplane-Still :
    (o : Option ℕ) (d : ℕ) (c : CoreEngine) → Still c (measure_backplane o d c)
measure_backplane-Still none d c = here c
measure_backplane-Still (some idx) d c =
    still
      (with_backplane-IsUnmoved idx (λ b. record b { last_measured_duration_us = d }) c (λ b. refl))

measure_node-Still : (o : Option ℕ) (d : ℕ) (c : CoreEngine) → Still c (measure_node o d c)
measure_node-Still none d c = here c
measure_node-Still (some idx) d c =
    node_changed idx (λ n. record n { last_measured_duration_us = d }) c
      (λ n. record { in_use_same = refl; backplane_same = refl; slot_same = refl })

complete_request-IsAssigned :
    (ev : MasterEvent) (now_us : ℕ) (c : CoreEngine)
    → IsAssigned c
    → IsAssigned (complete_request ev now_us c)
unfolding complete_request
complete_request-IsAssigned ev now_us c0 v0 =
    let c : CoreEngine = record c0 { tx_kind = no_request } in
    let v = Still-IsAssigned (outside c0 c refl refl) v0 in
    let d = elapsed now_us c.tx_issued_us in
    let debited : CoreEngine = record c {
      budget = record (c.budget) { remaining_us = c.budget.remaining_us - d };
    } in
    let h = on_result c.tx_addr (is_answered ev) now_us c.health in
    let told = with_health h debited in
    let u = Still-trans (outside c debited refl refl) (still (with_health-IsUnmoved h debited)) in
    let bp = measure_backplane (backplane_index c.tx_addr) d told in
    let w = Still-trans u (
      Still-trans (measure_backplane-Still (backplane_index c.tx_addr) d told)
        (measure_node-Still (node_index c.tx_node) d bp)) in
    elim (Bool-cases (is_open c0.tx_kind)) [
      | inr e ↦ rw (complete_request, e) v
      | inl e ↦
          rw (complete_request, e)
            (dispatch-IsAssigned c0.tx_kind ev (measure_node (node_index c.tx_node) d bp)
              (Still-IsAssigned w v))
    ]

either :
    (b : Bool) (x y : CoreEngine) → IsAssigned x → IsAssigned y → IsAssigned (if b then x else y)
either true x y p q = p
either false x y p q = q

-- Every call of run_superframe() keeps the tables of the node ids in agreement, whatever arrives on the
-- wire and in whatever state the plan stands: a slot holds no id, or the id of a node in use whose record
-- names that backplane and that slot; and the id of every node in use is held by the slot that its record
-- names.
pub run_superframe-IsAssigned :
    (now_us : ℕ) (c : CoreEngine) → IsAssigned c → IsAssigned (run_superframe now_us c)
unfolding run_superframe
run_superframe-IsAssigned now_us c0 v0 =
    let (m, ev) = poll now_us c0.master in
    let polled : CoreEngine = record c0 { master = m } in
    let vp : IsAssigned polled = Still-IsAssigned (outside c0 polled refl refl) v0 in
    let c : CoreEngine = if is_event ev then complete_request ev now_us polled else polled in
    let v : IsAssigned c =
      either (is_event ev) _ _ (complete_request-IsAssigned ev now_us polled vp) vp in
    let opened : CoreEngine = if c.superframe_open then c else open_superframe now_us c in
    let vo : IsAssigned opened =
      either c.superframe_open _ _ v
        (Still-IsAssigned (still (open_superframe-IsUnmoved now_us c)) v) in
    let (begun, planned) = issue_next now_us opened in
    let vn = Still-IsAssigned (issue_next-Still now_us opened) vo in
    let shut : CoreEngine = record planned { superframe_open = false; phase = closed } in
    either c.master.is_open _ _ v
      (either begun _ _ vn (Still-IsAssigned (outside planned shut refl refl) vn))
