-- ===== src/Core/Kept/Asked.antt =====
-- core/core_engine.cpp: the requests, and the tables of the assignment.
use omgp.Base.{
  ℕ, zero, suc, ◌+◌, ◌%◌, ◌≡◌, inl, inr, refl, true, List, [], ◌∷◌, some, arith, Bytes, Bool-cases,
  Option-cases,
}
use omgp.Base.Words.{u8, u32}
use omgp.Protocol.{addr_module_min, max_l3_payload}
use omgp.Link.Health.Records.{Notice}
use omgp.Link.Health.Tracker.{HealthTracker}
use omgp.Link.Health.Results.{tick}
use omgp.L3.Payload.Fixed.{encode_read_desc_req}
use omgp.L3.Payload.Bounds.{op_identify, op_read_desc}
use omgp.Core.Types.{NodeRecord, DescriptorCacheEntry, identifying, discovered}
use omgp.Core.Engine.{
  CoreEngine, TxKind, identify, read_desc, node_index, backplane_index, node_at, entry_at,
  with_node, with_entry, on_notice, heard, with_health, is_enrolment,
}
use omgp.Core.Descriptors.{find_descriptor, mark_discovered}
use omgp.Core.Slots.{id_pool}
use omgp.Core.Slots.Assigned.{IsUnmoved}
use omgp.Core.Slots.Moves.{
  same_tables, IsUnmoved-trans, with_node-IsUnmoved, with_backplane-IsUnmoved,
  enqueue_lifecycle-IsUnmoved,
}
use omgp.Core.Requests.{
  begin_request, begin_desc_chunk, desc_chunk_max, Resume, nothing, issued, refused,
  resume_desc_read, scan_identify_from, retry_one, advance_retry, retry_stalled_from,
}
use omgp.Core.Schedule.{open_superframe}

pub unmoved : (c : CoreEngine) → IsUnmoved c c
unmoved c = same_tables c c refl refl

on_notice-IsUnmoved : (n : Notice) (addr : ℕ) (c : CoreEngine) → IsUnmoved c (on_notice n addr c)
unfolding on_notice
on_notice-IsUnmoved n addr c = elim (Option-cases (backplane_index addr)) [
  | inl e ↦ rw (on_notice, e) (unmoved c)
  | inr (bp, e) ↦ elim (Bool-cases (is_enrolment n)) [
    | inl k ↦
        rw (on_notice, e)
          (rw k (with_backplane-IsUnmoved bp (λ b. record b { enrolled = true }) c (λ b. refl)))
    | inr k ↦ rw (on_notice, e) (rw k (unmoved c))
  ]
]

heard-IsUnmoved : (ns : List (Notice × ℕ)) (c : CoreEngine) → IsUnmoved c (heard ns c)
unfolding heard
heard-IsUnmoved [] c = unmoved c
heard-IsUnmoved ((n, addr) ∷ ns) c =
    IsUnmoved-trans (heard-IsUnmoved ns c) (on_notice-IsUnmoved n addr (heard ns c))

pub with_health-IsUnmoved : (h : HealthTracker) (c : CoreEngine) → IsUnmoved c (with_health h c)
unfolding with_health
with_health-IsUnmoved h c =
    let c1 : CoreEngine = record c { health = record h { notices = [] } } in
    IsUnmoved-trans (same_tables c c1 refl refl) (heard-IsUnmoved h.notices c1)

pub open_superframe-IsUnmoved :
    (now_us : ℕ) (c : CoreEngine) → IsUnmoved c (open_superframe now_us c)
unfolding open_superframe
open_superframe-IsUnmoved now_us c =
    IsUnmoved-trans (same_tables c _ refl refl) (with_health-IsUnmoved (tick now_us c.health) _)

pub begin_request-tables :
    (dst node_id opcode : ℕ) (payload : Bytes) (kind : TxKind) (now_us : ℕ) (c : CoreEngine)
    → ((begin_request dst node_id opcode payload kind now_us c).1.nodes ≡ c.nodes)
      × ((begin_request dst node_id opcode payload kind now_us c).1.backplanes ≡ c.backplanes)
unfolding begin_request
begin_request-tables dst node_id opcode payload kind now_us c = ground arith

pub begin_request-IsUnmoved :
    (dst node_id opcode : ℕ) (payload : Bytes) (kind : TxKind) (now_us : ℕ) (c : CoreEngine)
    → IsUnmoved c (begin_request dst node_id opcode payload kind now_us c).1
begin_request-IsUnmoved dst node_id opcode payload kind now_us c =
    let (n, b) = begin_request-tables dst node_id opcode payload kind now_us c in
    same_tables c _ n b

pub begin_desc_chunk-tables :
    (node_id offset now_us : ℕ) (c : CoreEngine)
    → ((begin_desc_chunk node_id offset now_us c).1.nodes ≡ c.nodes)
      × ((begin_desc_chunk node_id offset now_us c).1.backplanes ≡ c.backplanes)
unfolding begin_desc_chunk
begin_desc_chunk-tables node_id offset now_us c = elim (Option-cases (node_index node_id)) [
  | inl e ↦ rw (begin_desc_chunk, e) (refl, refl)
  | inr (idx, e) ↦
      let payload =
        (encode_read_desc_req (record { offset = offset; max_len = desc_chunk_max })
          max_l3_payload).1 in
      let c0 : CoreEngine = record c { tx_offset = offset } in
      rw (begin_desc_chunk, e)
        (ground (
          arith,
          begin_request-tables (node_at c idx).backplane_addr node_id op_read_desc payload read_desc
              now_us c0,
        ))
]

begin_desc_chunk-IsUnmoved :
    (node_id offset now_us : ℕ) (c : CoreEngine)
    → IsUnmoved c (begin_desc_chunk node_id offset now_us c).1
begin_desc_chunk-IsUnmoved node_id offset now_us c =
    let (n, b) = begin_desc_chunk-tables node_id offset now_us c in same_tables c _ n b

-- The tables of the assignment stay as they are.
pub data Still (c c' : CoreEngine) : Type 0 where
  still : IsUnmoved c c' → Still c c'

pub Still-IsUnmoved : {c c' : CoreEngine} → Still c c' → IsUnmoved c c'
Still-IsUnmoved (still u) = u

pub Still-trans : {a b c : CoreEngine} → Still a b → Still b c → Still a c
Still-trans (still p) (still q) = still (IsUnmoved-trans p q)

pub here : (c : CoreEngine) → Still c c
here c = still (unmoved c)

pub outside : (c c' : CoreEngine) → c'.nodes ≡ c.nodes → c'.backplanes ≡ c.backplanes → Still c c'
outside c c' n b = still (same_tables c c' n b)

pub mark_discovered-IsUnmoved :
    (idx node_id at : ℕ) (c : CoreEngine) → IsUnmoved c (mark_discovered idx node_id at c)
unfolding mark_discovered
mark_discovered-IsUnmoved idx node_id at c =
    let e = entry_at c at in
    let counted : DescriptorCacheEntry → DescriptorCacheEntry =
      λ x. record x { refcount = u32 (x.refcount + 1) } in
    let known : NodeRecord → NodeRecord = λ n. record n {
      descriptor = some at;
      model_vendor = e.model_vendor;
      model_hw_rev = e.model_hw_rev;
      model_fw_rev = e.model_fw_rev;
      discovery = discovered;
      ever_discovered = true;
    } in
    let c1 : CoreEngine = with_entry at counted c in
    IsUnmoved-trans (same_tables c c1 refl refl) (
      IsUnmoved-trans
        (with_node-IsUnmoved idx known c1
          (λ n. record { in_use_same = refl; backplane_same = refl; slot_same = refl }))
        (enqueue_lifecycle-IsUnmoved _ (with_node idx known c1)))

pub renamed :
    (idx : ℕ) (c : CoreEngine)
    → IsUnmoved c (with_node idx (λ n. record n { discovery = identifying }) c)
renamed idx c =
    with_node-IsUnmoved idx (λ n. record n { discovery = identifying }) c
      (λ n. record { in_use_same = refl; backplane_same = refl; slot_same = refl })

pub resume_desc_read-Still :
    (node_id idx now_us : ℕ) (c : CoreEngine) → Still c (resume_desc_read node_id idx now_us c).1
unfolding resume_desc_read
resume_desc_read-Still node_id idx now_us c =
    elim (Option-cases (
      find_descriptor (node_at c idx).module_type (node_at c idx).desc_len (node_at c idx).desc_crc
        c)) [
          | inl e ↦ rw (resume_desc_read, e) (still (renamed idx c))
          | inr (at, e) ↦
              let u = still (mark_discovered-IsUnmoved idx node_id at c) in
              let w =
                still (begin_desc_chunk-IsUnmoved node_id (entry_at c at).received now_us c) in
              rw (resume_desc_read, e) (ground (arith, u, w, here c))
        ]

pub scan_identify_from-Still :
    (n n0 now_us : ℕ) (c : CoreEngine) → Still c (scan_identify_from n n0 now_us c).1
unfolding scan_identify_from
scan_identify_from-Still zero n0 now_us c = here c
scan_identify_from-Still (suc n) n0 now_us c =
    let offset = (c.identify_cursor + n0) % id_pool in
    let c1 =
      (begin_request (node_at c offset).backplane_addr (addr_module_min + offset) op_identify []
        identify now_us c).1 in
    let u =
      begin_request-IsUnmoved (node_at c offset).backplane_addr (addr_module_min + offset)
        op_identify [] identify now_us c in
    let c2 : CoreEngine = record (with_node offset (λ n. record n { discovery = identifying }) c1) {
      identify_cursor = u8 ((offset + 1) % id_pool);
      demand_issued = true;
    } in
    let u2 : IsUnmoved c c2 =
      IsUnmoved-trans u (IsUnmoved-trans (renamed offset c1) (same_tables _ c2 refl refl)) in
    ground (arith, scan_identify_from-Still n (n0 + 1) now_us c, here c, still u, still u2)

advance_retry-Still :
    (offset : ℕ) (r : Resume) (c0 c : CoreEngine)
    → Still c0 c
    → Still c0 (advance_retry offset (r, c)).1
advance_retry-Still offset nothing c0 c u = u
advance_retry-Still offset issued c0 c u = Still-trans u (outside c _ refl refl)
advance_retry-Still offset refused c0 c u = u

retry_one-Still : (offset now_us : ℕ) (c : CoreEngine) → Still c (retry_one offset now_us c).1
unfolding retry_one
retry_one-Still offset now_us c =
    let (r, c1) = resume_desc_read (addr_module_min + offset) offset now_us c in
    ground (
      arith,
      here c,
      advance_retry-Still offset r c c1
          (resume_desc_read-Still (addr_module_min + offset) offset now_us c),
    )

pub retry_stalled_from-Still :
    (n n0 now_us : ℕ) (c : CoreEngine) → Still c (retry_stalled_from n n0 now_us c).1
unfolding retry_stalled_from
retry_stalled_from-Still zero n0 now_us c = here c
retry_stalled_from-Still (suc n) n0 now_us c =
    let offset = (c.desc_retry_cursor + n0) % id_pool in
    let c1 = (retry_one offset now_us c).1 in
    let u = retry_one-Still offset now_us c in
    ground (arith, u, Still-trans u (retry_stalled_from-Still n (n0 + 1) now_us c1))
