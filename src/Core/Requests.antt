-- ===== src/Core/Requests.antt =====
-- core/core_engine.cpp: what is asked of the nodes.
use omgp.Base.{
  ℕ, zero, suc, ◌+◌, ◌-◌, ◌*◌, ◌%◌, Bool, true, false, not, ◌||◌, [], ◌∷◌, ◌++◌, none, some, ltb,
  leb, ◌==◌, if◌then◌else◌, Bytes, length,
}
use omgp.Base.Words.{u8}
use omgp.Protocol.{max_l3_message, max_l3_payload, addr_module_min, turn_min_us, gap_us}
use omgp.Link.Types.{LinkStatus, max_wire, byte_time_us}
use omgp.Link.Master.{begin}
use omgp.L3.Types.{Header}
use omgp.L3.Header.{encode_header, is_ok}
use omgp.L3.Payload.Fixed.{encode_read_desc_req}
use omgp.L3.Payload.Bounds.{op_identify, op_read_desc}
use omgp.Core.Types.{DiscoveryState, undiscovered, identifying}
use omgp.Core.Engine.{
  CoreEngine, TxKind, identify, read_desc, node_index, node_at, entry_at, with_node,
}
use omgp.Core.Descriptors.{is_reading, find_descriptor, mark_discovered}
use omgp.Core.Slots.{id_pool}

-- kDescChunkMax.
abbrev pub desc_chunk_max : ℕ
desc_chunk_max = u8 (max_l3_payload - 3)

abbrev pub worst_case_transaction_us : ℕ → ℕ
worst_case_transaction_us bit_rate = 2 * (max_wire * byte_time_us bit_rate) + turn_min_us + gap_us

abbrev pub is_accepted : LinkStatus → Bool
is_accepted LinkStatus.ok = true
is_accepted _ = false

unfoldable pub begin_request : ℕ → ℕ → ℕ → Bytes → TxKind → ℕ → CoreEngine → Bool × CoreEngine
begin_request dst node_id opcode payload kind now_us c =
    let header : Header = record {
      opcode = opcode;
      node_id = node_id;
      seq = c.l3_seq;
      flags = 0;
      payload_len = length payload;
    } in
    let (st, bytes) = encode_header header max_l3_message in
    let (m, begun) = begin dst (bytes ++ payload) now_us c.master in
    if not (is_ok st)
    then (false, c)
    else if ltb (max_l3_message - length bytes) (length payload)
    then (false, c)
    else if not (is_accepted begun)
    then (false, record c { master = m })
    else (
      true,
      record c {
        master = m;
        l3_seq = u8 (c.l3_seq + 1);
        tx_kind = kind;
        tx_addr = dst;
        tx_node = node_id;
        tx_issued_us = now_us;
        transcript =
            record { superframe = c.superframe; opcode = opcode; dst = dst; node_id = node_id }
            ∷ c.transcript;
      },
    )

abbrev pub cost_estimate : ℕ → CoreEngine → ℕ
cost_estimate last_measured_us c =
    if not (last_measured_us == 0) then last_measured_us else worst_case_transaction_us c.wire_rate

abbrev pub admit_demand : ℕ → CoreEngine → Bool
admit_demand estimate c = not c.demand_issued || leb estimate c.budget.remaining_us

abbrev pub admits : ℕ → CoreEngine → Bool
admits idx c = admit_demand (cost_estimate (node_at c idx).last_measured_duration_us c) c

unfoldable pub begin_desc_chunk : ℕ → ℕ → ℕ → CoreEngine → Bool × CoreEngine
begin_desc_chunk node_id offset now_us c = elim (node_index node_id) [
  | none ↦ (false, c)
  | some idx ↦
      let (st, payload) =
        encode_read_desc_req (record { offset = offset; max_len = desc_chunk_max })
          max_l3_payload in
      let (begun, c1) =
        begin_request (node_at c idx).backplane_addr node_id op_read_desc payload read_desc now_us
          (record c { tx_offset = offset }) in
      if not (is_ok st)
      then (false, c)
      else if begun
      then (true, record c1 { demand_issued = true })
      else (false, c1)
]

pub data Resume : Type 0 where
  nothing issued refused : Resume

abbrev pub resume_if : Bool × CoreEngine → Resume × CoreEngine
resume_if (begun, c) = (if begun then issued else refused, c)

-- The node at index `idx`, whose id is `node_id`.
unfoldable pub resume_desc_read : ℕ → ℕ → ℕ → CoreEngine → Resume × CoreEngine
resume_desc_read node_id idx now_us c =
    let node = node_at c idx in
    elim (find_descriptor node.module_type node.desc_len node.desc_crc c) [
      | none ↦ (nothing, with_node idx (λ n. record n { discovery = identifying }) c)
      | some at ↦
          if (entry_at c at).complete
          then (nothing, mark_discovered idx node_id at c)
          else if not (admits idx c)
          then (refused, c)
          else resume_if (begin_desc_chunk node_id (entry_at c at).received now_us c)
    ]

abbrev pub is_identified : DiscoveryState → Bool
is_identified undiscovered = false
is_identified identifying = false
is_identified _ = true

-- The loop of scan_identify() over the ids that are `n0` and more behind the cursor, `n` of them.
unfoldable pub scan_identify_from : ℕ → ℕ → ℕ → CoreEngine → Resume × CoreEngine
scan_identify_from zero n0 now_us c = (nothing, c)
scan_identify_from (suc n) n0 now_us c =
    let offset = (c.identify_cursor + n0) % id_pool in
    let node = node_at c offset in
    let rest = scan_identify_from n (n0 + 1) now_us c in
    let (begun, c1) =
      begin_request node.backplane_addr (addr_module_min + offset) op_identify [] identify now_us
        c in
    if not node.in_use || is_identified node.discovery
    then rest
    else if not (admits offset c)
    then (refused, c)
    else if begun
    then (
      issued,
      record (with_node offset (λ n. record n { discovery = identifying }) c1) {
        identify_cursor = u8 ((offset + 1) % id_pool);
        demand_issued = true;
      },
    )
    else (refused, c1)

abbrev pub scan_identify : ℕ → CoreEngine → Resume × CoreEngine
scan_identify now_us c = scan_identify_from id_pool 0 now_us c

abbrev pub advance_retry : ℕ → Resume × CoreEngine → Resume × CoreEngine
advance_retry offset (issued, c) =
    (issued, record c { desc_retry_cursor = u8 ((offset + 1) % id_pool) })
advance_retry offset (r, c) = (r, c)

-- A round of the loop of retry_stalled_desc().
unfoldable pub retry_one : ℕ → ℕ → CoreEngine → Resume × CoreEngine
retry_one offset now_us c =
    let node = node_at c offset in
    if not node.in_use
      || (not (is_reading node.discovery)
          || (node.desc_stalled_superframe == 0 || node.desc_stalled_superframe == c.superframe))
    then (nothing, c)
    else advance_retry offset (resume_desc_read (addr_module_min + offset) offset now_us c)

abbrev pub goes_on : Resume → Bool
goes_on nothing = true
goes_on _ = false

-- The loop of retry_stalled_desc() over the ids that are `n0` and more behind the cursor, `n` of them.
unfoldable pub retry_stalled_from : ℕ → ℕ → ℕ → CoreEngine → Resume × CoreEngine
retry_stalled_from zero n0 now_us c = (nothing, c)
retry_stalled_from (suc n) n0 now_us c =
    let (r, c1) = retry_one ((c.desc_retry_cursor + n0) % id_pool) now_us c in
    let rest = retry_stalled_from n (n0 + 1) now_us c1 in if goes_on r then rest else (r, c1)

abbrev pub retry_stalled_desc : ℕ → CoreEngine → Resume × CoreEngine
retry_stalled_desc now_us c = retry_stalled_from id_pool 0 now_us c
