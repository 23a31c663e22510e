-- ===== src/Core/Answers.antt =====
-- core/core_engine.cpp: what the end of a transaction makes of the engine.
use omgp.Base.{
  ℕ, zero, suc, ◌+◌, ◌-◌, Bool, true, false, not, ◌&&◌, ◌||◌, [], ◌++◌, Option, none, some, ltb,
  leb, ◌==◌, if◌then◌else◌, Bytes, length, take, drop, min,
}
use omgp.Base.Words.{u16}
use omgp.Link.Types.{FrameFields}
use omgp.Link.Master.{MasterEvent, answered}
use omgp.Link.Health.Results.{on_result}
use omgp.L3.Types.{Header, IdentifyResp, ReadDescResp, BpSlotMapResp}
use omgp.L3.Header.{decode_message, is_ok}
use omgp.L3.Tlv.{tlv_model_id}
use omgp.L3.Descriptor.{descriptor_crc}
use omgp.L3.Descriptor.Records.{RecordCursor, RecordView, ModelIdRec, next}
use omgp.L3.Descriptor.Records.Decode.{decode_model_id}
use omgp.L3.Payload.Fixed.{decode_identify_resp}
use omgp.L3.Payload.Tails.{decode_read_desc_resp, decode_bp_slot_map_resp}
use omgp.L3.Payload.Bounds.{op_identify, op_read_desc, op_bp_slot_map}
use omgp.Core.Types.{identifying, reading_descriptor, DescriptorCacheEntry}
use omgp.Core.Ring.{push}
use omgp.Core.Engine.{
  CoreEngine, TxKind, no_request, slot_map, identify, read_desc, node_index, backplane_index,
  node_at, entry_at, with_node, with_backplane, with_entry, with_health,
}
use omgp.Core.Descriptors.{find_descriptor, claim_descriptor, mark_discovered, attach_descriptor}
use omgp.Core.Slots.{reconcile_slot_map}

abbrev pub no_header : Header
no_header = record { opcode = 0; node_id = 0; seq = 0; flags = 0; payload_len = 0 }

-- A message of the opcode, and its payload; nothing if the frame's payload is none.
abbrev pub message_of : ℕ → FrameFields → Option Bytes
message_of opcode f =
    let (st, hdr, payload) = decode_message f.payload no_header [] in
    if is_ok st && hdr.opcode == opcode then some payload else none

abbrev pub no_slots : BpSlotMapResp
no_slots = record { slot_count = 0; occupied = []; changed = [] }

unfoldable pub on_slot_map : FrameFields → CoreEngine → CoreEngine
on_slot_map f c = elim (message_of op_bp_slot_map f) [
  | none ↦ c
  | some payload ↦
      let (st, resp) = decode_bp_slot_map_resp payload no_slots in
      if is_ok st then reconcile_slot_map c.tx_addr resp c else c
]

-- Whether the chunk found room, and the engine with it in the queue.
abbrev pub queue_chunk : ℕ → ℕ → CoreEngine → Bool × CoreEngine
queue_chunk node_id offset c =
    let (taken, ring) = push (record { node_id = node_id; offset = offset }) c.desc_queue in
    (taken, record c { desc_queue = ring })

abbrev pub to_identifying : ℕ → CoreEngine → CoreEngine
to_identifying idx c = with_node idx (λ n. record n { discovery = identifying }) c

abbrev pub drop_entry : ℕ → CoreEngine → CoreEngine
drop_entry at c = with_entry at (λ e. record e { in_use = false }) c

-- The reader of entry `at` starts over.
abbrev pub give_up : ℕ → ℕ → CoreEngine → CoreEngine
give_up idx at c = to_identifying idx (drop_entry at c)

-- The node at `idx` leads the read of a descriptor that no entry holds.
unfoldable pub start_read : ℕ → IdentifyResp → CoreEngine → CoreEngine
start_read idx resp c =
    let (c1, claimed) = claim_descriptor resp.module_type resp.desc_len resp.desc_crc c in
    elim claimed [
      | none ↦ to_identifying idx c1
      | some at ↦
          let (taken, c2) = queue_chunk c1.tx_node 0 c1 in
          if resp.desc_len == 0
          then attach_descriptor at (with_entry at (λ e. record e { complete = true }) c1)
          else if taken
          then c2
          else give_up idx at c1
    ]

unfoldable pub identified : ℕ → IdentifyResp → CoreEngine → CoreEngine
identified idx resp c0 =
    let learned =
      with_node idx
        (λ n. record n {
          module_type = resp.module_type;
          desc_len = resp.desc_len;
          desc_crc = resp.desc_crc;
        })
        c0 in
    let reading =
      with_node idx (λ n. record n { discovery = reading_descriptor; desc_stalled_superframe = 0 })
        learned in
    elim (find_descriptor resp.module_type resp.desc_len resp.desc_crc learned) [
      | none ↦ start_read idx resp reading
      | some at ↦
          if (entry_at learned at).complete
          then mark_discovered idx learned.tx_node at learned
          else reading
    ]

abbrev pub no_identity : IdentifyResp
no_identity = record { major = 0; minor = 0; module_type = 0; desc_len = 0; desc_crc = 0 }

unfoldable pub on_identify : FrameFields → CoreEngine → CoreEngine
on_identify f c = elim (node_index c.tx_node) [
  | none ↦ c
  | some idx ↦ if not (node_at c idx).in_use then c else elim (message_of op_identify f) [
    | none ↦ c
    | some payload ↦
        let (st, resp) = decode_identify_resp payload no_identity in
        if is_ok st then identified idx resp c else c
  ]
]

abbrev pub stalled : ℕ → CoreEngine → CoreEngine
stalled idx c = with_node idx (λ n. record n { desc_stalled_superframe = c.superframe }) c

abbrev pub write_at : ℕ → Bytes → Bytes → Bytes
write_at pos bytes blob = take pos blob ++ bytes ++ drop (pos + length bytes) blob

abbrev pub no_model : ModelIdRec
no_model = record { vendor_model = 0; hw_rev = 0; fw_rev = 0 }

abbrev pub no_view : RecordView
no_view = record { type = 0; value = []; offset = 0 }

abbrev pub with_model : RecordView → DescriptorCacheEntry → DescriptorCacheEntry
with_model view e =
    let (st, model) = decode_model_id view no_model in
    if is_ok st
    then record e {
      model_vendor = model.vendor_model;
      model_hw_rev = model.hw_rev;
      model_fw_rev = model.fw_rev;
    }
    else e

-- The loop that looks for the model's record, in at most `n` rounds; a round takes two bytes or more.
unfoldable pub learn_model : ℕ → RecordCursor → DescriptorCacheEntry → DescriptorCacheEntry
learn_model zero cursor e = e
learn_model (suc n) cursor e =
    let (st, cursor', view) = next cursor no_view in
    let rest = learn_model n cursor' e in
    if leb (length cursor.blob) cursor.pos || not (is_ok st)
    then e
    else if view.type == tlv_model_id
    then with_model view e
    else rest

-- All bytes are there.
unfoldable pub finish_read : ℕ → ℕ → CoreEngine → CoreEngine
finish_read idx at c =
    let e = entry_at c at in
    let blob = take e.len e.blob in
    if not (descriptor_crc blob == e.desc_crc)
    then give_up idx at c
    else attach_descriptor at (
        with_entry at
          (λ e. record (learn_model (length blob) (record { blob = blob; pos = 0 }) e) {
            complete = true;
          })
          c)

-- The bytes are copied behind those that are there.
unfoldable pub store_chunk : ℕ → Bytes → CoreEngine → CoreEngine
store_chunk at bytes c =
    with_entry at
      (λ e. record e {
        blob = write_at e.received bytes e.blob;
        received = u16 (e.received + length bytes);
      })
      c

-- The reader made progress by `n` bytes.
unfoldable pub progressed : ℕ → ℕ → CoreEngine → CoreEngine
progressed idx n c =
    if n == 0 then c else with_node idx (λ node. record node { desc_stalled_superframe = 0 }) c

-- The next chunk is asked for, or the descriptor is whole.
unfoldable pub after_chunk : ℕ → ℕ → ℕ → CoreEngine → CoreEngine
after_chunk idx at n c =
    let (taken, c1) = queue_chunk c.tx_node (entry_at c at).received c in
    if ltb (entry_at c at).received (entry_at c at).len
    then (if n == 0 then give_up idx at c else if taken then c1 else give_up idx at c)
    else finish_read idx at c

unfoldable pub append_chunk : ℕ → ℕ → Bytes → CoreEngine → CoreEngine
append_chunk idx at bytes c =
    let room = u16 ((entry_at c at).len + 0x10000 - (entry_at c at).received) in
    let taken = take (min (length bytes) room) bytes in
    if ltb room (length bytes)
    then give_up idx at c
    else after_chunk idx at (length taken) (progressed idx (length taken) (store_chunk at taken c))

abbrev pub no_chunk_read : ReadDescResp
no_chunk_read = record { offset = 0; bytes = [] }

unfoldable pub read_chunk : ℕ → ℕ → FrameFields → CoreEngine → CoreEngine
read_chunk idx at f c = elim (message_of op_read_desc f) [
  | none ↦ (queue_chunk c.tx_node c.tx_offset (stalled idx c)).1
  | some payload ↦
      let (st, resp) = decode_read_desc_resp payload no_chunk_read in
      if not (is_ok st)
      then stalled idx c
      else if not (resp.offset == (entry_at c at).received)
      then (queue_chunk c.tx_node (entry_at c at).received (stalled idx c)).1
      else append_chunk idx at resp.bytes c
]

unfoldable pub on_desc_chunk : FrameFields → CoreEngine → CoreEngine
on_desc_chunk f c = elim (node_index c.tx_node) [
  | none ↦ c
  | some idx ↦
      let node = node_at c idx in
      if not node.in_use
      then c
      else elim (find_descriptor node.module_type node.desc_len node.desc_crc c) [
        | none ↦ c
        | some at ↦ if (entry_at c at).complete then c else read_chunk idx at f c
      ]
]

abbrev pub elapsed : ℕ → ℕ → ℕ
elapsed now_us since_us = if leb since_us now_us then now_us - since_us else 0

abbrev pub measure_backplane : Option ℕ → ℕ → CoreEngine → CoreEngine
measure_backplane none duration_us c = c
measure_backplane (some idx) duration_us c =
    with_backplane idx (λ b. record b { last_measured_duration_us = duration_us }) c

abbrev pub measure_node : Option ℕ → ℕ → CoreEngine → CoreEngine
measure_node none duration_us c = c
measure_node (some idx) duration_us c =
    with_node idx (λ n. record n { last_measured_duration_us = duration_us }) c

unfoldable pub handle_answer : TxKind → FrameFields → CoreEngine → CoreEngine
handle_answer slot_map f c = on_slot_map f c
handle_answer identify f c = on_identify f c
handle_answer read_desc f c = on_desc_chunk f c
handle_answer _ f c = c

unfoldable pub handle_failure : TxKind → CoreEngine → CoreEngine
handle_failure read_desc c = elim (node_index c.tx_node) [
  | none ↦ c
  | some idx ↦ (queue_chunk c.tx_node c.tx_offset (stalled idx c)).1
]
handle_failure _ c = c

abbrev pub is_answered : MasterEvent → Bool
is_answered (answered f) = true
is_answered _ = false

unfoldable pub dispatch : TxKind → MasterEvent → CoreEngine → CoreEngine
dispatch kind (answered f) c = handle_answer kind f c
dispatch kind _ c = handle_failure kind c

abbrev pub is_open : TxKind → Bool
is_open no_request = false
is_open _ = true

unfoldable pub complete_request : MasterEvent → ℕ → CoreEngine → CoreEngine
complete_request ev now_us c0 =
    let kind = c0.tx_kind in
    let c = record c0 { tx_kind = no_request } in
    let duration_us = elapsed now_us c.tx_issued_us in
    let debited = record c {
      budget = record (c.budget) { remaining_us = c.budget.remaining_us - duration_us };
    } in
    let told = with_health (on_result c.tx_addr (is_answered ev) now_us c.health) debited in
    if not (is_open kind)
    then c
    else dispatch kind ev (
        measure_node (node_index c.tx_node) duration_us
          (measure_backplane (backplane_index c.tx_addr) duration_us told))
