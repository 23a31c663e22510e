-- ===== src/L3/Payload/Tails.antt =====
-- l3/l3_payload.cpp: the payloads that end with bytes of a length of their own.
use omgp.Base.{
  ℕ, ◌+◌, ◌-◌, ◌*◌, ◌/◌, not, ◌||◌, [], ◌∷◌, ◌++◌, ltb, leb, ◌==◌, if◌then◌else◌, Bytes, length,
  get_or, take, drop,
}
use omgp.Base.Words.{u8}
use omgp.Protocol.{max_l3_payload, max_descriptor_bytes, error_detail_max, bp_slot_map_max_slots}
use omgp.L3.Types.{
  L3Status, ok, truncated, length_mismatch, out_of_range, buffer_too_small, ReadDescResp,
  GetEventResp, OpaquePayload, BpSlotMapResp, ErrorResp,
}
use omgp.L3.Descriptor.{get16, in_codes}
use omgp.L3.Payload.Checks.{put16, valid_event, view_from, error_codes}

abbrev pub read_desc_resp_head : ℕ
read_desc_resp_head = 3

abbrev pub read_desc_tail_max : ℕ
read_desc_tail_max = max_l3_payload - read_desc_resp_head

unfoldable pub encode_read_desc_resp : ReadDescResp → ℕ → L3Status × Bytes
encode_read_desc_resp r cap =
    if leb max_descriptor_bytes r.offset
    then (out_of_range, [])
    else if ltb read_desc_tail_max (length r.bytes)
    then (out_of_range, [])
    else if ltb cap (read_desc_resp_head + length r.bytes)
    then (buffer_too_small, [])
    else (ok, put16 r.offset ++ length r.bytes ∷ r.bytes)

unfoldable pub decode_read_desc_resp : Bytes → ReadDescResp → L3Status × ReadDescResp
decode_read_desc_resp input out =
    let n = get_or input 2 0 in
    let tail = length input - read_desc_resp_head in
    let out' = record out { offset = get16 input 0 } in
    if ltb (length input) read_desc_resp_head
    then (truncated, out)
    else if ltb tail n
    then (truncated, out)
    else if ltb n tail
    then (length_mismatch, out)
    else if leb max_descriptor_bytes out'.offset
    then (out_of_range, out')
    else if ltb read_desc_tail_max n
    then (out_of_range, out')
    else (ok, record out' { bytes = take n (drop read_desc_resp_head input) })

abbrev pub event_head : ℕ
event_head = 2

abbrev pub event_detail_max : ℕ
event_detail_max = max_l3_payload - event_head

unfoldable pub encode_get_event_resp : GetEventResp → ℕ → L3Status × Bytes
encode_get_event_resp r cap =
    if not (valid_event r.event_type)
    then (out_of_range, [])
    else if ltb event_detail_max (length r.detail)
    then (out_of_range, [])
    else if ltb cap (event_head + length r.detail)
    then (buffer_too_small, [])
    else (ok, r.event_type ∷ r.remaining_count ∷ r.detail)

unfoldable pub decode_get_event_resp : Bytes → GetEventResp → L3Status × GetEventResp
decode_get_event_resp input out =
    if ltb (length input) event_head
    then (truncated, out)
    else if ltb event_detail_max (length input - event_head)
    then (out_of_range, out)
    else (
      if valid_event (get_or input 0 0) then ok else out_of_range,
      record {
        event_type = get_or input 0 0;
        remaining_count = get_or input 1 0;
        detail = view_from event_head input;
      },
    )

unfoldable pub encode_opaque : OpaquePayload → ℕ → L3Status × Bytes
encode_opaque r cap =
    if ltb max_l3_payload (length r.bytes)
    then (out_of_range, [])
    else if ltb cap (length r.bytes)
    then (buffer_too_small, [])
    else (ok, r.bytes)

unfoldable pub decode_opaque : Bytes → OpaquePayload → L3Status × OpaquePayload
decode_opaque input out =
    if ltb max_l3_payload (length input)
    then (out_of_range, out)
    else (ok, record { bytes = view_from 0 input })

abbrev pub bp_slot_map_head : ℕ
bp_slot_map_head = 1

abbrev pub bp_slot_map_bitmap_len : ℕ → ℕ
bp_slot_map_bitmap_len slot_count = (slot_count + 7) / 8

unfoldable pub encode_bp_slot_map_resp : BpSlotMapResp → ℕ → L3Status × Bytes
encode_bp_slot_map_resp r cap =
    let bitmap_len = bp_slot_map_bitmap_len r.slot_count in
    if ltb bp_slot_map_max_slots r.slot_count
    then (out_of_range, [])
    else if not (length r.occupied == bitmap_len) || not (length r.changed == bitmap_len)
    then (out_of_range, [])
    else if ltb cap (bp_slot_map_head + 2 * bitmap_len)
    then (buffer_too_small, [])
    else (ok, r.slot_count ∷ r.occupied ++ r.changed)

-- The views are of `bitmap_len` bytes, cut to a uint8_t.
unfoldable pub decode_bp_slot_map_resp : Bytes → BpSlotMapResp → L3Status × BpSlotMapResp
decode_bp_slot_map_resp input out =
    let slot_count = get_or input 0 0 in
    let bitmap_len = bp_slot_map_bitmap_len slot_count in
    let total = bp_slot_map_head + 2 * bitmap_len in
    if ltb (length input) bp_slot_map_head
    then (truncated, out)
    else if ltb bp_slot_map_max_slots slot_count
    then (out_of_range, out)
    else if ltb (length input) total
    then (truncated, out)
    else if ltb total (length input)
    then (length_mismatch, out)
    else (
      ok,
      record {
        slot_count = slot_count;
        occupied = take (u8 bitmap_len) (drop bp_slot_map_head input);
        changed = take (u8 bitmap_len) (drop (bp_slot_map_head + bitmap_len) input);
      },
    )

abbrev pub error_head : ℕ
error_head = 1

unfoldable pub encode_error_resp : ErrorResp → ℕ → L3Status × Bytes
encode_error_resp r cap =
    if not (in_codes error_codes r.code)
    then (out_of_range, [])
    else if ltb error_detail_max (length r.detail)
    then (out_of_range, [])
    else if ltb cap (error_head + length r.detail)
    then (buffer_too_small, [])
    else (ok, r.code ∷ r.detail)

unfoldable pub decode_error_resp : Bytes → ErrorResp → L3Status × ErrorResp
decode_error_resp input out =
    if ltb (length input) error_head
    then (truncated, out)
    else if ltb error_detail_max (length input - error_head)
    then (out_of_range, out)
    else (
      if in_codes error_codes (get_or input 0 0) then ok else out_of_range,
      record { code = get_or input 0 0; detail = view_from error_head input },
    )
