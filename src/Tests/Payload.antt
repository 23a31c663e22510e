-- ===== src/Tests/Payload.antt =====
-- l3/l3_payload.cpp: payloads at concrete bytes.
use omgp.Base.{◌≡◌, refl, [], ◌∷◌, false, arith, Bytes}
use omgp.L3.Types.{
  ok, out_of_range, unknown_opcode, ReadDescResp, SetParamReq, BpSlotMapResp, request,
}
use omgp.L3.Descriptor.{get16}
use omgp.L3.Payload.Fixed.{decode_set_param}
use omgp.L3.Payload.Tails.{encode_read_desc_resp, decode_bp_slot_map_resp}
use omgp.L3.Payload.Kinds.{
  set_param, read_desc_resp, bp_slot_map_resp, encode, decode, carrier, Writes,
}
use omgp.L3.Payload.Bounds.{PayloadBounds, payload_bounds, find_payload, only_responds, op_error}
use omgp.L3.Payload.RoundTrip.{decode-encode}
use omgp.L3.Payload.Exact.{encode-decode}
use omgp.L3.Payload.Errors.{capped, Within, encode-capped, decode-Within}

abbrev part : ReadDescResp
part = record { offset = 0x0156; bytes = 7 ∷ 8 ∷ 9 ∷ [] }

abbrev no_part : ReadDescResp
no_part = record { offset = 0; bytes = [] }

abbrev part_bytes : Bytes
part_bytes = 0x56 ∷ 0x01 ∷ 3 ∷ 7 ∷ 8 ∷ 9 ∷ []

part_written : encode_read_desc_resp part 6 ≡ (ok, part_bytes)
unfolding encode_read_desc_resp
part_written = refl

decode-encode_example : decode read_desc_resp (encode read_desc_resp part 6).1 no_part ≡ (ok, part)
unfolding encode_read_desc_resp
decode-encode_example = decode-encode read_desc_resp part no_part 6 (omega arith) refl

abbrev gain : SetParamReq
gain = record { param_id = 4; scope = 0xff; value = 0x0234 }

abbrev gain_bytes : Bytes
gain_bytes = 4 ∷ 0xff ∷ 0x34 ∷ 0x02 ∷ []

encode-decode_example : Writes set_param gain gain_bytes
unfolding decode_set_param get16
encode-decode_example =
    encode-decode set_param gain_bytes gain gain
      (omega arith, (omega arith, (omega arith, (omega arith, tt)))) refl

abbrev slots : BpSlotMapResp
slots = record { slot_count = 9; occupied = 0x0f ∷ 1 ∷ []; changed = 3 ∷ 0 ∷ [] }

encode-capped_example :
    encode bp_slot_map_resp slots 4 ≡ capped 4 (encode bp_slot_map_resp slots 59)
encode-capped_example = encode-capped bp_slot_map_resp slots 4

abbrev no_bounds : PayloadBounds
no_bounds = record { min_len = 0; max_len = 0; opaque = false }

decode-Within_example :
    ((payload_bounds (carrier bp_slot_map_resp).0 (carrier bp_slot_map_resp).1 no_bounds).0 ≡ ok)
    × Within bp_slot_map_resp
        (9 ∷ 1 ∷ [])
        slots
        (payload_bounds (carrier bp_slot_map_resp).0 (carrier bp_slot_map_resp).1 no_bounds).1
        (decode bp_slot_map_resp (9 ∷ 1 ∷ []) slots)
decode-Within_example = decode-Within bp_slot_map_resp (9 ∷ 1 ∷ []) slots no_bounds

-- More slots than there may be are a violation, however few bytes follow.
too_many_slots : (decode_bp_slot_map_resp (233 ∷ []) slots).0 ≡ out_of_range
unfolding decode_bp_slot_map_resp
too_many_slots = refl

-- Nothing asks for an error.
no_error_request : (payload_bounds op_error request no_bounds).0 ≡ unknown_opcode
unfolding payload_bounds find_payload only_responds
no_error_request = refl
