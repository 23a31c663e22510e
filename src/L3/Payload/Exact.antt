-- ===== src/L3/Payload/Exact.antt =====
-- l3/l3_payload.cpp: a payload that is accepted is just what its encoder writes.
mod Fixed
mod Tails
use omgp.Base.{
  ℕ, zero, suc, subst, ◌+◌, ◌-◌, ◌*◌, ◌/◌, ◌^◌, ◌≤◌, ◌<◌, ◌≡◌, ◌≢◌, ◌⊎◌, inl, inr, refl, sym, ap,
  ap₂, ◌∙◌, true, false, none, some, [], ◌∷◌, ◌++◌, arith, Bytes, IsBytes, length, length-append,
  get_or, take, drop, take-append, drop-append, take_all, take-append-drop, length-take,
  length-drop, bit_or, Bool, ◌&&◌, ltb, leb, ◌==◌, if◌then◌else◌,
}
use omgp.Base.Words.{u8, u16}
use omgp.Protocol.{bp_slot_map_max_slots, max_l3_payload}
use omgp.L3.Types.{
  L3Status, ok, truncated, buffer_too_small, IdentifyResp, ReadDescReq, ReadDescResp,
  SelectChannelReq, SetBypassReq, SetParamReq, GetParamReq, GetParamResp, StatusBlock, GetEventResp,
  OpaquePayload, BpSlotMapResp, ErrorResp,
}
use omgp.L3.Header.{is_ok}
use omgp.L3.Descriptor.{get16}
use omgp.L3.Descriptor.Records.{lo, hi}
use omgp.L3.Descriptor.Records.RoundTrip.{joined}
use omgp.L3.Payload.Fixed.{
  encode_identify_resp, decode_identify_resp, encode_read_desc_req, decode_read_desc_req,
  encode_select_channel, decode_select_channel, encode_set_bypass, decode_set_bypass,
  encode_set_param, decode_set_param, encode_get_param_req, decode_get_param_req,
  encode_get_param_resp, decode_get_param_resp, encode_status_block, decode_status_block,
  check_identify, check_status, identify_bytes, read_identify, read_desc_req_bytes,
  read_read_desc_req, set_param_bytes, read_set_param, get_param_bytes, read_get_param,
  status_bytes, read_status,
}
use omgp.L3.Payload.Tails.{
  encode_read_desc_resp, decode_read_desc_resp, encode_get_event_resp, decode_get_event_resp,
  encode_opaque, decode_opaque, encode_bp_slot_map_resp, decode_bp_slot_map_resp, encode_error_resp,
  decode_error_resp, bp_slot_map_bitmap_len,
}
use omgp.L3.Payload.Kinds.{
  Kind, identify_resp, read_desc_req, read_desc_resp, select_channel, set_bypass, set_param,
  get_param_req, get_param_resp, status_block, get_event_resp, opaque_payload, bp_slot_map_resp,
  error_resp, Payload, encode, decode, carrier, Writes,
}
use omgp.L3.Payload.Bounds.{PayloadBounds, payload_bounds, find_payload, only_responds}
use omgp.L3.Payload.Exact.Fixed.{
  identify_resp_exact, read_desc_req_exact, select_channel_exact, set_bypass_exact, set_param_exact,
  get_param_req_exact, get_param_resp_exact, status_block_exact,
}
use omgp.L3.Payload.Exact.Tails.{
  read_desc_resp_exact, get_event_resp_exact, opaque_exact, error_resp_exact,
  bp_slot_map_resp_exact,
}

-- A payload that a decoder accepts is just what the encoder writes of the value it reads, with no byte
-- of room to spare: no two payloads are read alike, and no byte of them is passed over.
pub encode-decode :
    (k : Kind) (input : Bytes) (out r : Payload k)
    → IsBytes input
    → decode k input out ≡ (ok, r)
    → encode k r (length input) ≡ (ok, input)
encode-decode identify_resp input out r v h = identify_resp_exact input out r v h
encode-decode read_desc_req input out r v h = read_desc_req_exact input out r v h
encode-decode read_desc_resp input out r v h = read_desc_resp_exact input out r v h
encode-decode select_channel input out r v h = select_channel_exact input out r v h
encode-decode set_bypass input out r v h = set_bypass_exact input out r v h
encode-decode set_param input out r v h = set_param_exact input out r v h
encode-decode get_param_req input out r v h = get_param_req_exact input out r v h
encode-decode get_param_resp input out r v h = get_param_resp_exact input out r v h
encode-decode status_block input out r v h = status_block_exact input out r v h
encode-decode get_event_resp input out r v h = get_event_resp_exact input out r h
encode-decode opaque_payload input out r v h = opaque_exact input out r h
encode-decode bp_slot_map_resp input out r v h = bp_slot_map_resp_exact input out r h
encode-decode error_resp input out r v h = error_resp_exact input out r h
