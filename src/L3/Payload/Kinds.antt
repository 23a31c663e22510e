-- ===== src/L3/Payload/Kinds.antt =====
-- l3/l3_payload.hpp: the codecs of l3/l3_payload.cpp by the kind of payload.
use omgp.Base.{ℕ, ◌≡◌, Bytes, length}
use omgp.L3.Types.{
  L3Status, ok, IdentifyResp, ReadDescReq, ReadDescResp, SelectChannelReq, SetBypassReq,
  SetParamReq, GetParamReq, GetParamResp, StatusBlock, GetEventResp, OpaquePayload, BpSlotMapResp,
  ErrorResp, Dir, request, response,
}
use omgp.L3.Payload.Fixed.{
  encode_identify_resp, decode_identify_resp, encode_read_desc_req, decode_read_desc_req,
  encode_select_channel, decode_select_channel, encode_set_bypass, decode_set_bypass,
  encode_set_param, decode_set_param, encode_get_param_req, decode_get_param_req,
  encode_get_param_resp, decode_get_param_resp, encode_status_block, decode_status_block,
}
use omgp.L3.Payload.Tails.{
  encode_read_desc_resp, decode_read_desc_resp, encode_get_event_resp, decode_get_event_resp,
  encode_opaque, decode_opaque, encode_bp_slot_map_resp, decode_bp_slot_map_resp, encode_error_resp,
  decode_error_resp,
}
use omgp.L3.Payload.Bounds.{
  op_identify, op_read_desc, op_select_channel, op_set_bypass, op_set_param, op_get_param,
  op_get_status, op_get_event, op_bp_slot_map, op_bp_power, op_error,
}

pub data Kind : Type 0 where
  identify_resp read_desc_req read_desc_resp select_channel set_bypass set_param get_param_req
        get_param_resp status_block get_event_resp opaque_payload bp_slot_map_resp error_resp :
      Kind

abbrev pub Payload : Kind → Type 0
Payload identify_resp = IdentifyResp
Payload read_desc_req = ReadDescReq
Payload read_desc_resp = ReadDescResp
Payload select_channel = SelectChannelReq
Payload set_bypass = SetBypassReq
Payload set_param = SetParamReq
Payload get_param_req = GetParamReq
Payload get_param_resp = GetParamResp
Payload status_block = StatusBlock
Payload get_event_resp = GetEventResp
Payload opaque_payload = OpaquePayload
Payload bp_slot_map_resp = BpSlotMapResp
Payload error_resp = ErrorResp

abbrev pub encode : (k : Kind) → Payload k → ℕ → L3Status × Bytes
encode identify_resp r cap = encode_identify_resp r cap
encode read_desc_req r cap = encode_read_desc_req r cap
encode read_desc_resp r cap = encode_read_desc_resp r cap
encode select_channel r cap = encode_select_channel r cap
encode set_bypass r cap = encode_set_bypass r cap
encode set_param r cap = encode_set_param r cap
encode get_param_req r cap = encode_get_param_req r cap
encode get_param_resp r cap = encode_get_param_resp r cap
encode status_block r cap = encode_status_block r cap
encode get_event_resp r cap = encode_get_event_resp r cap
encode opaque_payload r cap = encode_opaque r cap
encode bp_slot_map_resp r cap = encode_bp_slot_map_resp r cap
encode error_resp r cap = encode_error_resp r cap

abbrev pub decode : (k : Kind) → Bytes → Payload k → L3Status × Payload k
decode identify_resp input out = decode_identify_resp input out
decode read_desc_req input out = decode_read_desc_req input out
decode read_desc_resp input out = decode_read_desc_resp input out
decode select_channel input out = decode_select_channel input out
decode set_bypass input out = decode_set_bypass input out
decode set_param input out = decode_set_param input out
decode get_param_req input out = decode_get_param_req input out
decode get_param_resp input out = decode_get_param_resp input out
decode status_block input out = decode_status_block input out
decode get_event_resp input out = decode_get_event_resp input out
decode opaque_payload input out = decode_opaque input out
decode bp_slot_map_resp input out = decode_bp_slot_map_resp input out
decode error_resp input out = decode_error_resp input out

-- The opcode and the direction of the messages that carry the payload; an open one is BP_POWER's,
-- whose bounds are BP_ROUTE's too.
abbrev pub carrier : Kind → ℕ × Dir
carrier identify_resp = (op_identify, response)
carrier read_desc_req = (op_read_desc, request)
carrier read_desc_resp = (op_read_desc, response)
carrier select_channel = (op_select_channel, request)
carrier set_bypass = (op_set_bypass, request)
carrier set_param = (op_set_param, request)
carrier get_param_req = (op_get_param, request)
carrier get_param_resp = (op_get_param, response)
carrier status_block = (op_get_status, response)
carrier get_event_resp = (op_get_event, response)
carrier opaque_payload = (op_bp_power, request)
carrier bp_slot_map_resp = (op_bp_slot_map, response)
carrier error_resp = (op_error, response)

-- The encoder writes, in as much room as `input` takes, just `input`.
abbrev pub Writes : (k : Kind) → Payload k → Bytes → Type 0
Writes k r input = encode k r (length input) ≡ (ok, input)
