-- ===== src/L3/Payload/RoundTrip.antt =====
-- l3/l3_payload.cpp: each decoder undoes its encoder.
use omgp.Base.{
  ℕ, ◌≤◌, ◌<◌, ◌≡◌, ◌∷◌, ◌++◌, arith, length, length-append, take-append, drop-append, take_all,
}
use omgp.Base.Words.{u8}
use omgp.Protocol.{bp_slot_map_max_slots}
use omgp.L3.Types.{
  ok, IdentifyResp, ReadDescReq, ReadDescResp, SelectChannelReq, SetBypassReq, SetParamReq,
  GetParamReq, GetParamResp, StatusBlock, GetEventResp, OpaquePayload, BpSlotMapResp, ErrorResp,
}
use omgp.L3.Descriptor.{get16}
use omgp.L3.Descriptor.Records.RoundTrip.{joined}
use omgp.L3.Payload.Fixed.{
  encode_identify_resp, decode_identify_resp, encode_read_desc_req, decode_read_desc_req,
  encode_select_channel, decode_select_channel, encode_set_bypass, decode_set_bypass,
  encode_set_param, decode_set_param, encode_get_param_req, decode_get_param_req,
  encode_get_param_resp, decode_get_param_resp, encode_status_block, decode_status_block,
}
use omgp.L3.Payload.Tails.{
  encode_read_desc_resp, decode_read_desc_resp, encode_get_event_resp, decode_get_event_resp,
  encode_opaque, decode_opaque, encode_bp_slot_map_resp, decode_bp_slot_map_resp, encode_error_resp,
  decode_error_resp, bp_slot_map_bitmap_len,
}
use omgp.L3.Payload.Kinds.{
  Kind, identify_resp, read_desc_req, read_desc_resp, select_channel, set_bypass, set_param,
  get_param_req, get_param_resp, status_block, get_event_resp, opaque_payload, bp_slot_map_resp,
  error_resp, Payload, encode, decode,
}
use omgp.L3.Payload.Fields.{
  read_identify-identify_bytes, read_read_desc_req-read_desc_req_bytes,
  read_set_param-set_param_bytes, read_get_param-get_param_bytes, read_status-status_bytes,
}

-- The words fit a uint16_t.
abbrev pub IsPayload : (k : Kind) → Payload k → Type 0
IsPayload identify_resp r = (r.desc_len < 0x10000) × (r.desc_crc < 0x10000)
IsPayload read_desc_req r = r.offset < 0x10000
IsPayload read_desc_resp r = r.offset < 0x10000
IsPayload set_param r = r.value < 0x10000
IsPayload get_param_resp r = r.value < 0x10000
IsPayload status_block s = s.uptime_s < 0x10000
IsPayload _ r = Unit {0}

identify_lem :
    (r out : IdentifyResp) (cap : ℕ)
    → r.desc_len < 0x10000
    → r.desc_crc < 0x10000
    → (encode_identify_resp r cap).0 ≡ ok
    → decode_identify_resp (encode_identify_resp r cap).1 out ≡ (ok, r)
unfolding encode_identify_resp decode_identify_resp
identify_lem r out cap k0 k1 h = ground (arith, read_identify-identify_bytes r k0 k1)

read_desc_req_lem :
    (r out : ReadDescReq) (cap : ℕ)
    → r.offset < 0x10000
    → (encode_read_desc_req r cap).0 ≡ ok
    → decode_read_desc_req (encode_read_desc_req r cap).1 out ≡ (ok, r)
unfolding encode_read_desc_req decode_read_desc_req
read_desc_req_lem r out cap k h = ground (arith, read_read_desc_req-read_desc_req_bytes r k)

set_param_lem :
    (r out : SetParamReq) (cap : ℕ)
    → r.value < 0x10000
    → (encode_set_param r cap).0 ≡ ok
    → decode_set_param (encode_set_param r cap).1 out ≡ (ok, r)
unfolding encode_set_param decode_set_param
set_param_lem r out cap k h = ground (arith, read_set_param-set_param_bytes r k)

get_param_lem :
    (r out : GetParamResp) (cap : ℕ)
    → r.value < 0x10000
    → (encode_get_param_resp r cap).0 ≡ ok
    → decode_get_param_resp (encode_get_param_resp r cap).1 out ≡ (ok, r)
unfolding encode_get_param_resp decode_get_param_resp
get_param_lem r out cap k h = ground (arith, read_get_param-get_param_bytes r k)

status_lem :
    (s out : StatusBlock) (cap : ℕ)
    → s.uptime_s < 0x10000
    → (encode_status_block s cap).0 ≡ ok
    → decode_status_block (encode_status_block s cap).1 out ≡ (ok, s)
unfolding encode_status_block decode_status_block
status_lem s out cap k h = ground (arith, read_status-status_bytes s k)

one_byte_lem :
    (r out : SetBypassReq) (cap : ℕ)
    → (encode_set_bypass r cap).0 ≡ ok
    → decode_set_bypass (encode_set_bypass r cap).1 out ≡ (ok, r)
unfolding encode_set_bypass decode_set_bypass
one_byte_lem r out cap h = ground arith

channel_lem :
    (r out : SelectChannelReq) (cap : ℕ)
    → (encode_select_channel r cap).0 ≡ ok
    → decode_select_channel (encode_select_channel r cap).1 out ≡ (ok, r)
unfolding encode_select_channel decode_select_channel
channel_lem r out cap h = ground arith

get_param_req_lem :
    (r out : GetParamReq) (cap : ℕ)
    → (encode_get_param_req r cap).0 ≡ ok
    → decode_get_param_req (encode_get_param_req r cap).1 out ≡ (ok, r)
unfolding encode_get_param_req decode_get_param_req
get_param_req_lem r out cap h = ground arith

read_desc_resp_lem :
    (r out : ReadDescResp) (cap : ℕ)
    → r.offset < 0x10000
    → (encode_read_desc_resp r cap).0 ≡ ok
    → decode_read_desc_resp (encode_read_desc_resp r cap).1 out ≡ (ok, r)
unfolding encode_read_desc_resp decode_read_desc_resp get16
read_desc_resp_lem r out cap k h =
    ground (arith, joined r.offset k, take_all (length r.bytes) r.bytes)

event_lem :
    (r out : GetEventResp) (cap : ℕ)
    → (encode_get_event_resp r cap).0 ≡ ok
    → decode_get_event_resp (encode_get_event_resp r cap).1 out ≡ (ok, r)
unfolding encode_get_event_resp decode_get_event_resp
event_lem r out cap h = ground (arith, take_all (length r.detail) r.detail)

opaque_lem :
    (r out : OpaquePayload) (cap : ℕ)
    → (encode_opaque r cap).0 ≡ ok
    → decode_opaque (encode_opaque r cap).1 out ≡ (ok, r)
unfolding encode_opaque decode_opaque
opaque_lem r out cap h = ground (arith, take_all (length r.bytes) r.bytes)

error_lem :
    (r out : ErrorResp) (cap : ℕ)
    → (encode_error_resp r cap).0 ≡ ok
    → decode_error_resp (encode_error_resp r cap).1 out ≡ (ok, r)
unfolding encode_error_resp decode_error_resp
error_lem r out cap h = ground (arith, take_all (length r.detail) r.detail)

slot_map_bytes :
    (r : BpSlotMapResp) (cap : ℕ)
    → (encode_bp_slot_map_resp r cap).0 ≡ ok
    → (r.slot_count ≤ bp_slot_map_max_slots)
      × (length r.occupied ≡ bp_slot_map_bitmap_len r.slot_count)
      × (length r.changed ≡ bp_slot_map_bitmap_len r.slot_count)
      × ((encode_bp_slot_map_resp r cap).1 ≡ r.slot_count ∷ r.occupied ++ r.changed)
unfolding encode_bp_slot_map_resp
slot_map_bytes r cap h = ground arith

decode_slot_map :
    (r out : BpSlotMapResp)
    → r.slot_count ≤ bp_slot_map_max_slots
    → length r.occupied ≡ bp_slot_map_bitmap_len r.slot_count
    → length r.changed ≡ bp_slot_map_bitmap_len r.slot_count
    → decode_bp_slot_map_resp (r.slot_count ∷ r.occupied ++ r.changed) out ≡ (ok, r)
unfolding decode_bp_slot_map_resp
decode_slot_map r out k e0 e1 =
    let n = bp_slot_map_bitmap_len r.slot_count in
    ground (
      arith,
      length-append r.occupied r.changed,
      take-append r.occupied r.changed (u8 n),
      drop-append r.occupied r.changed n,
      take_all (u8 n) r.changed,
    )

slot_map_lem :
    (r out : BpSlotMapResp) (cap : ℕ)
    → (encode_bp_slot_map_resp r cap).0 ≡ ok
    → decode_bp_slot_map_resp (encode_bp_slot_map_resp r cap).1 out ≡ (ok, r)
slot_map_lem r out cap h =
    let (k, e0, e1, e) = slot_map_bytes r cap h in rw e (decode_slot_map r out k e0 e1)

-- What an encoder accepts and writes, of a payload whose words fit 16 bits, its decoder reads back,
-- whatever its output argument held before: so for each of the thirteen payload formats.
pub decode-encode :
    (k : Kind) (r out : Payload k) (cap : ℕ)
    → IsPayload k r
    → (encode k r cap).0 ≡ ok
    → decode k (encode k r cap).1 out ≡ (ok, r)
decode-encode identify_resp r out cap (k0, k1) h = identify_lem r out cap k0 k1 h
decode-encode read_desc_req r out cap k h = read_desc_req_lem r out cap k h
decode-encode read_desc_resp r out cap k h = read_desc_resp_lem r out cap k h
decode-encode select_channel r out cap k h = channel_lem r out cap h
decode-encode set_bypass r out cap k h = one_byte_lem r out cap h
decode-encode set_param r out cap k h = set_param_lem r out cap k h
decode-encode get_param_req r out cap k h = get_param_req_lem r out cap h
decode-encode get_param_resp r out cap k h = get_param_lem r out cap k h
decode-encode status_block r out cap k h = status_lem r out cap k h
decode-encode get_event_resp r out cap k h = event_lem r out cap h
decode-encode opaque_payload r out cap k h = opaque_lem r out cap h
decode-encode bp_slot_map_resp r out cap k h = slot_map_lem r out cap h
decode-encode error_resp r out cap k h = error_lem r out cap h
