-- ===== src/L3/Payload/Errors.antt =====
-- l3/l3_payload.cpp: what is refused.
use omgp.Base.{
  ℕ, ◌≤◌, ◌<◌, ◌≡◌, ◌≢◌, ◌⊎◌, refl, [], arith, Bytes, length, length-append, ◌&&◌, ltb,
  if◌then◌else◌,
}
use omgp.Protocol.{max_l3_payload}
use omgp.L3.Types.{L3Status, ok, truncated, buffer_too_small}
use omgp.L3.Header.{is_ok}
use omgp.L3.Payload.Fixed.{
  encode_identify_resp, decode_identify_resp, encode_read_desc_req, decode_read_desc_req,
  encode_select_channel, decode_select_channel, encode_set_bypass, decode_set_bypass,
  encode_set_param, decode_set_param, encode_get_param_req, decode_get_param_req,
  encode_get_param_resp, decode_get_param_resp, encode_status_block, decode_status_block,
}
use omgp.L3.Payload.Tails.{
  encode_read_desc_resp, decode_read_desc_resp, encode_get_event_resp, decode_get_event_resp,
  encode_opaque, decode_opaque, encode_bp_slot_map_resp, decode_bp_slot_map_resp, encode_error_resp,
  decode_error_resp,
}
use omgp.L3.Payload.Kinds.{
  Kind, identify_resp, read_desc_req, read_desc_resp, select_channel, set_bypass, set_param,
  get_param_req, get_param_resp, status_block, get_event_resp, opaque_payload, bp_slot_map_resp,
  error_resp, Payload, encode, decode, carrier,
}
use omgp.L3.Payload.Bounds.{PayloadBounds, payload_bounds, find_payload, only_responds}

-- What a codec answers that was given `cap` bytes of room, by what it answers with room enough.
abbrev pub capped : ℕ → L3Status × Bytes → L3Status × Bytes
capped cap (st, bs) = if is_ok st && ltb cap (length bs) then (buffer_too_small, []) else (st, bs)

-- Room enough is a whole payload: an encoder that is given less answers just the same, unless what it
-- would write does not fit, and then it writes nothing and says that the buffer is too small. So the
-- other refusals do not depend on the room, and come first.
pub encode-capped :
    (k : Kind) (r : Payload k) (cap : ℕ) → encode k r cap ≡ capped cap (encode k r max_l3_payload)
unfolding encode_identify_resp encode_read_desc_req encode_read_desc_resp encode_select_channel
    encode_set_bypass encode_set_param encode_get_param_req encode_get_param_resp
    encode_status_block encode_get_event_resp encode_opaque encode_bp_slot_map_resp
    encode_error_resp
encode-capped identify_resp r cap = ground arith
encode-capped read_desc_req r cap = ground arith
encode-capped read_desc_resp r cap = ground arith
encode-capped select_channel r cap = ground arith
encode-capped set_bypass r cap = ground arith
encode-capped set_param r cap = ground arith
encode-capped get_param_req r cap = ground arith
encode-capped get_param_resp r cap = ground arith
encode-capped status_block r cap = ground arith
encode-capped get_event_resp r cap = ground arith
encode-capped opaque_payload r cap = ground arith
encode-capped bp_slot_map_resp r cap = ground (arith, length-append r.occupied r.changed)
encode-capped error_resp r cap = ground arith

abbrev pub Within : (k : Kind) → Bytes → Payload k → PayloadBounds → L3Status × Payload k → Type 0
Within k input out b result =
    ((length input < b.min_len) × (result ≡ (truncated, out)))
    ⊎ ((b.max_len < length input) × (result.0 ≢ ok))
    ⊎ ((b.min_len ≤ length input) × (length input ≤ b.max_len))

identify_resp-Within :
    (input : Bytes) (out : Payload identify_resp) (b0 : PayloadBounds)
    → ((payload_bounds (carrier identify_resp).0 (carrier identify_resp).1 b0).0 ≡ ok)
      × Within identify_resp input out
          (payload_bounds (carrier identify_resp).0 (carrier identify_resp).1 b0).1
          (decode_identify_resp input out)
unfolding payload_bounds find_payload only_responds decode_identify_resp
identify_resp-Within input out b0 = (refl, ground arith)

read_desc_req-Within :
    (input : Bytes) (out : Payload read_desc_req) (b0 : PayloadBounds)
    → ((payload_bounds (carrier read_desc_req).0 (carrier read_desc_req).1 b0).0 ≡ ok)
      × Within read_desc_req input out
          (payload_bounds (carrier read_desc_req).0 (carrier read_desc_req).1 b0).1
          (decode_read_desc_req input out)
unfolding payload_bounds find_payload only_responds decode_read_desc_req
read_desc_req-Within input out b0 = (refl, ground arith)

read_desc_resp-Within :
    (input : Bytes) (out : Payload read_desc_resp) (b0 : PayloadBounds)
    → ((payload_bounds (carrier read_desc_resp).0 (carrier read_desc_resp).1 b0).0 ≡ ok)
      × Within read_desc_resp input out
          (payload_bounds (carrier read_desc_resp).0 (carrier read_desc_resp).1 b0).1
          (decode_read_desc_resp input out)
unfolding payload_bounds find_payload only_responds decode_read_desc_resp
read_desc_resp-Within input out b0 = (refl, ground arith)

select_channel-Within :
    (input : Bytes) (out : Payload select_channel) (b0 : PayloadBounds)
    → ((payload_bounds (carrier select_channel).0 (carrier select_channel).1 b0).0 ≡ ok)
      × Within select_channel input out
          (payload_bounds (carrier select_channel).0 (carrier select_channel).1 b0).1
          (decode_select_channel input out)
unfolding payload_bounds find_payload only_responds decode_select_channel
select_channel-Within input out b0 = (refl, ground arith)

set_bypass-Within :
    (input : Bytes) (out : Payload set_bypass) (b0 : PayloadBounds)
    → ((payload_bounds (carrier set_bypass).0 (carrier set_bypass).1 b0).0 ≡ ok)
      × Within set_bypass input out
          (payload_bounds (carrier set_bypass).0 (carrier set_bypass).1 b0).1
          (decode_set_bypass input out)
unfolding payload_bounds find_payload only_responds decode_set_bypass
set_bypass-Within input out b0 = (refl, ground arith)

set_param-Within :
    (input : Bytes) (out : Payload set_param) (b0 : PayloadBounds)
    → ((payload_bounds (carrier set_param).0 (carrier set_param).1 b0).0 ≡ ok)
      × Within set_param input out
          (payload_bounds (carrier set_param).0 (carrier set_param).1 b0).1
          (decode_set_param input out)
unfolding payload_bounds find_payload only_responds decode_set_param
set_param-Within input out b0 = (refl, ground arith)

get_param_req-Within :
    (input : Bytes) (out : Payload get_param_req) (b0 : PayloadBounds)
    → ((payload_bounds (carrier get_param_req).0 (carrier get_param_req).1 b0).0 ≡ ok)
      × Within get_param_req input out
          (payload_bounds (carrier get_param_req).0 (carrier get_param_req).1 b0).1
          (decode_get_param_req input out)
unfolding payload_bounds find_payload only_responds decode_get_param_req
get_param_req-Within input out b0 = (refl, ground arith)

get_param_resp-Within :
    (input : Bytes) (out : Payload get_param_resp) (b0 : PayloadBounds)
    → ((payload_bounds (carrier get_param_resp).0 (carrier get_param_resp).1 b0).0 ≡ ok)
      × Within get_param_resp input out
          (payload_bounds (carrier get_param_resp).0 (carrier get_param_resp).1 b0).1
          (decode_get_param_resp input out)
unfolding payload_bounds find_payload only_responds decode_get_param_resp
get_param_resp-Within input out b0 = (refl, ground arith)

status_block-Within :
    (input : Bytes) (out : Payload status_block) (b0 : PayloadBounds)
    → ((payload_bounds (carrier status_block).0 (carrier status_block).1 b0).0 ≡ ok)
      × Within status_block input out
          (payload_bounds (carrier status_block).0 (carrier status_block).1 b0).1
          (decode_status_block input out)
unfolding payload_bounds find_payload only_responds decode_status_block
status_block-Within input out b0 = (refl, ground arith)

get_event_resp-Within :
    (input : Bytes) (out : Payload get_event_resp) (b0 : PayloadBounds)
    → ((payload_bounds (carrier get_event_resp).0 (carrier get_event_resp).1 b0).0 ≡ ok)
      × Within get_event_resp input out
          (payload_bounds (carrier get_event_resp).0 (carrier get_event_resp).1 b0).1
          (decode_get_event_resp input out)
unfolding payload_bounds find_payload only_responds decode_get_event_resp
get_event_resp-Within input out b0 = (refl, ground arith)

opaque-Within :
    (input : Bytes) (out : Payload opaque_payload) (b0 : PayloadBounds)
    → ((payload_bounds (carrier opaque_payload).0 (carrier opaque_payload).1 b0).0 ≡ ok)
      × Within opaque_payload input out
          (payload_bounds (carrier opaque_payload).0 (carrier opaque_payload).1 b0).1
          (decode_opaque input out)
unfolding payload_bounds find_payload only_responds decode_opaque
opaque-Within input out b0 = (refl, ground arith)

bp_slot_map_resp-Within :
    (input : Bytes) (out : Payload bp_slot_map_resp) (b0 : PayloadBounds)
    → ((payload_bounds (carrier bp_slot_map_resp).0 (carrier bp_slot_map_resp).1 b0).0 ≡ ok)
      × Within bp_slot_map_resp input out
          (payload_bounds (carrier bp_slot_map_resp).0 (carrier bp_slot_map_resp).1 b0).1
          (decode_bp_slot_map_resp input out)
unfolding payload_bounds find_payload only_responds decode_bp_slot_map_resp
bp_slot_map_resp-Within input out b0 = (refl, ground arith)

error_resp-Within :
    (input : Bytes) (out : Payload error_resp) (b0 : PayloadBounds)
    → ((payload_bounds (carrier error_resp).0 (carrier error_resp).1 b0).0 ≡ ok)
      × Within error_resp input out
          (payload_bounds (carrier error_resp).0 (carrier error_resp).1 b0).1
          (decode_error_resp input out)
unfolding payload_bounds find_payload only_responds decode_error_resp
error_resp-Within input out b0 = (refl, ground arith)

-- The lengths that the generated table gives for an opcode are those that its codec keeps to: of fewer
-- bytes each decoder says that they are truncated and leaves its output as it was; it accepts none of
-- more bytes.
pub decode-Within :
    (k : Kind) (input : Bytes) (out : Payload k) (b0 : PayloadBounds)
    → ((payload_bounds (carrier k).0 (carrier k).1 b0).0 ≡ ok)
      × Within k input out (payload_bounds (carrier k).0 (carrier k).1 b0).1 (decode k input out)
decode-Within identify_resp input out b0 = identify_resp-Within input out b0
decode-Within read_desc_req input out b0 = read_desc_req-Within input out b0
decode-Within read_desc_resp input out b0 = read_desc_resp-Within input out b0
decode-Within select_channel input out b0 = select_channel-Within input out b0
decode-Within set_bypass input out b0 = set_bypass-Within input out b0
decode-Within set_param input out b0 = set_param-Within input out b0
decode-Within get_param_req input out b0 = get_param_req-Within input out b0
decode-Within get_param_resp input out b0 = get_param_resp-Within input out b0
decode-Within status_block input out b0 = status_block-Within input out b0
decode-Within get_event_resp input out b0 = get_event_resp-Within input out b0
decode-Within opaque_payload input out b0 = opaque-Within input out b0
decode-Within bp_slot_map_resp input out b0 = bp_slot_map_resp-Within input out b0
decode-Within error_resp input out b0 = error_resp-Within input out b0
