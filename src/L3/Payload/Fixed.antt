-- ===== src/L3/Payload/Fixed.antt =====
-- l3/l3_payload.cpp: the payloads of a fixed length.
use omgp.Base.{ℕ, not, [], ◌∷◌, ◌++◌, ltb, leb, if◌then◌else◌, Bytes, length, get_or}
use omgp.Protocol.{max_descriptor_bytes}
use omgp.L3.Types.{
  L3Status, ok, out_of_range, buffer_too_small, IdentifyResp, ReadDescReq, SelectChannelReq,
  SetBypassReq, SetParamReq, GetParamReq, GetParamResp, StatusBlock,
}
use omgp.L3.Header.{is_ok}
use omgp.L3.Descriptor.{get16, in_codes, module_type_codes, param_value_max}
use omgp.L3.Payload.Checks.{put16, fixed_len, node_state_codes}

abbrev pub identify_len : ℕ
identify_len = 7

unfoldable pub check_identify : IdentifyResp → L3Status
check_identify r =
    if not (in_codes module_type_codes r.module_type)
    then out_of_range
    else if ltb max_descriptor_bytes r.desc_len
    then out_of_range
    else ok

abbrev pub identify_bytes : IdentifyResp → Bytes
identify_bytes r = r.major ∷ r.minor ∷ r.module_type ∷ put16 r.desc_len ++ put16 r.desc_crc

unfoldable pub encode_identify_resp : IdentifyResp → ℕ → L3Status × Bytes
encode_identify_resp r cap =
    let st = check_identify r in
    if not (is_ok st)
    then (st, [])
    else if ltb cap identify_len
    then (buffer_too_small, [])
    else (ok, identify_bytes r)

abbrev pub read_identify : Bytes → IdentifyResp
read_identify input = record {
  major = get_or input 0 0;
  minor = get_or input 1 0;
  module_type = get_or input 2 0;
  desc_len = get16 input 3;
  desc_crc = get16 input 5;
}

unfoldable pub decode_identify_resp : Bytes → IdentifyResp → L3Status × IdentifyResp
decode_identify_resp input out =
    let st = fixed_len (length input) identify_len in
    if not (is_ok st)
    then (st, out)
    else (check_identify (read_identify input), read_identify input)

abbrev pub read_desc_req_len : ℕ
read_desc_req_len = 3

abbrev pub read_desc_req_bytes : ReadDescReq → Bytes
read_desc_req_bytes r = put16 r.offset ++ r.max_len ∷ []

unfoldable pub encode_read_desc_req : ReadDescReq → ℕ → L3Status × Bytes
encode_read_desc_req r cap =
    if leb max_descriptor_bytes r.offset
    then (out_of_range, [])
    else if ltb cap read_desc_req_len
    then (buffer_too_small, [])
    else (ok, read_desc_req_bytes r)

abbrev pub read_read_desc_req : Bytes → ReadDescReq
read_read_desc_req input = record { offset = get16 input 0; max_len = get_or input 2 0 }

unfoldable pub decode_read_desc_req : Bytes → ReadDescReq → L3Status × ReadDescReq
decode_read_desc_req input out =
    let st = fixed_len (length input) read_desc_req_len in
    if not (is_ok st)
    then (st, out)
    else (let out' = read_read_desc_req input in
        if leb max_descriptor_bytes out'.offset then (out_of_range, out') else (ok, out'))

unfoldable pub encode_select_channel : SelectChannelReq → ℕ → L3Status × Bytes
encode_select_channel r cap = if ltb cap 1 then (buffer_too_small, []) else (ok, r.channel ∷ [])

unfoldable pub decode_select_channel : Bytes → SelectChannelReq → L3Status × SelectChannelReq
decode_select_channel input out =
    let st = fixed_len (length input) 1 in
    if not (is_ok st) then (st, out) else (ok, record { channel = get_or input 0 0 })

unfoldable pub encode_set_bypass : SetBypassReq → ℕ → L3Status × Bytes
encode_set_bypass r cap =
    if ltb 1 r.bypass
    then (out_of_range, [])
    else if ltb cap 1
    then (buffer_too_small, [])
    else (ok, r.bypass ∷ [])

unfoldable pub decode_set_bypass : Bytes → SetBypassReq → L3Status × SetBypassReq
decode_set_bypass input out =
    let st = fixed_len (length input) 1 in
    if not (is_ok st)
    then (st, out)
    else (let out' : SetBypassReq = record { bypass = get_or input 0 0 } in
        (if ltb 1 out'.bypass then out_of_range else ok, out'))

abbrev pub param_len : ℕ
param_len = 4

abbrev pub get_param_req_len : ℕ
get_param_req_len = 2

abbrev pub set_param_bytes : SetParamReq → Bytes
set_param_bytes r = r.param_id ∷ r.scope ∷ put16 r.value

unfoldable pub encode_set_param : SetParamReq → ℕ → L3Status × Bytes
encode_set_param r cap =
    if ltb param_value_max r.value
    then (out_of_range, [])
    else if ltb cap param_len
    then (buffer_too_small, [])
    else (ok, set_param_bytes r)

abbrev pub read_set_param : Bytes → SetParamReq
read_set_param input = record {
  param_id = get_or input 0 0;
  scope = get_or input 1 0;
  value = get16 input 2;
}

unfoldable pub decode_set_param : Bytes → SetParamReq → L3Status × SetParamReq
decode_set_param input out =
    let st = fixed_len (length input) param_len in
    if not (is_ok st)
    then (st, out)
    else (let out' = read_set_param input in
        (if ltb param_value_max out'.value then out_of_range else ok, out'))

unfoldable pub encode_get_param_req : GetParamReq → ℕ → L3Status × Bytes
encode_get_param_req r cap =
    if ltb cap get_param_req_len then (buffer_too_small, []) else (ok, r.param_id ∷ r.scope ∷ [])

unfoldable pub decode_get_param_req : Bytes → GetParamReq → L3Status × GetParamReq
decode_get_param_req input out =
    let st = fixed_len (length input) get_param_req_len in
    if not (is_ok st)
    then (st, out)
    else (ok, record { param_id = get_or input 0 0; scope = get_or input 1 0 })

abbrev pub get_param_bytes : GetParamResp → Bytes
get_param_bytes r = r.param_id ∷ r.scope ∷ put16 r.value

unfoldable pub encode_get_param_resp : GetParamResp → ℕ → L3Status × Bytes
encode_get_param_resp r cap =
    if ltb param_value_max r.value
    then (out_of_range, [])
    else if ltb cap param_len
    then (buffer_too_small, [])
    else (ok, get_param_bytes r)

abbrev pub read_get_param : Bytes → GetParamResp
read_get_param input = record {
  param_id = get_or input 0 0;
  scope = get_or input 1 0;
  value = get16 input 2;
}

unfoldable pub decode_get_param_resp : Bytes → GetParamResp → L3Status × GetParamResp
decode_get_param_resp input out =
    let st = fixed_len (length input) param_len in
    if not (is_ok st)
    then (st, out)
    else (let out' = read_get_param input in
        (if ltb param_value_max out'.value then out_of_range else ok, out'))

abbrev pub status_len : ℕ
status_len = 7

unfoldable pub check_status : StatusBlock → L3Status
check_status s =
    if not (in_codes node_state_codes s.state)
    then out_of_range
    else if ltb 1 s.bypass
    then out_of_range
    else ok

abbrev pub status_bytes : StatusBlock → Bytes
status_bytes s =
    s.state ∷ s.active_channel ∷ s.bypass ∷ s.fault_code ∷ put16 s.uptime_s ++ s.event_pending ∷ []

unfoldable pub encode_status_block : StatusBlock → ℕ → L3Status × Bytes
encode_status_block s cap =
    let st = check_status s in
    if not (is_ok st)
    then (st, [])
    else if ltb cap status_len
    then (buffer_too_small, [])
    else (ok, status_bytes s)

abbrev pub read_status : Bytes → StatusBlock
read_status input = record {
  state = get_or input 0 0;
  active_channel = get_or input 1 0;
  bypass = get_or input 2 0;
  fault_code = get_or input 3 0;
  uptime_s = get16 input 4;
  event_pending = get_or input 6 0;
}

unfoldable pub decode_status_block : Bytes → StatusBlock → L3Status × StatusBlock
decode_status_block input out =
    let st = fixed_len (length input) status_len in
    if not (is_ok st) then (st, out) else (check_status (read_status input), read_status input)
