-- ===== src/L3/Header.antt =====
-- l3/l3_header.cpp: the five bytes before the payload of a message. A decoder takes what its output
-- arguments held before, and returns what they hold afterwards.
pub mod RoundTrip
use omgp.Base.{
  ℕ, ◌-◌, Bool, true, false, not, ◌&&◌, List, [], ◌∷◌, ltb, leb, ◌==◌, if◌then◌else◌, bit_and,
  bit_or, bit_xor, Bytes, length, get_or, take, drop,
}
use omgp.Base.Words.{u8}
use omgp.Protocol.{flag_response, flag_error, addr_reserved_min, max_l3_payload}
use omgp.L3.Types.{
  L3Status, ok, truncated, length_mismatch, out_of_range, buffer_too_small, reserved_violation,
  Header, l3_header_len,
}

abbrev pub reserved_flag_mask : ℕ
reserved_flag_mask = u8 (bit_xor 0xff (bit_or flag_response flag_error))

abbrev pub header_bytes : Header → Bytes
header_bytes h = h.opcode ∷ h.node_id ∷ h.seq ∷ h.flags ∷ h.payload_len ∷ []

unfoldable pub encode_header : Header → ℕ → L3Status × Bytes
encode_header h cap =
    if not (bit_and h.flags reserved_flag_mask == 0)
    then (reserved_violation, [])
    else if bit_and h.flags flag_response == 0 && leb addr_reserved_min h.node_id
    then (reserved_violation, [])
    else if ltb max_l3_payload h.payload_len
    then (out_of_range, [])
    else if ltb cap l3_header_len
    then (buffer_too_small, [])
    else (ok, header_bytes h)

abbrev pub read_header : Bytes → Header
read_header input = record {
  opcode = get_or input 0 0;
  node_id = get_or input 1 0;
  seq = get_or input 2 0;
  flags = get_or input 3 0;
  payload_len = get_or input 4 0;
}

unfoldable pub decode_header : Bytes → Header → L3Status × Header
decode_header input out =
    if ltb (length input) l3_header_len
    then (truncated, out)
    else (let out' = read_header input in
        if ltb max_l3_payload out'.payload_len then (out_of_range, out') else (ok, out'))

abbrev pub is_ok : L3Status → Bool
is_ok ok = true
is_ok _ = false

unfoldable pub decode_message : Bytes → Header → Bytes → L3Status × Header × Bytes
decode_message input hdr payload =
    let (st, hdr') = decode_header input hdr in
    if not (is_ok st)
    then (st, hdr', payload)
    else (let rest = length input - l3_header_len in
        if ltb rest hdr'.payload_len
        then (truncated, hdr', payload)
        else if ltb hdr'.payload_len rest
        then (length_mismatch, hdr', payload)
        else (ok, hdr', take hdr'.payload_len (drop l3_header_len input)))
