-- ===== src/Tests/L3.antt =====
-- l3/l3_header.cpp and l3/l3_utf8.hpp at concrete messages and strings.
use omgp.Base.{◌≤◌, ◌≡◌, refl, [], ◌∷◌, ◌++◌, true, false, Bytes, ◌↔◌, length}
use omgp.Protocol.{max_l3_payload}
use omgp.L3.Types.{ok, Header}
use omgp.L3.Header.{encode_header, decode_header, decode_message, header_bytes}
use omgp.L3.Header.RoundTrip.{decode_message-encode_header, decode_message-exact}
use omgp.L3.Utf8.{utf8_valid, valid_from, sequence, lead, continues}
use omgp.L3.Utf8.WellFormed.{IsWellFormed, utf8_valid_iff}

-- A request to set a parameter of node 3.
abbrev set_param : Header
set_param = record { opcode = 6; node_id = 3; seq = 9; flags = 0; payload_len = 2 }

abbrev blank : Header
blank = record { opcode = 0; node_id = 0; seq = 0; flags = 0; payload_len = 0 }

set_param_ok : (encode_header set_param 64).0 ≡ ok
unfolding encode_header
set_param_ok = refl

decode_message-encode_header_example :
    decode_message ((encode_header set_param 64).1 ++ 1 ∷ 2 ∷ []) blank []
    ≡ (ok, set_param, 1 ∷ 2 ∷ [])
decode_message-encode_header_example =
    decode_message-encode_header set_param blank (1 ∷ 2 ∷ []) [] 64 set_param_ok refl

abbrev set_param_payload : Bytes
set_param_payload = 1 ∷ 2 ∷ []

abbrev set_param_message : Bytes
set_param_message = 6 ∷ 3 ∷ 9 ∷ 0 ∷ 2 ∷ 1 ∷ 2 ∷ []

set_param_decodes : decode_message set_param_message blank [] ≡ (ok, set_param, 1 ∷ 2 ∷ [])
unfolding decode_message decode_header
set_param_decodes = refl

decode_message-exact_example :
    (set_param_message ≡ header_bytes set_param ++ 1 ∷ 2 ∷ [])
    × (length set_param_payload ≡ 2)
    × (2 ≤ max_l3_payload)
decode_message-exact_example =
    decode_message-exact set_param_message (1 ∷ 2 ∷ []) [] set_param blank set_param_decodes

-- "a€" in UTF-8.
abbrev euro : Bytes
euro = 0x61 ∷ 0xe2 ∷ 0x82 ∷ 0xac ∷ []

euro_valid : utf8_valid euro ≡ true
unfolding utf8_valid valid_from sequence lead continues
euro_valid = refl

overlong_invalid : utf8_valid (0xc0 ∷ 0x80 ∷ []) ≡ false
unfolding utf8_valid valid_from sequence lead
overlong_invalid = refl

utf8_valid_iff_example : (utf8_valid euro ≡ true) ↔ IsWellFormed euro
utf8_valid_iff_example = utf8_valid_iff euro
