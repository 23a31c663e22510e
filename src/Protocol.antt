-- ===== src/Protocol.antt =====
-- protocol/omgp-protocol.yaml: the constants that the generated header omgp_protocol.h gives to
-- the L2 and L3 code. Names are the header's, without the section prefix where none clashes.
use omgp.Base.{ℕ}

-- limits
abbrev pub max_l3_message : ℕ
max_l3_message = 64

abbrev pub max_l3_payload : ℕ
max_l3_payload = 59

abbrev pub max_nodes : ℕ
max_nodes = 128

abbrev pub max_descriptor_bytes : ℕ
max_descriptor_bytes = 2048

abbrev pub error_detail_max : ℕ
error_detail_max = 4

abbrev pub bp_slot_map_max_slots : ℕ
bp_slot_map_max_slots = 232

-- addressing
abbrev pub addr_host : ℕ
addr_host = 0x00

abbrev pub addr_backplane_min : ℕ
addr_backplane_min = 0x01

abbrev pub addr_backplane_max : ℕ
addr_backplane_max = 0x0f

abbrev pub addr_module_min : ℕ
addr_module_min = 0x10

abbrev pub addr_module_max : ℕ
addr_module_max = 0x7f

abbrev pub addr_reserved_min : ℕ
addr_reserved_min = 0x80

-- l3_flags
abbrev pub flag_response : ℕ
flag_response = 0x01

abbrev pub flag_error : ℕ
flag_error = 0x02

-- link_trunk
abbrev pub trunk_bit_rate : ℕ
trunk_bit_rate = 1000000

abbrev pub trunk_bit_rate_fallback : ℕ
trunk_bit_rate_fallback = 115200

abbrev pub flag_byte : ℕ
flag_byte = 0x7e

abbrev pub escape_byte : ℕ
escape_byte = 0x7d

abbrev pub escape_xor : ℕ
escape_xor = 0x20

abbrev pub turn_min_us : ℕ
turn_min_us = 20

abbrev pub turn_max_us : ℕ
turn_max_us = 100

abbrev pub resp_us : ℕ
resp_us = 200

abbrev pub gap_us : ℕ
gap_us = 50

abbrev pub retries : ℕ
retries = 2

abbrev pub poll_us : ℕ
poll_us = 2000

abbrev pub suspect_after_failures : ℕ
suspect_after_failures = 3

abbrev pub offline_after_suspect_ms : ℕ
offline_after_suspect_ms = 1000
