-- ===== src/L3/Payload/Bounds.antt =====
-- protocol/omgp-protocol.yaml, opcodes and l3_payloads, as tools/codegen.py makes tables of them, and
-- l3/l3_payload.cpp, payload_bounds.
use omgp.Base.{ℕ, Bool, true, false, ◌&&◌, List, [], ◌∷◌, Option, none, some, ◌==◌, if◌then◌else◌}
use omgp.L3.Types.{L3Status, ok, unknown_opcode, Dir, request, response}

pub data Target : Type 0 where
  any module_only backplane response_only : Target

pub record OpcodeInfo : Type 0 where
  pub code : ℕ
  pub target : Target
  pub idempotent : Bool

abbrev pub op_identify : ℕ
op_identify = 0x02

abbrev pub op_read_desc : ℕ
op_read_desc = 0x03

abbrev pub op_select_channel : ℕ
op_select_channel = 0x10

abbrev pub op_set_bypass : ℕ
op_set_bypass = 0x11

abbrev pub op_set_param : ℕ
op_set_param = 0x12

abbrev pub op_get_param : ℕ
op_get_param = 0x13

abbrev pub op_get_status : ℕ
op_get_status = 0x14

abbrev pub op_get_event : ℕ
op_get_event = 0x15

abbrev pub op_bp_slot_map : ℕ
op_bp_slot_map = 0x20

abbrev pub op_bp_power : ℕ
op_bp_power = 0x21

abbrev pub op_bp_route : ℕ
op_bp_route = 0x22

abbrev pub op_error : ℕ
op_error = 0x7f

abbrev pub op_ping : ℕ
op_ping = 0x01

abbrev opcode : ℕ → Target → Bool → OpcodeInfo
opcode code target idempotent = record { code = code; target = target; idempotent = idempotent }

abbrev pub opcode_table : List OpcodeInfo
opcode_table =
    opcode op_ping any true
    ∷ opcode op_identify any true
    ∷ opcode op_read_desc any true
    ∷ opcode op_select_channel module_only true
    ∷ opcode op_set_bypass module_only true
    ∷ opcode op_set_param module_only true
    ∷ opcode op_get_param module_only true
    ∷ opcode op_get_status any true
    ∷ opcode op_get_event any false
    ∷ opcode op_bp_slot_map backplane false
    ∷ opcode op_bp_power backplane true
    ∷ opcode op_bp_route backplane true
    ∷ opcode op_error response_only false
    ∷ []

pub record PayloadInfo : Type 0 where
  pub code : ℕ
  pub req_min : ℕ
  pub req_max : ℕ
  pub resp_min : ℕ
  pub resp_max : ℕ
  pub opaque : Bool

abbrev layout : ℕ → ℕ → ℕ → ℕ → ℕ → Bool → PayloadInfo
layout code req_min req_max resp_min resp_max opaque = record {
  code = code;
  req_min = req_min;
  req_max = req_max;
  resp_min = resp_min;
  resp_max = resp_max;
  opaque = opaque;
}

abbrev pub payload_table : List PayloadInfo
payload_table =
    layout op_ping 0 0 0 0 false
    ∷ layout op_identify 0 0 7 7 false
    ∷ layout op_read_desc 3 3 3 59 false
    ∷ layout op_select_channel 1 1 0 0 false
    ∷ layout op_set_bypass 1 1 0 0 false
    ∷ layout op_set_param 4 4 0 0 false
    ∷ layout op_get_param 2 2 4 4 false
    ∷ layout op_get_status 0 0 7 7 false
    ∷ layout op_get_event 0 0 2 59 false
    ∷ layout op_bp_slot_map 0 0 1 59 false
    ∷ layout op_bp_power 0 59 0 59 true
    ∷ layout op_bp_route 0 59 0 59 true
    ∷ layout op_error 0 0 1 5 false
    ∷ []

-- The loop over PAYLOAD_INFO, which keeps the last row that fits.
unfoldable pub find_payload : ℕ → List PayloadInfo → Option PayloadInfo → Option PayloadInfo
find_payload code [] info = info
find_payload code (p ∷ ps) info = find_payload code ps (if p.code == code then some p else info)

abbrev pub is_response_only : Target → Bool
is_response_only response_only = true
is_response_only _ = false

-- The loop over OPCODE_INFO.
unfoldable pub only_responds : ℕ → List OpcodeInfo → Bool
only_responds code [] = false
only_responds code (o ∷ os) =
    let rest = only_responds code os in
    if o.code == code && is_response_only o.target then true else rest

-- What the output arguments hold: the least and the greatest length, and whether the format is open.
pub record PayloadBounds : Type 0 where
  pub min_len : ℕ
  pub max_len : ℕ
  pub opaque : Bool

abbrev pub bounds_of : Dir → PayloadInfo → PayloadBounds
bounds_of request info = record {
  min_len = info.req_min;
  max_len = info.req_max;
  opaque = info.opaque;
}
bounds_of response info = record {
  min_len = info.resp_min;
  max_len = info.resp_max;
  opaque = info.opaque;
}

abbrev pub is_request : Dir → Bool
is_request request = true
is_request response = false

unfoldable pub payload_bounds : ℕ → Dir → PayloadBounds → L3Status × PayloadBounds
payload_bounds code dir out = elim (find_payload code payload_table none) [
  | none ↦ (unknown_opcode, out)
  | some info ↦
      if is_request dir && only_responds code opcode_table
      then (unknown_opcode, out)
      else (ok, bounds_of dir info)
]
