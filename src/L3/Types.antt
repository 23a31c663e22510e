-- ===== src/L3/Types.antt =====
-- l3/l3_types.hpp and l3/l3_header.hpp: the value types of the message layer.
use omgp.Base.{ℕ, Bytes}

pub data L3Status : Type 0 where
  ok truncated length_mismatch out_of_range unknown_opcode missing_required duplicate_record
        string_too_long blob_too_large buffer_too_small invalid_utf8 malformed_record
        reserved_violation duplicate_key :
      L3Status

pub record Header : Type 0 where
  pub opcode : ℕ
  pub node_id : ℕ
  pub seq : ℕ
  pub flags : ℕ
  pub payload_len : ℕ

abbrev pub l3_header_len : ℕ
l3_header_len = 5

pub record IdentifyResp : Type 0 where
  pub major : ℕ
  pub minor : ℕ
  pub module_type : ℕ
  pub desc_len : ℕ
  pub desc_crc : ℕ

pub record ReadDescReq : Type 0 where
  pub offset : ℕ
  pub max_len : ℕ

pub record ReadDescResp : Type 0 where
  pub offset : ℕ
  pub bytes : Bytes

pub record SelectChannelReq : Type 0 where
  pub channel : ℕ

pub record SetBypassReq : Type 0 where
  pub bypass : ℕ

pub record SetParamReq : Type 0 where
  pub param_id : ℕ
  pub scope : ℕ
  pub value : ℕ

pub record GetParamReq : Type 0 where
  pub param_id : ℕ
  pub scope : ℕ

pub record GetParamResp : Type 0 where
  pub param_id : ℕ
  pub scope : ℕ
  pub value : ℕ

pub record StatusBlock : Type 0 where
  pub state : ℕ
  pub active_channel : ℕ
  pub bypass : ℕ
  pub fault_code : ℕ
  pub uptime_s : ℕ
  pub event_pending : ℕ

pub record GetEventResp : Type 0 where
  pub event_type : ℕ
  pub remaining_count : ℕ
  pub detail : Bytes

pub record OpaquePayload : Type 0 where
  pub bytes : Bytes

pub record BpSlotMapResp : Type 0 where
  pub slot_count : ℕ
  pub occupied : Bytes
  pub changed : Bytes

pub record ErrorResp : Type 0 where
  pub code : ℕ
  pub detail : Bytes

pub data Dir : Type 0 where
  request response : Dir
