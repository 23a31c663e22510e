-- ===== src/L3/Tlv.antt =====
-- protocol/omgp-protocol.yaml: the record types of a descriptor, as the generated header gives them,
-- and l3/l3_descriptor.cpp, tlv_info.
use omgp.Base.{ℕ, Bool, true, false, List, [], ◌∷◌, Option, none, some, ◌==◌, if◌then◌else◌}

abbrev pub tlv_protocol : ℕ
tlv_protocol = 0x01

abbrev pub tlv_module_type : ℕ
tlv_module_type = 0x02

abbrev pub tlv_name : ℕ
tlv_name = 0x03

abbrev pub tlv_manufacturer : ℕ
tlv_manufacturer = 0x04

abbrev pub tlv_model_id : ℕ
tlv_model_id = 0x05

abbrev pub tlv_serial : ℕ
tlv_serial = 0x06

abbrev pub tlv_channel : ℕ
tlv_channel = 0x10

abbrev pub tlv_switching : ℕ
tlv_switching = 0x11

abbrev pub tlv_param : ℕ
tlv_param = 0x20

abbrev pub tlv_param_enum : ℕ
tlv_param_enum = 0x21

abbrev pub tlv_audio : ℕ
tlv_audio = 0x30

abbrev pub tlv_power_lv : ℕ
tlv_power_lv = 0x40

abbrev pub tlv_power_tube : ℕ
tlv_power_tube = 0x41

abbrev pub tlv_vendor : ℕ
tlv_vendor = 0x7e

pub record TlvInfo : Type 0 where
  pub type : ℕ
  pub required : Bool
  pub repeated : Bool
  pub max_len : ℕ

abbrev row : ℕ → Bool → Bool → ℕ → TlvInfo
row type required repeated max_len = record {
  type = type;
  required = required;
  repeated = repeated;
  max_len = max_len;
}

-- TLV_INFO, in the order of the types; a `max_len` of 0 is no limit.
abbrev pub tlv_table : List TlvInfo
tlv_table =
    row tlv_protocol true false 0
    ∷ row tlv_module_type true false 0
    ∷ row tlv_name true false 24
    ∷ row tlv_manufacturer true false 24
    ∷ row tlv_model_id true false 0
    ∷ row tlv_serial false false 16
    ∷ row tlv_channel true true 0
    ∷ row tlv_switching true false 0
    ∷ row tlv_param true true 0
    ∷ row tlv_param_enum false true 0
    ∷ row tlv_audio true false 0
    ∷ row tlv_power_lv true false 0
    ∷ row tlv_power_tube false false 0
    ∷ row tlv_vendor false true 0
    ∷ []

find_type : ℕ → List TlvInfo → Option TlvInfo
find_type type [] = none
find_type type (t ∷ ts) = let rest = find_type type ts in if t.type == type then some t else rest

unfoldable pub tlv_info : ℕ → Option TlvInfo
unfolding find_type
tlv_info type = find_type type tlv_table
