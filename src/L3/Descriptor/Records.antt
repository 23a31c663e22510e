-- ===== src/L3/Descriptor/Records.antt =====
-- l3/l3_descriptor.hpp and l3/l3_descriptor.cpp: the typed records of a descriptor. `X_value` are the
-- bytes that DescriptorWriter::add_X hands to append(); `decode_X` takes what its output argument held
-- before. A Str or Bytes view is the list of its bytes.
pub mod Decode
pub mod RoundTrip
use omgp.Base.{
  ℕ, ◌+◌, ◌-◌, ◌*◌, ◌/◌, ◌^◌, ◌≤◌, Bool, true, false, not, List, [], ◌∷◌, ◌++◌, ltb, leb, ◌==◌,
  if◌then◌else◌, Bytes, length, get_or, take, drop,
}
use omgp.Base.Words.{u8, u16}
use omgp.L3.Types.{L3Status, ok, malformed_record, string_too_long, out_of_range, truncated}
use omgp.L3.Header.{is_ok}
use omgp.L3.Tlv.{
  tlv_protocol, tlv_module_type, tlv_name, tlv_manufacturer, tlv_model_id, tlv_serial, tlv_channel,
  tlv_switching, tlv_param, tlv_param_enum, tlv_audio, tlv_power_lv, tlv_power_tube, tlv_vendor,
}
use omgp.L3.Descriptor.{get16, check_record}
use omgp.L3.Descriptor.Writer.{DescriptorWriter, append}

pub record RecordView : Type 0 where
  pub type : ℕ
  pub value : Bytes
  pub offset : ℕ

pub record RecordCursor : Type 0 where
  pub blob : Bytes
  pub pos : ℕ

unfoldable pub next : RecordCursor → RecordView → L3Status × RecordCursor × RecordView
next c out =
    if leb (length c.blob) c.pos
    then (ok, c, out)
    else if ltb (length c.blob - c.pos) 2
    then (truncated, record c { pos = length c.blob }, out)
    else (let len = get_or c.blob (c.pos + 1) 0 in
        if ltb (length c.blob - c.pos - 2) len
        then (truncated, record c { pos = length c.blob }, out)
        else (
          ok,
          record c { pos = c.pos + (2 + len) },
          record {
            type = get_or c.blob c.pos 0;
            value = take len (drop (c.pos + 2) c.blob);
            offset = u16 c.pos;
          },
        ))

pub record ProtocolRec : Type 0 where
  pub major : ℕ
  pub minor : ℕ

pub record ModelIdRec : Type 0 where
  pub vendor_model : ℕ
  pub hw_rev : ℕ
  pub fw_rev : ℕ

pub record ChannelRec : Type 0 where
  pub index : ℕ
  pub name : Bytes

pub record SwitchingRec : Type 0 where
  pub flags : ℕ
  pub settle_ms : ℕ

pub record ParamRec : Type 0 where
  pub param_id : ℕ
  pub scope : ℕ
  pub kind : ℕ
  pub default_value : ℕ
  pub name : Bytes

pub record ParamEnumRec : Type 0 where
  pub param_id : ℕ
  pub index : ℕ
  pub label : Bytes

pub record AudioRec : Type 0 where
  pub io_flags : ℕ
  pub input_mode : ℕ
  pub in_max_mvrms : ℕ
  pub out_max_mvrms : ℕ

pub record PowerLvRec : Type 0 where
  pub p15_ma : ℕ
  pub n15_ma : ℕ
  pub p9_ma : ℕ
  pub p5_ma : ℕ

pub record PowerTubeRec : Type 0 where
  pub power_class : ℕ
  pub tubes : ℕ
  pub sections : ℕ
  pub heater_nom_ma : ℕ
  pub heater_max_ma : ℕ
  pub bplus_nom_v : ℕ
  pub bplus_exp_ma : ℕ
  pub bplus_max_ma : ℕ

pub record VendorRec : Type 0 where
  pub vendor_id : ℕ
  pub bytes : Bytes

-- The low and the high byte that put16() stores.
abbrev pub lo : ℕ → ℕ
lo v = u8 v

abbrev pub hi : ℕ → ℕ
hi v = u8 (v / 2 ^ 8)

abbrev pub channel_value : ChannelRec → Bytes
channel_value r = r.index ∷ r.name

abbrev pub param_value : ParamRec → Bytes
param_value r = r.param_id ∷ r.scope ∷ r.kind ∷ lo r.default_value ∷ hi r.default_value ∷ r.name

abbrev pub param_enum_value : ParamEnumRec → Bytes
param_enum_value r = r.param_id ∷ r.index ∷ r.label

abbrev pub model_id_value : ModelIdRec → Bytes
model_id_value r =
    lo r.vendor_model
    ∷ hi r.vendor_model
    ∷ lo r.hw_rev
    ∷ hi r.hw_rev
    ∷ lo r.fw_rev
    ∷ hi r.fw_rev
    ∷ []

abbrev pub switching_value : SwitchingRec → Bytes
switching_value r = r.flags ∷ lo r.settle_ms ∷ hi r.settle_ms ∷ []

abbrev pub audio_value : AudioRec → Bytes
audio_value r =
    r.io_flags
    ∷ r.input_mode
    ∷ lo r.in_max_mvrms
    ∷ hi r.in_max_mvrms
    ∷ lo r.out_max_mvrms
    ∷ hi r.out_max_mvrms
    ∷ []

abbrev pub power_lv_value : PowerLvRec → Bytes
power_lv_value r =
    lo r.p15_ma
    ∷ hi r.p15_ma
    ∷ lo r.n15_ma
    ∷ hi r.n15_ma
    ∷ lo r.p9_ma
    ∷ hi r.p9_ma
    ∷ lo r.p5_ma
    ∷ hi r.p5_ma
    ∷ []

abbrev pub power_tube_value : PowerTubeRec → Bytes
power_tube_value r =
    r.power_class
    ∷ r.tubes
    ∷ r.sections
    ∷ lo r.heater_nom_ma
    ∷ hi r.heater_nom_ma
    ∷ lo r.heater_max_ma
    ∷ hi r.heater_max_ma
    ∷ lo r.bplus_nom_v
    ∷ hi r.bplus_nom_v
    ∷ r.bplus_exp_ma
    ∷ r.bplus_max_ma
    ∷ []

abbrev pub vendor_value : VendorRec → Bytes
vendor_value r = lo r.vendor_id ∷ hi r.vendor_id ∷ r.bytes

unfoldable pub add_protocol : ProtocolRec → DescriptorWriter → DescriptorWriter × L3Status
add_protocol r w = append tlv_protocol (r.major ∷ r.minor ∷ []) w

unfoldable pub add_module_type : ℕ → DescriptorWriter → DescriptorWriter × L3Status
add_module_type type w = append tlv_module_type (type ∷ []) w

unfoldable pub add_name : Bytes → DescriptorWriter → DescriptorWriter × L3Status
add_name s w = append tlv_name s w

unfoldable pub add_manufacturer : Bytes → DescriptorWriter → DescriptorWriter × L3Status
add_manufacturer s w = append tlv_manufacturer s w

unfoldable pub add_model_id : ModelIdRec → DescriptorWriter → DescriptorWriter × L3Status
add_model_id r w = append tlv_model_id (model_id_value r) w

unfoldable pub add_serial : Bytes → DescriptorWriter → DescriptorWriter × L3Status
add_serial s w = append tlv_serial s w

unfoldable pub add_channel : ChannelRec → DescriptorWriter → DescriptorWriter × L3Status
add_channel r w =
    if ltb 254 (length r.name) then (w, string_too_long) else append tlv_channel (channel_value r) w

unfoldable pub add_switching : SwitchingRec → DescriptorWriter → DescriptorWriter × L3Status
add_switching r w = append tlv_switching (switching_value r) w

unfoldable pub add_param : ParamRec → DescriptorWriter → DescriptorWriter × L3Status
add_param r w =
    if ltb 250 (length r.name) then (w, string_too_long) else append tlv_param (param_value r) w

unfoldable pub add_param_enum : ParamEnumRec → DescriptorWriter → DescriptorWriter × L3Status
add_param_enum r w =
    if ltb 253 (length r.label)
    then (w, string_too_long)
    else append tlv_param_enum (param_enum_value r) w

unfoldable pub add_audio : AudioRec → DescriptorWriter → DescriptorWriter × L3Status
add_audio r w = append tlv_audio (audio_value r) w

unfoldable pub add_power_lv : PowerLvRec → DescriptorWriter → DescriptorWriter × L3Status
add_power_lv r w = append tlv_power_lv (power_lv_value r) w

unfoldable pub add_power_tube : PowerTubeRec → DescriptorWriter → DescriptorWriter × L3Status
add_power_tube r w = append tlv_power_tube (power_tube_value r) w

unfoldable pub add_vendor : VendorRec → DescriptorWriter → DescriptorWriter × L3Status
add_vendor r w =
    if ltb 253 (length r.bytes) then (w, out_of_range) else append tlv_vendor (vendor_value r) w
