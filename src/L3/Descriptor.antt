-- ===== src/L3/Descriptor.antt =====
-- l3/l3_descriptor.cpp: the checks of one record of a module's descriptor. A value is the list of its
-- bytes, so its length is no argument of its own.
pub mod Validate
pub mod Writer
pub mod Records
use omgp.Base.{
  ℕ, ◌+◌, ◌-◌, ◌*◌, ◌^◌, Bool, true, false, not, ◌&&◌, ◌||◌, List, [], ◌∷◌, Option, none, some, ltb,
  leb, ◌==◌, if◌then◌else◌, bit_or, Bytes, length, get_or, drop,
}
use omgp.Base.Words.{u16}
use omgp.Link.Crc.{crc16_ccitt_false, crc_init}
use omgp.L3.Types.{L3Status, ok, malformed_record, out_of_range, invalid_utf8, string_too_long}
use omgp.L3.Utf8.{utf8_valid}
use omgp.L3.Tlv.{
  TlvInfo, tlv_info, tlv_protocol, tlv_module_type, tlv_name, tlv_manufacturer, tlv_model_id,
  tlv_serial, tlv_channel, tlv_switching, tlv_param, tlv_param_enum, tlv_audio, tlv_power_lv,
  tlv_power_tube, tlv_vendor,
}

abbrev pub descriptor_crc : Bytes → ℕ
descriptor_crc blob = crc16_ccitt_false blob crc_init

unfoldable pub get16 : Bytes → ℕ → ℕ
get16 p i = u16 (bit_or (get_or p i 0) (get_or p (i + 1) 0 * 2 ^ 8))

unfoldable pub in_codes : List ℕ → ℕ → Bool
in_codes [] v = false
in_codes (c ∷ cs) v = let rest = in_codes cs v in if c == v then true else rest

abbrev pub module_type_codes : List ℕ
module_type_codes = 1 ∷ 2 ∷ 3 ∷ 4 ∷ 5 ∷ 6 ∷ 7 ∷ 8 ∷ 9 ∷ 10 ∷ 11 ∷ 12 ∷ 13 ∷ []

abbrev pub param_kind_codes : List ℕ
param_kind_codes = 0 ∷ 1 ∷ 2 ∷ 3 ∷ 4 ∷ 5 ∷ []

abbrev pub param_value_max : ℕ
param_value_max = 4095

abbrev pub switching_settle_ms_max : ℕ
switching_settle_ms_max = 5000

abbrev pub power_lv_p15_ma_max : ℕ
power_lv_p15_ma_max = 150

abbrev pub power_lv_n15_ma_max : ℕ
power_lv_n15_ma_max = 150

abbrev pub power_lv_p9_ma_max : ℕ
power_lv_p9_ma_max = 500

abbrev pub power_lv_p5_ma_max : ℕ
power_lv_p5_ma_max = 1000

abbrev pub tube_heater_max_ma_ceiling : ℕ
tube_heater_max_ma_ceiling = 2000

abbrev pub tube_bplus_max_ma_ceiling : ℕ
tube_bplus_max_ma_ceiling = 40

abbrev pub tube_bplus_nom_v_max : ℕ
tube_bplus_nom_v_max = 300

abbrev pub audio_max_mvrms : ℕ
audio_max_mvrms = 10000

abbrev pub ok_if : Bool → L3Status → L3Status
ok_if true otherwise = ok
ok_if false otherwise = otherwise

abbrev is_too_long : Option TlvInfo → ℕ → Bool
is_too_long none len = false
is_too_long (some info) len = not (info.max_len == 0) && ltb info.max_len len

unfoldable pub check_string : ℕ → Bytes → L3Status
check_string type value =
    if is_too_long (tlv_info type) (length value)
    then string_too_long
    else ok_if (utf8_valid value) invalid_utf8

unfoldable pub check_module_type : Bytes → L3Status
check_module_type value =
    if not (length value == 1)
    then malformed_record
    else ok_if (in_codes module_type_codes (get_or value 0 0)) out_of_range

unfoldable pub check_channel : Bytes → L3Status
check_channel value =
    if ltb (length value) 1
    then malformed_record
    else ok_if (utf8_valid (drop 1 value)) invalid_utf8

unfoldable pub check_switching : Bytes → L3Status
check_switching value =
    if not (length value == 3)
    then malformed_record
    else if ltb switching_settle_ms_max (get16 value 1)
    then out_of_range
    else ok

unfoldable pub check_param : Bytes → L3Status
check_param value =
    if ltb (length value) 5
    then malformed_record
    else if not (utf8_valid (drop 5 value))
    then invalid_utf8
    else if not (in_codes param_kind_codes (get_or value 2 0))
    then out_of_range
    else if ltb param_value_max (get16 value 3)
    then out_of_range
    else ok

unfoldable pub check_param_enum : Bytes → L3Status
check_param_enum value =
    if ltb (length value) 2
    then malformed_record
    else ok_if (utf8_valid (drop 2 value)) invalid_utf8

unfoldable pub check_audio : Bytes → L3Status
check_audio value =
    if not (length value == 6)
    then malformed_record
    else if ltb 1 (get_or value 1 0)
    then out_of_range
    else if ltb audio_max_mvrms (get16 value 2) || ltb audio_max_mvrms (get16 value 4)
    then out_of_range
    else ok

unfoldable pub check_power_lv : Bytes → L3Status
check_power_lv value =
    if not (length value == 8)
    then malformed_record
    else if ltb power_lv_p15_ma_max (get16 value 0)
        || (ltb power_lv_n15_ma_max (get16 value 2)
            || (ltb power_lv_p9_ma_max (get16 value 4) || ltb power_lv_p5_ma_max (get16 value 6)))
    then out_of_range
    else ok

unfoldable pub check_power_tube : Bytes → L3Status
check_power_tube value =
    if not (length value == 11)
    then malformed_record
    else if ltb (get_or value 0 0) 1 || ltb 4 (get_or value 0 0)
    then out_of_range
    else if ltb tube_heater_max_ma_ceiling (get16 value 5)
    then out_of_range
    else if ltb tube_bplus_nom_v_max (get16 value 7)
    then out_of_range
    else if ltb tube_bplus_max_ma_ceiling (get_or value 10 0)
    then out_of_range
    else ok

unfoldable pub check_record : ℕ → Bytes → L3Status
check_record type value =
    if type == tlv_name || (type == tlv_manufacturer || type == tlv_serial)
    then check_string type value
    else if type == tlv_protocol
    then ok_if (length value == 2) malformed_record
    else if type == tlv_module_type
    then check_module_type value
    else if type == tlv_model_id
    then ok_if (length value == 6) malformed_record
    else if type == tlv_channel
    then check_channel value
    else if type == tlv_switching
    then check_switching value
    else if type == tlv_param
    then check_param value
    else if type == tlv_param_enum
    then check_param_enum value
    else if type == tlv_audio
    then check_audio value
    else if type == tlv_power_lv
    then check_power_lv value
    else if type == tlv_power_tube
    then check_power_tube value
    else if type == tlv_vendor
    then ok_if (leb 2 (length value)) malformed_record
    else ok
