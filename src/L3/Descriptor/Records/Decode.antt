-- ===== src/L3/Descriptor/Records/Decode.antt =====
-- l3/l3_descriptor.cpp: the decoders of typed records.

use omgp.Base.{ℕ, not, ◌==◌, if◌then◌else◌, Bytes, get_or, drop}
use omgp.L3.Types.{L3Status, ok, malformed_record}
use omgp.L3.Header.{is_ok}
use omgp.L3.Tlv.{
  tlv_protocol, tlv_module_type, tlv_name, tlv_manufacturer, tlv_model_id, tlv_serial, tlv_channel,
  tlv_switching, tlv_param, tlv_param_enum, tlv_audio, tlv_power_lv, tlv_power_tube, tlv_vendor,
}
use omgp.L3.Descriptor.{get16, check_record}
use omgp.L3.Descriptor.Records.{
  RecordView, ProtocolRec, ModelIdRec, ChannelRec, SwitchingRec, ParamRec, ParamEnumRec, AudioRec,
  PowerLvRec, PowerTubeRec, VendorRec,
}

unfoldable pub typed : RecordView → ℕ → L3Status
typed v expect = if not (v.type == expect) then malformed_record else check_record v.type v.value

unfoldable pub decode_protocol : RecordView → ProtocolRec → L3Status × ProtocolRec
decode_protocol v out =
    let st = typed v tlv_protocol in
    if not (is_ok st)
    then (st, out)
    else (ok, record { major = get_or v.value 0 0; minor = get_or v.value 1 0 })

unfoldable pub decode_module_type : RecordView → ℕ → L3Status × ℕ
decode_module_type v out =
    let st = typed v tlv_module_type in
    if not (is_ok st) then (st, out) else (ok, get_or v.value 0 0)

unfoldable pub decode_name : RecordView → Bytes → L3Status × Bytes
decode_name v out = let st = typed v tlv_name in if not (is_ok st) then (st, out) else (ok, v.value)

unfoldable pub decode_manufacturer : RecordView → Bytes → L3Status × Bytes
decode_manufacturer v out =
    let st = typed v tlv_manufacturer in if not (is_ok st) then (st, out) else (ok, v.value)

unfoldable pub decode_model_id : RecordView → ModelIdRec → L3Status × ModelIdRec
decode_model_id v out =
    let st = typed v tlv_model_id in
    if not (is_ok st) then (st, out) else (
      ok,
      record { vendor_model = get16 v.value 0; hw_rev = get16 v.value 2; fw_rev = get16 v.value 4 },
    )

unfoldable pub decode_serial : RecordView → Bytes → L3Status × Bytes
decode_serial v out =
    let st = typed v tlv_serial in if not (is_ok st) then (st, out) else (ok, v.value)

unfoldable pub decode_channel : RecordView → ChannelRec → L3Status × ChannelRec
decode_channel v out =
    let st = typed v tlv_channel in
    if not (is_ok st)
    then (st, out)
    else (ok, record { index = get_or v.value 0 0; name = drop 1 v.value })

unfoldable pub decode_switching : RecordView → SwitchingRec → L3Status × SwitchingRec
decode_switching v out =
    let st = typed v tlv_switching in
    if not (is_ok st)
    then (st, out)
    else (ok, record { flags = get_or v.value 0 0; settle_ms = get16 v.value 1 })

unfoldable pub decode_param : RecordView → ParamRec → L3Status × ParamRec
decode_param v out =
    let st = typed v tlv_param in
    if not (is_ok st) then (st, out) else (
      ok,
      record {
        param_id = get_or v.value 0 0;
        scope = get_or v.value 1 0;
        kind = get_or v.value 2 0;
        default_value = get16 v.value 3;
        name = drop 5 v.value;
      },
    )

unfoldable pub decode_param_enum : RecordView → ParamEnumRec → L3Status × ParamEnumRec
decode_param_enum v out =
    let st = typed v tlv_param_enum in
    if not (is_ok st) then (st, out) else (
      ok,
      record { param_id = get_or v.value 0 0; index = get_or v.value 1 0; label = drop 2 v.value },
    )

unfoldable pub decode_audio : RecordView → AudioRec → L3Status × AudioRec
decode_audio v out =
    let st = typed v tlv_audio in
    if not (is_ok st) then (st, out) else (
      ok,
      record {
        io_flags = get_or v.value 0 0;
        input_mode = get_or v.value 1 0;
        in_max_mvrms = get16 v.value 2;
        out_max_mvrms = get16 v.value 4;
      },
    )

unfoldable pub decode_power_lv : RecordView → PowerLvRec → L3Status × PowerLvRec
decode_power_lv v out =
    let st = typed v tlv_power_lv in
    if not (is_ok st) then (st, out) else (
      ok,
      record {
        p15_ma = get16 v.value 0;
        n15_ma = get16 v.value 2;
        p9_ma = get16 v.value 4;
        p5_ma = get16 v.value 6;
      },
    )

unfoldable pub decode_power_tube : RecordView → PowerTubeRec → L3Status × PowerTubeRec
decode_power_tube v out =
    let st = typed v tlv_power_tube in
    if not (is_ok st) then (st, out) else (
      ok,
      record {
        power_class = get_or v.value 0 0;
        tubes = get_or v.value 1 0;
        sections = get_or v.value 2 0;
        heater_nom_ma = get16 v.value 3;
        heater_max_ma = get16 v.value 5;
        bplus_nom_v = get16 v.value 7;
        bplus_exp_ma = get_or v.value 9 0;
        bplus_max_ma = get_or v.value 10 0;
      },
    )

unfoldable pub decode_vendor : RecordView → VendorRec → L3Status × VendorRec
decode_vendor v out =
    let st = typed v tlv_vendor in
    if not (is_ok st)
    then (st, out)
    else (ok, record { vendor_id = get16 v.value 0; bytes = drop 2 v.value })
