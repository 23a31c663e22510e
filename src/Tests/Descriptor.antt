-- ===== src/Tests/Descriptor.antt =====
-- l3/l3_descriptor.cpp on a small descriptor.
use omgp.Base.{◌≤◌, ◌≡◌, ◌⊎◌, refl, List, [], ◌∷◌, some, arith, Bytes, length, All}
use omgp.Protocol.{max_descriptor_bytes}
use omgp.L3.Types.{ok, missing_required}
use omgp.L3.Utf8.{utf8_valid, valid_from, sequence}
use omgp.L3.Tlv.{tlv_info, tlv_table}
use omgp.L3.Descriptor.{
  get16, in_codes, check_record, check_param, check_power_tube, check_string, check_module_type,
  check_channel, check_switching, check_audio, check_power_lv,
}
use omgp.L3.Descriptor.Validate.{
  DescriptorReport, bit, scan_record, scan_known, scan_key, missing, validate_from,
  validate_descriptor,
}
use omgp.L3.Descriptor.Validate.Accepts.{
  IsSound, HasRequired, validate_descriptor-returns, validate_descriptor-accepts,
}
use omgp.L3.Descriptor.Validate.Scans.{Tlv, encode_records}
use omgp.L3.Descriptor.Writer.{new_writer, append, append_check, append_known, finish}
use omgp.L3.Descriptor.Writer.Written.{add_all, finish-add_all}
use omgp.L3.Descriptor.Records.{
  RecordView, ParamRec, VendorRec, PowerTubeRec, add_param, add_vendor, add_power_tube,
}
use omgp.L3.Descriptor.Records.Decode.{decode_param}
use omgp.L3.Descriptor.Records.RoundTrip.{Reads, add_param-Reads}

-- A protocol version, twice, and a record of a type that no one knows.
abbrev tlvs : List Tlv
tlvs =
    record { type = 1; value = 1 ∷ 0 ∷ [] }
    ∷ record { type = 1; value = 1 ∷ 0 ∷ [] }
    ∷ record { type = 0x77; value = 5 ∷ [] }
    ∷ []

finish-add_all_example :
    (length (add_all tlvs (new_writer 64)).buf ≤ 64)
    × ((r : DescriptorReport) × (finish (add_all tlvs (new_writer 64)) ≡ some r)
        × ((r.status ≡ ok) ⊎ (r.status ≡ missing_required)))
finish-add_all_example = finish-add_all tlvs 64

abbrev no_view : RecordView
no_view = record { type = 0; value = []; offset = 0 }

-- A parameter named "Gain".
abbrev gain : ParamRec
gain = record {
  param_id = 1;
  scope = 0;
  kind = 0;
  default_value = 2048;
  name = 0x47 ∷ 0x61 ∷ 0x69 ∷ 0x6e ∷ [];
}

abbrev no_param : ParamRec
no_param = record { param_id = 0; scope = 0; kind = 0; default_value = 0; name = [] }

gain_ok : (add_param gain (new_writer 64)).1 ≡ ok
unfolding add_param append append_check append_known tlv_info bit check_record check_param in_codes
    get16 utf8_valid valid_from sequence
gain_ok = refl

add_param-Reads_example :
    Reads (λ v. decode_param v no_param) gain (add_param gain (new_writer 64)).0.buf 0 no_view
add_param-Reads_example =
    add_param-Reads gain no_param (new_writer 64) no_view (omega arith) gain_ok

abbrev vendor : VendorRec
vendor = record { vendor_id = 0x1234; bytes = 7 ∷ 8 ∷ [] }

abbrev no_vendor : VendorRec
no_vendor = record { vendor_id = 0; bytes = [] }

vendor_ok : (add_vendor vendor (new_writer 64)).1 ≡ ok
unfolding add_vendor append append_check append_known tlv_info bit check_record
vendor_ok = refl

abbrev tube : PowerTubeRec
tube = record {
  power_class = 2;
  tubes = 1;
  sections = 2;
  heater_nom_ma = 300;
  heater_max_ma = 600;
  bplus_nom_v = 250;
  bplus_exp_ma = 3;
  bplus_max_ma = 10;
}

tube_ok : (add_power_tube tube (new_writer 64)).1 ≡ ok
unfolding add_power_tube append append_check append_known tlv_info bit check_record check_power_tube
    get16
tube_ok = refl

-- The least module: each required record once.
abbrev least : Bytes
least =
    0x01 ∷ 2 ∷ 1 ∷ 0 ∷ 0x02 ∷ 1 ∷ 1 ∷ 0x03 ∷ 1 ∷ 0x41 ∷ 0x04 ∷ 1 ∷ 0x42 ∷ 0x05 ∷ 6 ∷ 0 ∷ 0 ∷ 0 ∷ 0
    ∷ 0 ∷ 0 ∷ 0x10 ∷ 2 ∷ 0 ∷ 0x43 ∷ 0x11 ∷ 3 ∷ 0 ∷ 0 ∷ 0 ∷ 0x20 ∷ 6 ∷ 1 ∷ 0 ∷ 0 ∷ 0 ∷ 0 ∷ 0x47
    ∷ 0x30 ∷ 6 ∷ 0 ∷ 0 ∷ 0 ∷ 0 ∷ 0 ∷ 0 ∷ 0x40 ∷ 8 ∷ 0 ∷ 0 ∷ 0 ∷ 0 ∷ 0 ∷ 0 ∷ 0 ∷ 0 ∷ []

abbrev least_report : DescriptorReport
least_report = record {
  status = ok;
  type = 0;
  offset = 0;
  skipped_unknown = 0;
  channel_count = 1;
  param_count = 1;
}

least_accepted : validate_descriptor least ≡ some least_report
unfolding validate_descriptor validate_from scan_record scan_known scan_key missing tlv_info bit
    check_record check_string check_module_type check_channel check_switching check_param
    check_audio check_power_lv in_codes get16 utf8_valid valid_from sequence
least_accepted = refl

validate_descriptor-returns_example : (r : DescriptorReport) × (validate_descriptor least ≡ some r)
validate_descriptor-returns_example = validate_descriptor-returns least

validate_descriptor-accepts_example :
    (length least ≤ max_descriptor_bytes)
    × ((rs : List Tlv) × (least ≡ encode_records rs)
        × All IsSound rs
        × All (HasRequired rs) tlv_table)
validate_descriptor-accepts_example =
    validate_descriptor-accepts least least_report least_accepted refl
