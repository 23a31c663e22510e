-- ===== src/L3/Descriptor/Writer.antt =====
-- l3/l3_descriptor.hpp and l3/l3_descriptor.cpp, class DescriptorWriter: `buf` holds the first `size_`
-- bytes of the caller's buffer.
pub mod Written
use omgp.Base.{
  ℕ, ◌+◌, Bool, true, false, not, ◌&&◌, List, [], ◌∷◌, ◌++◌, Option, none, some, ltb, ◌==◌,
  if◌then◌else◌, Bytes, length, get_or,
}
use omgp.Protocol.{max_descriptor_bytes}
use omgp.L3.Types.{L3Status, ok, duplicate_record, blob_too_large, buffer_too_small, duplicate_key}
use omgp.L3.Tlv.{TlvInfo, tlv_info, tlv_channel, tlv_param}
use omgp.L3.Header.{is_ok}
use omgp.L3.Descriptor.{check_record}
use omgp.L3.Descriptor.Validate.{Bitmap, bit, set_bit, DescriptorReport, validate_descriptor}

pub record DescriptorWriter : Type 0 where
  pub buf : Bytes
  pub cap : ℕ
  pub seen : Bitmap
  pub seen_channel_index : Bitmap
  pub seen_param_id : Bitmap

abbrev pub new_writer : ℕ → DescriptorWriter
new_writer cap = record {
  buf = [];
  cap = if ltb cap max_descriptor_bytes then cap else max_descriptor_bytes;
  seen = [];
  seen_channel_index = [];
  seen_param_id = [];
}

-- The checks on a record of a known type.
unfoldable pub append_known : TlvInfo → ℕ → Bytes → DescriptorWriter → L3Status
append_known info type value w =
    if not info.repeated && bit w.seen type
    then duplicate_record
    else (let st = check_record type value in
        if not (is_ok st)
        then st
        else if type == tlv_channel && bit w.seen_channel_index (get_or value 0 0)
        then duplicate_key
        else if type == tlv_param && bit w.seen_param_id (get_or value 0 0)
        then duplicate_key
        else ok)

unfoldable pub append_check : Option TlvInfo → ℕ → Bytes → DescriptorWriter → L3Status
append_check none type value w = ok
append_check (some info) type value w = append_known info type value w

-- The bitmaps after a record is written.
unfoldable pub mark : Option TlvInfo → ℕ → ℕ → DescriptorWriter → DescriptorWriter
mark none type key w = w
mark (some info) type key w0 =
    let w = record w0 { seen = set_bit w0.seen type } in
    if type == tlv_channel
    then record w { seen_channel_index = set_bit w.seen_channel_index key }
    else if type == tlv_param
    then record w { seen_param_id = set_bit w.seen_param_id key }
    else w

unfoldable pub append : ℕ → Bytes → DescriptorWriter → DescriptorWriter × L3Status
append type value w =
    let info = tlv_info type in
    let st = append_check info type value w in
    if not (is_ok st)
    then (w, st)
    else if ltb w.cap (length w.buf + (2 + length value))
    then (w, if w.cap == max_descriptor_bytes then blob_too_large else buffer_too_small)
    else (
      mark info type (get_or value 0 0) (record w { buf = w.buf ++ type ∷ length value ∷ value }),
      ok,
    )

unfoldable pub finish : DescriptorWriter → Option DescriptorReport
finish w = validate_descriptor w.buf
