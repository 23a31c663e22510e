-- ===== src/L3/Descriptor/Validate.antt =====
-- l3/l3_descriptor.cpp, validate_descriptor. A bitmap of 256 bits is the list of the indices whose
-- bits are set.
pub mod Scans
pub mod Accepts
use omgp.Base.{
  ℕ, zero, suc, ◌+◌, Bool, true, false, not, ◌&&◌, List, [], ◌∷◌, Option, none, some, ltb, ◌==◌,
  if◌then◌else◌, Bytes, length, get_or, take, drop,
}
use omgp.Base.Words.{u16}
use omgp.Protocol.{max_descriptor_bytes}
use omgp.L3.Types.{
  L3Status, ok, truncated, missing_required, duplicate_record, blob_too_large, duplicate_key,
}
use omgp.L3.Tlv.{TlvInfo, tlv_table, tlv_info, tlv_channel, tlv_param}
use omgp.L3.Header.{is_ok}
use omgp.L3.Descriptor.{check_record}

abbrev pub Bitmap : Type 0
Bitmap = List ℕ

unfoldable pub bit : Bitmap → ℕ → Bool
bit [] i = false
bit (x ∷ map) i = let rest = bit map i in if x == i then true else rest

abbrev pub set_bit : Bitmap → ℕ → Bitmap
set_bit map i = i ∷ map

pub record DescriptorReport : Type 0 where
  pub status : L3Status
  pub type : ℕ
  pub offset : ℕ
  pub skipped_unknown : ℕ
  pub channel_count : ℕ
  pub param_count : ℕ

-- The locals of the loop, besides the position.
pub record Scan : Type 0 where
  pub report : DescriptorReport
  pub seen : Bitmap
  pub seen_channel_index : Bitmap
  pub seen_param_id : Bitmap

abbrev pub new_scan : Scan
new_scan = record {
  report = record {
    status = ok;
    type = 0;
    offset = 0;
    skipped_unknown = 0;
    channel_count = 0;
    param_count = 0;
  };
  seen = [];
  seen_channel_index = [];
  seen_param_id = [];
}

-- The loop returns, or goes on.
pub data Step : Type 0 where
  stop : DescriptorReport → Step
  go : Scan → Step

abbrev pub fail : L3Status → ℕ → ℕ → DescriptorReport → DescriptorReport
fail st type offset r = record r { status = st; type = type; offset = offset }

-- The uniqueness of the keys of channels and parameters.
unfoldable pub scan_key : ℕ → ℕ → ℕ → Scan → Step
scan_key type offset key s =
    if type == tlv_channel
    then (if bit s.seen_channel_index key
        then stop (fail duplicate_key type offset s.report)
        else go (record s {
          seen_channel_index = set_bit s.seen_channel_index key;
          report = record (s.report) { channel_count = u16 (s.report.channel_count + 1) };
        }))
    else if type == tlv_param
    then (if bit s.seen_param_id key
        then stop (fail duplicate_key type offset s.report)
        else go (record s {
          seen_param_id = set_bit s.seen_param_id key;
          report = record (s.report) { param_count = u16 (s.report.param_count + 1) };
        }))
    else go s

unfoldable pub scan_known : TlvInfo → ℕ → ℕ → Bytes → Scan → Step
scan_known info type offset value s =
    if not info.repeated && bit s.seen type
    then stop (fail duplicate_record type offset s.report)
    else (let st = check_record type value in
        if not (is_ok st)
        then stop (fail st type offset s.report)
        else scan_key type offset (get_or value 0 0) (record s { seen = set_bit s.seen type }))

-- The loop's body, from a whole record on.
unfoldable pub scan_record : ℕ → ℕ → Bytes → Scan → Step
scan_record type offset value s = elim (tlv_info type) [
  | none ↦ go (record s {
    report = record (s.report) { skipped_unknown = u16 (s.report.skipped_unknown + 1) };
  })
  | some info ↦ scan_known info type offset value s
]

-- The first record type that is required and missing.
unfoldable pub missing : List TlvInfo → ℕ → Scan → DescriptorReport
missing [] len s = s.report
missing (t ∷ ts) len s =
    let rest = missing ts len s in
    if t.required && not (bit s.seen t.type)
    then fail missing_required t.type (u16 len) s.report
    else rest

-- The loop from position `pos` on, where `blob` is left. `none` means too few rounds.
unfoldable pub validate_from : ℕ → ℕ → Bytes → Scan → Option DescriptorReport
validate_from n pos [] s = some (missing tlv_table pos s)
validate_from zero pos (type ∷ blob) s = none
validate_from (suc n) pos (type ∷ []) s = some (fail truncated type (u16 pos) s.report)
validate_from (suc n) pos (type ∷ len ∷ blob) s =
    if ltb (length blob) len
    then some (fail truncated type (u16 pos) s.report)
    else elim (scan_record type (u16 pos) (take len blob) s) [
      | stop r ↦ some r
      | go s' ↦ validate_from n (pos + 2 + len) (drop len blob) s'
    ]

-- Each round takes two bytes at least.
unfoldable pub validate_descriptor : Bytes → Option DescriptorReport
validate_descriptor blob =
    if ltb max_descriptor_bytes (length blob)
    then some (record (new_scan.report) { status = blob_too_large })
    else validate_from (length blob) 0 blob new_scan
