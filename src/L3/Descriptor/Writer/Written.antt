-- ===== src/L3/Descriptor/Writer/Written.antt =====
-- What l3/l3_descriptor.cpp's DescriptorWriter wrote, its validate_descriptor accepts.
use omgp.Base.{
  ℕ, ◌+◌, ◌≤◌, ◌≡◌, ◌⊎◌, inl, inr, refl, sym, ap, ◌∙◌, true, List, [], ◌∷◌, ◌++◌, Option, none,
  some, arith, Bytes, length, length-append, get_or, ◌==◌, if◌then◌else◌,
}
use omgp.Base.Words.{u16}
use omgp.Protocol.{max_descriptor_bytes}
use omgp.L3.Types.{L3Status, ok, missing_required}
use omgp.L3.Tlv.{TlvInfo, tlv_table, tlv_info, tlv_channel, tlv_param}
use omgp.L3.Header.{is_ok}
use omgp.L3.Descriptor.Validate.{
  set_bit, DescriptorReport, Scan, new_scan, go, scan_key, scan_known, scan_record, missing,
  validate_descriptor,
}
use omgp.L3.Descriptor.Writer.{
  DescriptorWriter, new_writer, append_known, append_check, mark, append, finish,
}
use omgp.L3.Descriptor.Validate.Scans.{
  Tlv, encode_records, Scans, done, not_ltb, validate_from-Scans, Scans-append,
  encode_records-append,
}

-- The writer's bitmaps are those of the validator behind the same records.
record Agrees (w : DescriptorWriter) (s : Scan) : Type 0 where
  seen_eq : s.seen ≡ w.seen
  channel_eq : s.seen_channel_index ≡ w.seen_channel_index
  param_eq : s.seen_param_id ≡ w.seen_param_id
  status_ok : s.report.status ≡ ok

is_ok_lem : (st : L3Status) → is_ok st ≡ true → st ≡ ok
is_ok_lem st h = ground arith

-- The scan behind an accepted record of a known type.
abbrev scan_after : ℕ → ℕ → Scan → Scan
scan_after type key s0 =
    let s = record s0 { seen = set_bit s0.seen type } in
    if type == tlv_channel
    then record s {
      seen_channel_index = set_bit s.seen_channel_index key;
      report = record (s.report) { channel_count = u16 (s.report.channel_count + 1) };
    }
    else if type == tlv_param
    then record s {
      seen_param_id = set_bit s.seen_param_id key;
      report = record (s.report) { param_count = u16 (s.report.param_count + 1) };
    }
    else s

append_known-scan_known :
    (info : TlvInfo) (type off : ℕ) (value : Bytes) (w : DescriptorWriter) (s : Scan)
    → append_known info type value w ≡ ok
    → Agrees w s
    → scan_known info type off value s ≡ go (scan_after type (get_or value 0 0) s)
unfolding append_known scan_known scan_key
append_known-scan_known info type off value w s h a = ground arith

mark-Agrees :
    (info : TlvInfo) (type key : ℕ) (buf : Bytes) (w : DescriptorWriter) (s : Scan)
    → Agrees w s
    → Agrees (mark (some info) type key (record w { buf = buf })) (scan_after type key s)
unfolding mark
mark-Agrees info type key buf w s a = ground arith

-- What the writer accepts, the validator goes past, wherever the record stands.
append_check-Agrees :
    (info : Option TlvInfo) (type off : ℕ) (value buf : Bytes) (w : DescriptorWriter) (s : Scan)
    → tlv_info type ≡ info
    → append_check info type value w ≡ ok
    → Agrees w s
    → (s' : Scan) × (scan_record type off value s ≡ go s')
      × Agrees (mark info type (get_or value 0 0) (record w { buf = buf })) s'
unfolding append_check scan_record mark
append_check-Agrees none type off value buf w s e h a = rw (scan_record, e) (_, refl, ground arith)
append_check-Agrees (some info) type off value buf w s e h a =
    rw (scan_record, e)
      (
        _,
        append_known-scan_known info type off value w s h a,
        mark-Agrees info type (get_or value 0 0) buf w s a,
      )

-- The buffer holds records that the validator goes through, with the writer's bitmaps.
record IsWritten (w : DescriptorWriter) : Type 0 where
  records : List Tlv
  scan : Scan
  buf_eq : w.buf ≡ encode_records records
  scans : Scans 0 records new_scan scan
  agrees : Agrees w scan
  size_le : length w.buf ≤ w.cap
  cap_le : w.cap ≤ max_descriptor_bytes

abbrev with_record : ℕ → Bytes → DescriptorWriter → DescriptorWriter
with_record type value w = record w { buf = w.buf ++ type ∷ length value ∷ value }

append_cases :
    (type : ℕ) (value : Bytes) (w : DescriptorWriter)
    → ((append type value w).0 ≡ w)
      ⊎ ((append_check (tlv_info type) type value w ≡ ok)
          × (length w.buf + (2 + length value) ≤ w.cap)
          × ((append type value w).0
              ≡ mark (tlv_info type) type (get_or value 0 0) (with_record type value w)))
unfolding append
append_cases type value w = ground arith

mark-kept :
    (info : Option TlvInfo) (type key : ℕ) (w : DescriptorWriter)
    → ((mark info type key w).buf ≡ w.buf) × ((mark info type key w).cap ≡ w.cap)
unfolding mark
mark-kept none type key w = (refl, refl)
mark-kept (some info) type key w = ground arith

append-IsWritten :
    (type : ℕ) (value : Bytes) (w : DescriptorWriter)
    → IsWritten w
    → IsWritten (append type value w).0
append-IsWritten type value w v = elim (append_cases type value w) [
  | inl same ↦ rw same v
  | inr (checked, fits, same) ↦
      let r : Tlv = record { type = type; value = value } in
      let (s', e, a) =
        append_check-Agrees (tlv_info type) type (u16 (0 + length (encode_records v.records))) value
          (with_record type value w).buf w v.scan refl checked v.agrees in
      let (buf_same, cap_same) =
        mark-kept (tlv_info type) type (get_or value 0 0) (with_record type value w) in
      let size = length-append w.buf (type ∷ length value ∷ value) in
      rw same (record {
        records = v.records ++ r ∷ [];
        scan = s';
        buf_eq =
            buf_same
            ∙ ap (λ b. b ++ type ∷ length value ∷ value) v.buf_eq
            ∙ sym (encode_records-append v.records r);
        scans = Scans-append 0 v.records r new_scan v.scan s' v.scans e;
        agrees = a;
        size_le = rw buf_same (rw cap_same (omega arith));
        cap_le = rw cap_same v.cap_le;
      })
]

-- Calls of add_raw, whatever each of them returns.
pub add_all : List Tlv → DescriptorWriter → DescriptorWriter
add_all [] w = w
add_all (r ∷ rs) w = add_all rs (append r.type r.value w).0

add_all-IsWritten : (rs : List Tlv) (w : DescriptorWriter) → IsWritten w → IsWritten (add_all rs w)
unfolding add_all
add_all-IsWritten [] w v = v
add_all-IsWritten (r ∷ rs) w v =
    add_all-IsWritten rs (append r.type r.value w).0 (append-IsWritten r.type r.value w v)

append-cap : (type : ℕ) (value : Bytes) (w : DescriptorWriter) → (append type value w).0.cap ≡ w.cap
append-cap type value w = elim (append_cases type value w) [
  | inl same ↦ ap (λ x. x.cap) same
  | inr (_, _, same) ↦
      ap (λ x. x.cap) same
      ∙ (mark-kept (tlv_info type) type (get_or value 0 0) (with_record type value w)).1
]

add_all-cap : (rs : List Tlv) (w : DescriptorWriter) → (add_all rs w).cap ≡ w.cap
unfolding add_all
add_all-cap [] w = refl
add_all-cap (r ∷ rs) w = add_all-cap rs (append r.type r.value w).0 ∙ append-cap r.type r.value w

new_writer-cap : (cap : ℕ) → (new_writer cap).cap ≤ cap
new_writer-cap cap = ground arith

new_writer-IsWritten : (cap : ℕ) → IsWritten (new_writer cap)
unfolding encode_records
new_writer-IsWritten cap = record {
  records = [];
  scan = new_scan;
  buf_eq = refl;
  scans = done;
  agrees = record { seen_eq = refl; channel_eq = refl; param_eq = refl; status_ok = refl };
  size_le = omega arith;
  cap_le = ground arith;
}

missing_cases :
    (ts : List TlvInfo) (len : ℕ) (s : Scan)
    → s.report.status ≡ ok
    → ((missing ts len s).status ≡ ok) ⊎ ((missing ts len s).status ≡ missing_required)
unfolding missing
missing_cases [] len s h = inl h
missing_cases (t ∷ ts) len s h = ground (arith, missing_cases ts len s h)

finish-written :
    (w : DescriptorWriter) (v : IsWritten w)
    → finish w ≡ some (missing tlv_table (length w.buf) v.scan)
unfolding finish validate_descriptor
finish-written w v =
    rw (finish, not_ltb max_descriptor_bytes (length w.buf) (omega (arith, v.size_le, v.cap_le)))
      (rw v.buf_eq (
        validate_from-Scans (length (encode_records v.records)) 0 v.records new_scan v.scan v.scans
          (omega arith)
        ∙ ap (λ p. some (missing tlv_table p v.scan)) (omega arith)))

-- Whatever records are added to a new writer, and whichever of them it refuses, it writes no more than
-- its buffer holds, and the validator goes through all that it wrote: at the end finish() reports a
-- success, or that a required record is missing, and nothing else.
pub finish-add_all :
    (rs : List Tlv) (cap : ℕ)
    → let w = add_all rs (new_writer cap) in
      (length w.buf ≤ cap)
      × ((r : DescriptorReport) × (finish w ≡ some r)
          × ((r.status ≡ ok) ⊎ (r.status ≡ missing_required)))
finish-add_all rs cap =
    let w = add_all rs (new_writer cap) in
    let v = add_all-IsWritten rs (new_writer cap) (new_writer-IsWritten cap) in
    (
      omega (arith, v.size_le, add_all-cap rs (new_writer cap), new_writer-cap cap),
      (
        missing tlv_table (length w.buf) v.scan,
        finish-written w v,
        missing_cases tlv_table (length w.buf) v.scan v.agrees.status_ok,
      ),
    )
