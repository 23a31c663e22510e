-- ===== src/L3/Descriptor/Records/RoundTrip.antt =====
-- What is added to a descriptor by l3/l3_descriptor.cpp is what its decoders read back.
use omgp.Base.{
  ℕ, ◌+◌, ◌*◌, ◌^◌, ◌<◌, ◌≡◌, refl, sym, ap, ◌∙◌, true, Option, none, some, [], ◌∷◌, ◌++◌, arith,
  Bytes, length, length-append, append_assoc, get_or, drop, drop-append, take_all, bit_or, ◌==◌,
  ==_iff, get_or-append_right,
}
use omgp.Base.Bits.{each_below, each_below→true}
use omgp.Base.Words.{u16}
use omgp.L3.Types.{L3Status, ok}
use omgp.L3.Tlv.{TlvInfo, tlv_info, tlv_param, tlv_power_tube, tlv_vendor}
use omgp.L3.Descriptor.{get16, check_record}
use omgp.L3.Descriptor.Writer.{DescriptorWriter, append, append_check, append_known, mark}
use omgp.L3.Descriptor.Records.{
  RecordView, next, lo, hi, ParamRec, PowerTubeRec, VendorRec, param_value, power_tube_value,
  vendor_value, add_param, add_power_tube, add_vendor,
}
use omgp.L3.Descriptor.Records.Decode.{typed, decode_param, decode_power_tube, decode_vendor}

word_table : each_below (λ c. u16 (bit_or (lo c) (hi c * 2 ^ 8)) == c) 0x10000 ≡ true
unfolding each_below
word_table = refl

-- get16() reads what put16() stored.
pub joined : (c : ℕ) → c < 0x10000 → u16 (bit_or (lo c) (hi c * 2 ^ 8)) ≡ c
joined c h = (==_iff _ c).0 (each_below→true _ word_table h)

append-ok :
    (type : ℕ) (value : Bytes) (w : DescriptorWriter)
    → (append type value w).1 ≡ ok
    → (append_check (tlv_info type) type value w ≡ ok)
      × ((append type value w).0
          ≡ mark
              (tlv_info type)
              type
              (get_or value 0 0)
              (record w { buf = w.buf ++ type ∷ length value ∷ value }))
unfolding append
append-ok type value w h = ground arith

mark-buf :
    (info : Option TlvInfo) (type key : ℕ) (w : DescriptorWriter)
    → (mark info type key w).buf ≡ w.buf
unfolding mark
mark-buf none type key w = refl
mark-buf (some info) type key w = ground arith

append-buf :
    (type : ℕ) (value : Bytes) (w : DescriptorWriter)
    → (append type value w).1 ≡ ok
    → (append type value w).0.buf ≡ w.buf ++ type ∷ length value ∷ value
append-buf type value w h =
    ap (λ x. x.buf) (append-ok type value w h).1
    ∙ mark-buf (tlv_info type) type (get_or value 0 0)
        (record w { buf = w.buf ++ type ∷ length value ∷ value })

append_check-record :
    (info : TlvInfo) (type : ℕ) (value : Bytes) (w : DescriptorWriter)
    → append_check (some info) type value w ≡ ok
    → check_record type value ≡ ok
unfolding append_check append_known
append_check-record info type value w h = ground arith

drop_two-append : (pre rest : Bytes) (a b : ℕ) → drop (length pre + 2) (pre ++ a ∷ b ∷ rest) ≡ rest
drop_two-append pre rest a b =
    ap (drop (length pre + 2)) (sym (append_assoc pre (a ∷ b ∷ []) rest))
    ∙ drop-append (pre ++ a ∷ b ∷ []) rest (length pre + 2)
        (omega (arith, length-append pre (a ∷ b ∷ [])))

next-behind :
    (pre value : Bytes) (type : ℕ) (v0 : RecordView)
    → next (record { blob = pre ++ type ∷ length value ∷ value; pos = length pre }) v0 ≡ (
      ok,
      record {
        blob = pre ++ type ∷ length value ∷ value;
        pos = length (pre ++ type ∷ length value ∷ value);
      },
      record { type = type; value = value; offset = u16 (length pre) },
    )
unfolding next
next-behind pre value type v0 = ground (
  arith,
  length-append pre (type ∷ length value ∷ value),
  get_or-append_right pre (type ∷ length value ∷ value) (length pre) 0 0 (omega arith),
  get_or-append_right pre (type ∷ length value ∷ value) (length pre + 1) 1 0 (omega arith),
  drop_two-append pre value type (length value),
  take_all (length value) value,
)

-- What the cursor finds behind the bytes that `w` held before a successful append().
next-append :
    (type : ℕ) (value : Bytes) (w : DescriptorWriter) (v0 : RecordView)
    → (append type value w).1 ≡ ok
    → next (record { blob = (append type value w).0.buf; pos = length w.buf }) v0 ≡ (
      ok,
      record { blob = (append type value w).0.buf; pos = length (append type value w).0.buf },
      record { type = type; value = value; offset = u16 (length w.buf) },
    )
next-append type value w v0 h = rw (append-buf type value w h) (next-behind w.buf value type v0)

-- The cursor finds one record behind `pos`, which reaches to the end and decodes to `r`.
abbrev pub Reads : {R : Type 0} → (RecordView → L3Status × R) → R → Bytes → ℕ → RecordView → Type 0
Reads decode r blob pos v0 =
    let (st, c, v) = next (record { blob = blob; pos = pos }) v0 in
    (st ≡ ok) × (c.pos ≡ length blob) × (decode v ≡ (ok, r))

append-Reads :
    {R : Type 0} (decode : RecordView → L3Status × R) (r : R) (info : TlvInfo) (type : ℕ)
    (value : Bytes) (added : DescriptorWriter × L3Status) (w : DescriptorWriter) (v0 : RecordView)
    → added ≡ append type value w
    → tlv_info type ≡ some info
    → added.1 ≡ ok
    → ((offset : ℕ)
        → check_record type value ≡ ok
        → decode (record { type = type; value = value; offset = offset }) ≡ (ok, r))
    → Reads decode r added.0.buf (length w.buf) v0
append-Reads decode r info type value added w v0 same known h back =
    let done = ap (λ x. x.1) (sym same) ∙ h in
    let checked =
      append_check-record info type value w
        (ap (λ i. append_check i type value w) (sym known) ∙ (append-ok type value w done).0) in
    rw same (rw (next-append type value w v0 done) (refl, refl, back (u16 (length w.buf)) checked))

decode_param-value :
    (r out : ParamRec) (offset : ℕ)
    → r.default_value < 0x10000
    → check_record tlv_param (param_value r) ≡ ok
    → decode_param (record { type = tlv_param; value = param_value r; offset = offset }) out
      ≡ (ok, r)
unfolding decode_param typed get16
decode_param-value r out offset k0 h = ground (arith, joined r.default_value k0)

add_param_ok :
    (r : ParamRec) (w : DescriptorWriter)
    → (add_param r w).1 ≡ ok
    → add_param r w ≡ append tlv_param (param_value r) w
unfolding add_param
add_param_ok r w h = ground arith

-- After a successful add_param(), of a parameter whose default fits 16 bits, the cursor finds where the
-- writer's bytes ended before one record that reaches to their end, and it decodes to that parameter.
pub add_param-Reads :
    (r out : ParamRec) (w : DescriptorWriter) (v0 : RecordView)
    → r.default_value < 0x10000
    → (add_param r w).1 ≡ ok
    → Reads (λ v. decode_param v out) r (add_param r w).0.buf (length w.buf) v0
unfolding tlv_info
add_param-Reads r out w v0 k0 h =
    append-Reads (λ v. decode_param v out) r _ tlv_param (param_value r) (add_param r w) w v0
      (add_param_ok r w h) refl h (λ offset. decode_param-value r out offset k0)

decode_vendor-value :
    (r out : VendorRec) (offset : ℕ)
    → r.vendor_id < 0x10000
    → check_record tlv_vendor (vendor_value r) ≡ ok
    → decode_vendor (record { type = tlv_vendor; value = vendor_value r; offset = offset }) out
      ≡ (ok, r)
unfolding decode_vendor typed get16
decode_vendor-value r out offset k0 h = ground (arith, joined r.vendor_id k0)

add_vendor_ok :
    (r : VendorRec) (w : DescriptorWriter)
    → (add_vendor r w).1 ≡ ok
    → add_vendor r w ≡ append tlv_vendor (vendor_value r) w
unfolding add_vendor
add_vendor_ok r w h = ground arith

-- After a successful add_vendor(), of a record whose id fits 16 bits, the cursor finds where the
-- writer's bytes ended before one record that reaches to their end, and it decodes to that record.
pub add_vendor-Reads :
    (r out : VendorRec) (w : DescriptorWriter) (v0 : RecordView)
    → r.vendor_id < 0x10000
    → (add_vendor r w).1 ≡ ok
    → Reads (λ v. decode_vendor v out) r (add_vendor r w).0.buf (length w.buf) v0
unfolding tlv_info
add_vendor-Reads r out w v0 k0 h =
    append-Reads (λ v. decode_vendor v out) r _ tlv_vendor (vendor_value r) (add_vendor r w) w v0
      (add_vendor_ok r w h) refl h (λ offset. decode_vendor-value r out offset k0)

decode_power_tube-value :
    (r out : PowerTubeRec) (offset : ℕ)
    → r.heater_nom_ma < 0x10000
    → r.heater_max_ma < 0x10000
    → r.bplus_nom_v < 0x10000
    → check_record tlv_power_tube (power_tube_value r) ≡ ok
    → decode_power_tube
        (record { type = tlv_power_tube; value = power_tube_value r; offset = offset })
        out
      ≡ (ok, r)
unfolding decode_power_tube typed get16
decode_power_tube-value r out offset k0 k1 k2 h =
    ground (arith, joined r.heater_nom_ma k0, joined r.heater_max_ma k1, joined r.bplus_nom_v k2)

-- After a successful add_power_tube(), of a record whose three words fit 16 bits, the cursor finds where
-- the writer's bytes ended before one record that reaches to their end, and it decodes to that record.
pub add_power_tube-Reads :
    (r out : PowerTubeRec) (w : DescriptorWriter) (v0 : RecordView)
    → r.heater_nom_ma < 0x10000
    → r.heater_max_ma < 0x10000
    → r.bplus_nom_v < 0x10000
    → (add_power_tube r w).1 ≡ ok
    → Reads (λ v. decode_power_tube v out) r (add_power_tube r w).0.buf (length w.buf) v0
unfolding tlv_info add_power_tube
add_power_tube-Reads r out w v0 k0 k1 k2 h =
    append-Reads (λ v. decode_power_tube v out) r _ tlv_power_tube (power_tube_value r)
      (add_power_tube r w) w v0 refl refl h
      (λ offset. decode_power_tube-value r out offset k0 k1 k2)
