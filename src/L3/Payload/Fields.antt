-- ===== src/L3/Payload/Fields.antt =====
-- l3/l3_payload.cpp: the fields of a layout read back.
use omgp.Base.{ℕ, ◌+◌, ◌*◌, ◌^◌, ◌<◌, ◌≡◌, sym, ap, ap₂, ◌∙◌, arith, bit_or}
use omgp.Base.Words.{u16}
use omgp.L3.Types.{IdentifyResp, ReadDescReq, SetParamReq, GetParamResp, StatusBlock}
use omgp.L3.Descriptor.{get16}
use omgp.L3.Descriptor.Records.{lo, hi}
use omgp.L3.Descriptor.Records.RoundTrip.{joined}
use omgp.L3.Payload.Fixed.{
  identify_bytes, read_identify, read_desc_req_bytes, read_read_desc_req, set_param_bytes,
  read_set_param, get_param_bytes, read_get_param, status_bytes, read_status,
}

-- put16() stores what get16() read.
pub lo_joined : (a b : ℕ) → a < 256 → b < 256 → lo (u16 (bit_or a (b * 2 ^ 8))) ≡ a
lo_joined a b ka kb =
    let c = a + 256 * b in
    let la : lo c ≡ a = omega arith in
    let hb : hi c ≡ b = omega arith in
    let k = joined c (omega arith) in
    ap lo (sym (ap₂ (λ x y. u16 (bit_or x (y * 2 ^ 8))) la hb) ∙ k) ∙ la

pub hi_joined : (a b : ℕ) → a < 256 → b < 256 → hi (u16 (bit_or a (b * 2 ^ 8))) ≡ b
hi_joined a b ka kb =
    let c = a + 256 * b in
    let la : lo c ≡ a = omega arith in
    let hb : hi c ≡ b = omega arith in
    let k = joined c (omega arith) in
    ap hi (sym (ap₂ (λ x y. u16 (bit_or x (y * 2 ^ 8))) la hb) ∙ k) ∙ hb

pub read_identify-identify_bytes :
    (r : IdentifyResp)
    → r.desc_len < 0x10000
    → r.desc_crc < 0x10000
    → read_identify (identify_bytes r) ≡ r
unfolding get16
read_identify-identify_bytes r k0 k1 = ground (arith, joined r.desc_len k0, joined r.desc_crc k1)

pub read_read_desc_req-read_desc_req_bytes :
    (r : ReadDescReq) → r.offset < 0x10000 → read_read_desc_req (read_desc_req_bytes r) ≡ r
unfolding get16
read_read_desc_req-read_desc_req_bytes r k = ground (arith, joined r.offset k)

pub read_set_param-set_param_bytes :
    (r : SetParamReq) → r.value < 0x10000 → read_set_param (set_param_bytes r) ≡ r
unfolding get16
read_set_param-set_param_bytes r k = ground (arith, joined r.value k)

pub read_get_param-get_param_bytes :
    (r : GetParamResp) → r.value < 0x10000 → read_get_param (get_param_bytes r) ≡ r
unfolding get16
read_get_param-get_param_bytes r k = ground (arith, joined r.value k)

pub read_status-status_bytes :
    (s : StatusBlock) → s.uptime_s < 0x10000 → read_status (status_bytes s) ≡ s
unfolding get16
read_status-status_bytes s k = ground (arith, joined s.uptime_s k)
