-- ===== src/L3/Payload/Exact/Tails.antt =====
-- l3/l3_payload.cpp: accepted payloads that end with bytes.
use omgp.Base.{
  ℕ, ◌*◌, ◌≡◌, ap, ◌∙◌, [], ◌∷◌, ◌++◌, arith, Bytes, IsBytes, length, take, drop, take_all,
  take-append-drop, length-take, length-drop,
}
use omgp.Base.Words.{u8}
use omgp.L3.Types.{ok, ReadDescResp, GetEventResp, OpaquePayload, BpSlotMapResp, ErrorResp}
use omgp.L3.Descriptor.{get16}
use omgp.L3.Payload.Tails.{
  encode_read_desc_resp, decode_read_desc_resp, encode_get_event_resp, decode_get_event_resp,
  encode_opaque, decode_opaque, encode_bp_slot_map_resp, decode_bp_slot_map_resp, encode_error_resp,
  decode_error_resp, bp_slot_map_bitmap_len,
}
use omgp.L3.Payload.Kinds.{
  read_desc_resp, get_event_resp, opaque_payload, bp_slot_map_resp, error_resp, Writes,
}
use omgp.L3.Payload.Fields.{lo_joined, hi_joined}

pub read_desc_resp_exact :
    (input : Bytes) (out r : ReadDescResp)
    → IsBytes input
    → decode_read_desc_resp input out ≡ (ok, r)
    → Writes read_desc_resp r input
unfolding encode_read_desc_resp decode_read_desc_resp get16
read_desc_resp_exact [] out r v h = ground arith
read_desc_resp_exact (a ∷ []) out r v h = ground arith
read_desc_resp_exact (a ∷ b ∷ []) out r v h = ground arith
read_desc_resp_exact (a ∷ b ∷ n ∷ rest) out r v h =
    ground (arith, lo_joined a b, hi_joined a b, take_all n rest)

pub get_event_resp_exact :
    (input : Bytes) (out r : GetEventResp)
    → decode_get_event_resp input out ≡ (ok, r)
    → Writes get_event_resp r input
unfolding encode_get_event_resp decode_get_event_resp
get_event_resp_exact [] out r h = ground arith
get_event_resp_exact (a ∷ []) out r h = ground arith
get_event_resp_exact (a ∷ b ∷ rest) out r h = ground (arith, take_all (u8 (length rest)) rest)

pub opaque_exact :
    (input : Bytes) (out r : OpaquePayload)
    → decode_opaque input out ≡ (ok, r)
    → Writes opaque_payload r input
unfolding encode_opaque decode_opaque
opaque_exact input out r h = ground (arith, take_all (u8 (length input)) input)

pub error_resp_exact :
    (input : Bytes) (out r : ErrorResp)
    → decode_error_resp input out ≡ (ok, r)
    → Writes error_resp r input
unfolding encode_error_resp decode_error_resp
error_resp_exact [] out r h = ground arith
error_resp_exact (a ∷ rest) out r h = ground (arith, take_all (u8 (length rest)) rest)

-- Two halves of a list.
halves :
    (n m : ℕ) (xs : Bytes)
    → m ≡ n
    → length xs ≡ 2 * n
    → (take m xs ++ take m (drop n xs) ≡ xs)
      × (length (take m xs) ≡ n)
      × (length (take m (drop n xs)) ≡ n)
halves n m xs e h = rw e (
  ap (λ ys. take n xs ++ ys) (take_all n (drop n xs) (omega (arith, length-drop n xs, h)))
      ∙ take-append-drop n xs,
  omega (arith, length-take n xs, h),
  omega (arith, length-take n (drop n xs), length-drop n xs, h),
)

pub bp_slot_map_resp_exact :
    (input : Bytes) (out r : BpSlotMapResp)
    → decode_bp_slot_map_resp input out ≡ (ok, r)
    → Writes bp_slot_map_resp r input
unfolding encode_bp_slot_map_resp decode_bp_slot_map_resp
bp_slot_map_resp_exact [] out r h = ground arith
bp_slot_map_resp_exact (a ∷ rest) out r h =
    let n = bp_slot_map_bitmap_len a in ground (arith, halves n (u8 n) rest)
