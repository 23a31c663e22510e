-- ===== src/L3/Payload/Exact/Fixed.antt =====
-- l3/l3_payload.cpp: accepted payloads of a fixed length.
use omgp.Base.{
  ℕ, zero, suc, subst, ◌≡◌, refl, ap, [], ◌∷◌, arith, Bytes, IsBytes, length, get_or, drop,
}
use omgp.L3.Types.{
  ok, IdentifyResp, ReadDescReq, SelectChannelReq, SetBypassReq, SetParamReq, GetParamReq,
  GetParamResp, StatusBlock,
}
use omgp.L3.Descriptor.{get16}
use omgp.L3.Payload.Fixed.{
  encode_identify_resp, decode_identify_resp, encode_read_desc_req, decode_read_desc_req,
  encode_select_channel, decode_select_channel, encode_set_bypass, decode_set_bypass,
  encode_set_param, decode_set_param, encode_get_param_req, decode_get_param_req,
  encode_get_param_resp, decode_get_param_resp, encode_status_block, decode_status_block,
  check_identify, check_status,
}
use omgp.L3.Payload.Kinds.{
  identify_resp, read_desc_req, select_channel, set_bypass, set_param, get_param_req,
  get_param_resp, status_block, Writes,
}
use omgp.L3.Payload.Fields.{lo_joined, hi_joined}

-- The first `n` bytes one by one.
abbrev firsts : ℕ → Bytes → Bytes
firsts zero xs = []
firsts (suc n) xs = get_or xs 0 0 ∷ firsts n (drop 1 xs)

firsts_all : (n : ℕ) (xs : Bytes) → length xs ≡ n → firsts n xs ≡ xs
firsts_all zero [] e = refl
firsts_all zero (x ∷ xs) e = absurd (omega arith)
firsts_all (suc n) [] e = absurd (omega arith)
firsts_all (suc n) (x ∷ xs) e = ap (◌∷◌ x) (firsts_all n xs (omega arith))

-- What holds of the first `n` bytes, one by one, holds of a list of `n` bytes.
of_firsts : (n : ℕ) (P : Bytes → Type 0) (xs : Bytes) → length xs ≡ n → P (firsts n xs) → P xs
of_firsts n P xs e p = subst P (firsts_all n xs e) p

identify_resp_read :
    (a b c d e f g : ℕ) (out r : IdentifyResp)
    → IsBytes (a ∷ b ∷ c ∷ d ∷ e ∷ f ∷ g ∷ [])
    → decode_identify_resp (a ∷ b ∷ c ∷ d ∷ e ∷ f ∷ g ∷ []) out ≡ (ok, r)
    → Writes identify_resp r (a ∷ b ∷ c ∷ d ∷ e ∷ f ∷ g ∷ [])
unfolding encode_identify_resp decode_identify_resp check_identify get16
identify_resp_read a b c d e f g out r v h =
    ground (arith, lo_joined d e, hi_joined d e, lo_joined f g, hi_joined f g)

identify_resp_length :
    (input : Bytes) (out r : IdentifyResp)
    → decode_identify_resp input out ≡ (ok, r)
    → length input ≡ 7
unfolding decode_identify_resp
identify_resp_length input out r h = ground arith

read_desc_req_read :
    (a b c : ℕ) (out r : ReadDescReq)
    → IsBytes (a ∷ b ∷ c ∷ [])
    → decode_read_desc_req (a ∷ b ∷ c ∷ []) out ≡ (ok, r)
    → Writes read_desc_req r (a ∷ b ∷ c ∷ [])
unfolding encode_read_desc_req decode_read_desc_req get16
read_desc_req_read a b c out r v h = ground (arith, lo_joined a b, hi_joined a b)

read_desc_req_length :
    (input : Bytes) (out r : ReadDescReq)
    → decode_read_desc_req input out ≡ (ok, r)
    → length input ≡ 3
unfolding decode_read_desc_req
read_desc_req_length input out r h = ground arith

select_channel_read :
    (a : ℕ) (out r : SelectChannelReq)
    → IsBytes (a ∷ [])
    → decode_select_channel (a ∷ []) out ≡ (ok, r)
    → Writes select_channel r (a ∷ [])
unfolding encode_select_channel decode_select_channel
select_channel_read a out r v h = ground arith

select_channel_length :
    (input : Bytes) (out r : SelectChannelReq)
    → decode_select_channel input out ≡ (ok, r)
    → length input ≡ 1
unfolding decode_select_channel
select_channel_length input out r h = ground arith

set_bypass_read :
    (a : ℕ) (out r : SetBypassReq)
    → IsBytes (a ∷ [])
    → decode_set_bypass (a ∷ []) out ≡ (ok, r)
    → Writes set_bypass r (a ∷ [])
unfolding encode_set_bypass decode_set_bypass
set_bypass_read a out r v h = ground arith

set_bypass_length :
    (input : Bytes) (out r : SetBypassReq)
    → decode_set_bypass input out ≡ (ok, r)
    → length input ≡ 1
unfolding decode_set_bypass
set_bypass_length input out r h = ground arith

set_param_read :
    (a b c d : ℕ) (out r : SetParamReq)
    → IsBytes (a ∷ b ∷ c ∷ d ∷ [])
    → decode_set_param (a ∷ b ∷ c ∷ d ∷ []) out ≡ (ok, r)
    → Writes set_param r (a ∷ b ∷ c ∷ d ∷ [])
unfolding encode_set_param decode_set_param get16
set_param_read a b c d out r v h = ground (arith, lo_joined c d, hi_joined c d)

set_param_length :
    (input : Bytes) (out r : SetParamReq) → decode_set_param input out ≡ (ok, r) → length input ≡ 4
unfolding decode_set_param
set_param_length input out r h = ground arith

get_param_req_read :
    (a b : ℕ) (out r : GetParamReq)
    → IsBytes (a ∷ b ∷ [])
    → decode_get_param_req (a ∷ b ∷ []) out ≡ (ok, r)
    → Writes get_param_req r (a ∷ b ∷ [])
unfolding encode_get_param_req decode_get_param_req
get_param_req_read a b out r v h = ground arith

get_param_req_length :
    (input : Bytes) (out r : GetParamReq)
    → decode_get_param_req input out ≡ (ok, r)
    → length input ≡ 2
unfolding decode_get_param_req
get_param_req_length input out r h = ground arith

get_param_resp_read :
    (a b c d : ℕ) (out r : GetParamResp)
    → IsBytes (a ∷ b ∷ c ∷ d ∷ [])
    → decode_get_param_resp (a ∷ b ∷ c ∷ d ∷ []) out ≡ (ok, r)
    → Writes get_param_resp r (a ∷ b ∷ c ∷ d ∷ [])
unfolding encode_get_param_resp decode_get_param_resp get16
get_param_resp_read a b c d out r v h = ground (arith, lo_joined c d, hi_joined c d)

get_param_resp_length :
    (input : Bytes) (out r : GetParamResp)
    → decode_get_param_resp input out ≡ (ok, r)
    → length input ≡ 4
unfolding decode_get_param_resp
get_param_resp_length input out r h = ground arith

status_block_read :
    (a b c d e f g : ℕ) (out r : StatusBlock)
    → IsBytes (a ∷ b ∷ c ∷ d ∷ e ∷ f ∷ g ∷ [])
    → decode_status_block (a ∷ b ∷ c ∷ d ∷ e ∷ f ∷ g ∷ []) out ≡ (ok, r)
    → Writes status_block r (a ∷ b ∷ c ∷ d ∷ e ∷ f ∷ g ∷ [])
unfolding encode_status_block decode_status_block check_status get16
status_block_read a b c d e f g out r v h = ground (arith, lo_joined e f, hi_joined e f)

status_block_length :
    (input : Bytes) (out r : StatusBlock)
    → decode_status_block input out ≡ (ok, r)
    → length input ≡ 7
unfolding decode_status_block
status_block_length input out r h = ground arith

pub identify_resp_exact :
    (input : Bytes) (out r : IdentifyResp)
    → IsBytes input
    → decode_identify_resp input out ≡ (ok, r)
    → Writes identify_resp r input
identify_resp_exact input out r v h =
    of_firsts 7
      (λ xs. IsBytes xs → decode_identify_resp xs out ≡ (ok, r) → Writes identify_resp r xs) input
      (identify_resp_length input out r h) (λ v h. identify_resp_read _ _ _ _ _ _ _ out r v h) v h

pub read_desc_req_exact :
    (input : Bytes) (out r : ReadDescReq)
    → IsBytes input
    → decode_read_desc_req input out ≡ (ok, r)
    → Writes read_desc_req r input
read_desc_req_exact input out r v h =
    of_firsts 3
      (λ xs. IsBytes xs → decode_read_desc_req xs out ≡ (ok, r) → Writes read_desc_req r xs) input
      (read_desc_req_length input out r h) (λ v h. read_desc_req_read _ _ _ out r v h) v h

pub select_channel_exact :
    (input : Bytes) (out r : SelectChannelReq)
    → IsBytes input
    → decode_select_channel input out ≡ (ok, r)
    → Writes select_channel r input
select_channel_exact input out r v h =
    of_firsts 1
      (λ xs. IsBytes xs → decode_select_channel xs out ≡ (ok, r) → Writes select_channel r xs) input
      (select_channel_length input out r h) (λ v h. select_channel_read _ out r v h) v h

pub set_bypass_exact :
    (input : Bytes) (out r : SetBypassReq)
    → IsBytes input
    → decode_set_bypass input out ≡ (ok, r)
    → Writes set_bypass r input
set_bypass_exact input out r v h =
    of_firsts 1 (λ xs. IsBytes xs → decode_set_bypass xs out ≡ (ok, r) → Writes set_bypass r xs)
      input (set_bypass_length input out r h) (λ v h. set_bypass_read _ out r v h) v h

pub set_param_exact :
    (input : Bytes) (out r : SetParamReq)
    → IsBytes input
    → decode_set_param input out ≡ (ok, r)
    → Writes set_param r input
set_param_exact input out r v h =
    of_firsts 4 (λ xs. IsBytes xs → decode_set_param xs out ≡ (ok, r) → Writes set_param r xs) input
      (set_param_length input out r h) (λ v h. set_param_read _ _ _ _ out r v h) v h

pub get_param_req_exact :
    (input : Bytes) (out r : GetParamReq)
    → IsBytes input
    → decode_get_param_req input out ≡ (ok, r)
    → Writes get_param_req r input
get_param_req_exact input out r v h =
    of_firsts 2
      (λ xs. IsBytes xs → decode_get_param_req xs out ≡ (ok, r) → Writes get_param_req r xs) input
      (get_param_req_length input out r h) (λ v h. get_param_req_read _ _ out r v h) v h

pub get_param_resp_exact :
    (input : Bytes) (out r : GetParamResp)
    → IsBytes input
    → decode_get_param_resp input out ≡ (ok, r)
    → Writes get_param_resp r input
get_param_resp_exact input out r v h =
    of_firsts 4
      (λ xs. IsBytes xs → decode_get_param_resp xs out ≡ (ok, r) → Writes get_param_resp r xs) input
      (get_param_resp_length input out r h) (λ v h. get_param_resp_read _ _ _ _ out r v h) v h

pub status_block_exact :
    (input : Bytes) (out r : StatusBlock)
    → IsBytes input
    → decode_status_block input out ≡ (ok, r)
    → Writes status_block r input
status_block_exact input out r v h =
    of_firsts 7 (λ xs. IsBytes xs → decode_status_block xs out ≡ (ok, r) → Writes status_block r xs)
      input (status_block_length input out r h) (λ v h. status_block_read _ _ _ _ _ _ _ out r v h) v
      h
