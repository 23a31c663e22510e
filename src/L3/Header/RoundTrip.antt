-- ===== src/L3/Header/RoundTrip.antt =====
-- l3/l3_header.cpp: decoding undoes encoding, and the other way round.
use omgp.Base.{
  ℕ, ◌≤◌, ◌<◌, ◌≡◌, ◌⊎◌, inl, inr, refl, [], ◌∷◌, ◌++◌, arith, Bytes, length, take_all, subst, ap,
  ◌∙◌,
}
use omgp.Protocol.{max_l3_payload}
use omgp.L3.Types.{L3Status, ok, truncated, length_mismatch, out_of_range, Header, l3_header_len}
use omgp.L3.Header.{encode_header, decode_header, decode_message, header_bytes, read_header}

-- An encoded header with a payload of the length it states decodes to that header and that payload,
-- whatever the output arguments held before.
pub decode_message-encode_header :
    (h h0 : Header) (payload p0 : Bytes) (cap : ℕ)
    → (encode_header h cap).0 ≡ ok
    → length payload ≡ h.payload_len
    → decode_message ((encode_header h cap).1 ++ payload) h0 p0 ≡ (ok, h, payload)
unfolding encode_header decode_message decode_header
decode_message-encode_header h h0 payload p0 cap e n =
    ground (arith, take_all h.payload_len payload)

-- The outcomes for a message that is long enough for its header `h`, which `rest` follows.
abbrev Outcome : Header → Bytes → Bytes → L3Status × Header × Bytes → Type 0
Outcome h rest p0 result =
    ((max_l3_payload < h.payload_len) × (result ≡ (out_of_range, h, p0)))
    ⊎ ((length rest < h.payload_len) × (result ≡ (truncated, h, p0)))
    ⊎ ((h.payload_len < length rest) × (result ≡ (length_mismatch, h, p0)))
    ⊎ ((h.payload_len ≤ max_l3_payload) × (length rest ≡ h.payload_len) × (result ≡ (ok, h, rest)))

decode_message-Outcome :
    (h h0 : Header) (rest p0 : Bytes)
    → Outcome h rest p0 (decode_message (header_bytes h ++ rest) h0 p0)
unfolding decode_message decode_header
decode_message-Outcome h h0 rest p0 = ground (arith, take_all h.payload_len rest)

decode_message-short :
    (input p0 : Bytes) (h0 : Header)
    → length input < l3_header_len
    → decode_message input h0 p0 ≡ (truncated, h0, p0)
unfolding decode_message decode_header
decode_message-short input p0 h0 k = ground arith

short_or_header :
    (input : Bytes)
    → (length input < l3_header_len)
      ⊎ ((rest : Bytes) × (input ≡ header_bytes (read_header input) ++ rest))
short_or_header [] = inl (omega arith)
short_or_header (a ∷ []) = inl (omega arith)
short_or_header (a ∷ b ∷ []) = inl (omega arith)
short_or_header (a ∷ b ∷ c ∷ []) = inl (omega arith)
short_or_header (a ∷ b ∷ c ∷ d ∷ []) = inl (omega arith)
short_or_header (a ∷ b ∷ c ∷ d ∷ e ∷ rest) = inr (rest, refl)

Outcome-ok :
    (h h' : Header) (rest p0 payload : Bytes) (result : L3Status × Header × Bytes)
    → Outcome h rest p0 result
    → result ≡ (ok, h', payload)
    → (h ≡ h') × (rest ≡ payload) × (h.payload_len ≤ max_l3_payload) × (length rest ≡ h.payload_len)
Outcome-ok h h' rest p0 payload result o e = ground arith

-- A message decodes only to what it is: the five bytes of the header and then the payload, whose
-- length is the one stated and at most the limit. Nothing is left over and nothing is missing.
pub decode_message-exact :
    (input payload p0 : Bytes) (h h0 : Header)
    → decode_message input h0 p0 ≡ (ok, h, payload)
    → (input ≡ header_bytes h ++ payload)
      × (length payload ≡ h.payload_len)
      × (h.payload_len ≤ max_l3_payload)
decode_message-exact input payload p0 h h0 e = elim (short_or_header input) [
  | inl short ↦ ground (arith, decode_message-short input p0 h0 short)
  | inr (rest, split) ↦
      let h1 = read_header input in
      let o = decode_message-Outcome h1 h0 rest p0 in
      let (a, b, c, d) =
        Outcome-ok h1 h rest p0 payload _ o
          (subst (λ i. decode_message i h0 p0 ≡ (ok, h, payload)) split e) in
      (
        split ∙ ap (λ x. header_bytes x ++ rest) a ∙ ap (λ x. header_bytes h ++ x) b,
        ground (arith, ap length b),
        ground arith,
      )
]
