-- ===== src/Link/Deframer/RoundTrip.antt =====
-- The Deframer of link/frame.cpp on what encode_frame() writes.
use omgp.Base.{
  ℕ, ◌+◌, ◌-◌, ◌≤◌, ◌<◌, ◌≡◌, ◌≢◌, refl, ap, ◌∙◌, [], ◌∷◌, ◌++◌, append_assoc, append-nil, arith,
  Bytes, length, length-append, take, take-append, get_or, get_or-append_right, take_all,
}
use omgp.Link.Crc.{crc16_ccitt_false, crc_init}
use omgp.Link.Crc.Detects.{crc_lt}
use omgp.Link.Frame.{header_and_payload, crc_bytes, unstuffed, stuff_byte, stuff}
use omgp.Link.Frame.Fields.{
  IsFields, on_wire, length-crc_bytes, crc_bytes_lem, crc_joined, ctrl_byte-response,
  ctrl_byte-retry, ctrl_byte-seq,
}
use omgp.Link.Frame.Bounds.{length-header_and_payload}
use omgp.Link.Types.{FrameFields, max_unstuffed}
use omgp.Link.Deframer.{
  actual_crc, expected_crc, decoded_fields, Deframer, in_frame, feed, feed_all, inspect, delivers,
}

feed_all-stuff_byte :
    (b : ℕ) (d : Deframer) (rest : Bytes)
    → d.state ≡ in_frame
    → length d.buf < max_unstuffed
    → feed_all (stuff_byte b ++ rest) d ≡ feed_all rest (record d { buf = d.buf ++ b ∷ [] })
unfolding feed_all feed stuff_byte
feed_all-stuff_byte b d rest e h = ground arith

-- The stuffed bytes of a frame that fits end up, unstuffed, in the accumulator.
pub feed_all-stuff :
    (bs : Bytes) (d : Deframer) (rest : Bytes)
    → d.state ≡ in_frame
    → length d.buf + length bs ≤ max_unstuffed
    → feed_all (stuff bs ++ rest) d ≡ feed_all rest (record d { buf = d.buf ++ bs })
unfolding stuff
feed_all-stuff [] d rest e h = rw append-nil
feed_all-stuff (b ∷ bs) d rest e h =
    let d' = record d { buf = d.buf ++ b ∷ [] } in
    rw (append_assoc (stuff_byte b) (stuff bs) rest) (
      feed_all-stuff_byte b d (stuff bs ++ rest) e (omega arith)
      ∙ feed_all-stuff bs d' rest e (omega (arith, length-append d.buf (b ∷ [])))
      ∙ ap (λ x. feed_all rest (record d { buf = x })) (append_assoc d.buf (b ∷ []) bs))

module _ (f : FrameFields) (v : IsFields f) where
  covered : Bytes
  covered = header_and_payload f

  crc : ℕ
  unfolding covered
  crc = crc16_ccitt_false covered crc_init

  length-covered : length covered ≡ 4 + f.len
  unfolding covered
  length-covered = length-header_and_payload f v

  buf-n : length (covered ++ crc_bytes crc) - 2 ≡ length covered
  buf-n = omega (arith, length-append covered (crc_bytes crc), length-crc_bytes crc)

  actual_crc-unstuffed : actual_crc (covered ++ crc_bytes crc) ≡ crc
  unfolding actual_crc crc
  actual_crc-unstuffed =
      ap (λ x. crc16_ccitt_false x crc_init) (take-append covered (crc_bytes crc) _ buf-n)

  crc-get :
      (n : ℕ)
      → get_or (covered ++ crc_bytes crc) (length covered + n) 0 ≡ get_or (crc_bytes crc) n 0
  crc-get n = get_or-append_right covered (crc_bytes crc) _ n 0 refl

  expected_crc-unstuffed : expected_crc (covered ++ crc_bytes crc) ≡ crc
  unfolding expected_crc crc
  expected_crc-unstuffed =
      rw
        (
          buf-n,
          get_or-append_right covered (crc_bytes crc) (length covered) 0 0 (omega arith),
          crc-get 1,
          crc_bytes_lem,
        )
        (crc_joined crc (crc_lt covered crc_init (omega arith)))

  payload-covered : take f.len (take f.len f.payload ++ crc_bytes crc) ≡ f.payload
  payload-covered =
      let whole = take_all f.len f.payload (omega (arith, v.payload_len)) in
      take-append (take f.len f.payload) (crc_bytes crc) f.len
        (omega (arith, ap length whole, v.payload_len))
      ∙ whole

  decoded_fields-unstuffed : decoded_fields (covered ++ crc_bytes crc) ≡ on_wire f
  unfolding decoded_fields covered header_and_payload
  decoded_fields-unstuffed =
      let a = ctrl_byte-response f v.seq_lt in
      let b = ctrl_byte-retry f v.seq_lt in
      let c = ctrl_byte-seq f v.seq_lt in
      let p = payload-covered in
      λ i. record {
        dst = f.dst;
        src = f.src;
        response = a i;
        retry = b i;
        seq = c i;
        len = f.len;
        payload = p i;
      }

  len-unstuffed : get_or (covered ++ crc_bytes crc) 3 0 ≡ f.len
  unfolding covered header_and_payload
  len-unstuffed = refl

  dst-unstuffed : get_or (covered ++ crc_bytes crc) 0 0 ≡ f.dst
  unfolding covered header_and_payload
  dst-unstuffed = refl

  inspect-covered : f.dst ≢ 0xff → inspect (covered ++ crc_bytes crc) ≡ delivers (on_wire f)
  unfolding inspect
  inspect-covered ne =
      let buf = covered ++ crc_bytes crc in
      let size : length buf ≡ 6 + f.len =
        omega
          (arith, length-append covered (crc_bytes crc), length-crc_bytes crc, length-covered) in
      ground (
        arith, size, actual_crc-unstuffed, expected_crc-unstuffed, decoded_fields-unstuffed,
        len-unstuffed, dst-unstuffed,
      )

  -- The bytes that the encoder stuffs pass every check of the deframer.
  pub inspect-unstuffed : f.dst ≢ 0xff → inspect (unstuffed f) ≡ delivers (on_wire f)
  unfolding unstuffed covered crc
  inspect-unstuffed ne = inspect-covered ne
