-- ===== src/Link/Deframer/Invariant.antt =====
-- What holds of the Deframer of link/frame.cpp after any bytes, and of every frame it delivers.
use omgp.Base.{
  ℕ, ◌+◌, ◌-◌, ◌/◌, ◌≤◌, ◌<◌, ◌≡◌, ◌≢◌, refl, ap, ◌∙◌, ◌⊎◌, inl, List, [], ◌∷◌, ◌++◌, Option, none,
  some, arith, true, ◌==◌, ==_iff, bit_and, Bytes, IsBytes, length, length-append, length-take,
  length-drop, drop, get_or, All, All-take, All-drop, All-get_or, All-append,
}
use omgp.Base.Bits.{each_below, each_below→true}
use omgp.Base.Words.{u8, u32}
use omgp.Protocol.{flag_byte, escape_byte, max_l3_message}
use omgp.Link.Frame.{encode_frame}
use omgp.Link.Frame.Fields.{IsFields, on_wire}
use omgp.Link.Frame.Bounds.{encode_frame_cases}
use omgp.Link.Deframer.Stream.{feed-flag_byte_idle, feed_all-encode_frame}
use omgp.Link.Types.{ok, FrameFields, max_unstuffed, max_wire}
use omgp.Link.Deframer.{
  Deframer, hunting, append, on_escaped_byte, feed, feed_all, inspect, delivers, decoded_fields,
  conclude, cons_some, count_discard, new_deframer,
}

-- The accumulator never outgrows its array, holds bytes, and is empty while no frame is open.
pub record IsValid (d : Deframer) : Type 0 where
  pub bounded : length d.buf ≤ max_unstuffed
  pub bytes : IsBytes d.buf
  pub idle : (d.state ≢ hunting) ⊎ (d.buf ≡ [])

append-IsBytes : (bs : Bytes) (b : ℕ) → IsBytes bs → b < 256 → IsBytes (bs ++ b ∷ [])
append-IsBytes bs b h k = All-append (λ x. x < 256) bs (b ∷ []) h (k, tt)

pub feed-IsValid : (b : ℕ) (d : Deframer) → b < 256 → IsValid d → IsValid (feed b d).0
unfolding feed conclude
feed-IsValid b d h v = ground (
  arith,
  append-IsBytes d.buf b v.bytes h,
  append-IsBytes d.buf flag_byte v.bytes (omega arith),
  append-IsBytes d.buf escape_byte v.bytes (omega arith),
  length-append d.buf (b ∷ []),
  length-append d.buf (flag_byte ∷ []),
  length-append d.buf (escape_byte ∷ []),
)

-- No input overruns the accumulator: a valid deframer is valid after any bytes.
pub feed_all-IsValid :
    (bs : Bytes) (d : Deframer) → IsBytes bs → IsValid d → IsValid (feed_all bs d).0
unfolding feed_all
feed_all-IsValid [] d h v = v
feed_all-IsValid (b ∷ bs) d h v = feed_all-IsValid bs (feed b d).0 h.1 (feed-IsValid b d h.0 v)

nibble_table : each_below (λ n. u8 (bit_and n 0x0f) == n) 16 ≡ true
unfolding each_below
nibble_table = refl

nibble : (n : ℕ) → n < 16 → u8 (bit_and n 0x0f) ≡ n
nibble n h = (==_iff _ n).0 (each_below→true _ nibble_table h)

decoded_fields-IsFields :
    (bs : Bytes)
    → IsBytes bs
    → get_or bs 3 0 ≡ length bs - 6
    → 6 ≤ length bs
    → IsFields (decoded_fields bs)
unfolding decoded_fields
decoded_fields-IsFields bs h e long = record {
  dst_lt = All-get_or (λ x. x < 256) bs 0 0 h (omega arith);
  src_lt = All-get_or (λ x. x < 256) bs 1 0 h (omega arith);
  seq_lt = omega arith;
  len_lt = All-get_or (λ x. x < 256) bs 3 0 h (omega arith);
  payload_bytes =
      All-take (λ x. x < 256) (get_or bs 3 0) (drop 4 bs) (All-drop (λ x. x < 256) 4 bs h);
  payload_len = omega (arith, length-take (get_or bs 3 0) (drop 4 bs), length-drop 4 bs);
}

decoded_fields-seq : (bs : Bytes) → IsBytes bs → (decoded_fields bs).seq < 16
unfolding decoded_fields
decoded_fields-seq bs h =
    let ctrl = All-get_or (λ x. x < 256) bs 2 0 h (omega arith) in
    omega (arith, ctrl, nibble (get_or bs 2 0 / 16) (omega arith))

-- What the rest of the program may rely on in a delivered frame.
pub record IsDelivered (f : FrameFields) : Type 0 where
  pub fields : IsFields f
  pub seq_lt : f.seq < 16
  pub len_le : f.len ≤ max_l3_message
  pub dst_ne : f.dst ≢ 0xff

inspect-len :
    (bs : Bytes) (f : FrameFields)
    → inspect bs ≡ delivers f
    → (f ≡ decoded_fields bs)
      × (get_or bs 3 0 ≡ length bs - 6)
      × (6 ≤ length bs)
      × (get_or bs 0 0 ≢ 0xff)
unfolding inspect
inspect-len bs f h = ground arith

inspect-IsDelivered :
    (bs : Bytes) (f : FrameFields)
    → IsBytes bs
    → length bs ≤ max_unstuffed
    → inspect bs ≡ delivers f
    → IsDelivered f
unfolding decoded_fields
inspect-IsDelivered bs f h short e =
    let (same, len, long, ne) = inspect-len bs f e in
    rw same (record {
      fields = decoded_fields-IsFields bs h len long;
      seq_lt = decoded_fields-seq bs h;
      len_le = omega arith;
      dst_ne = ne;
    })

feed-inspect :
    (b : ℕ) (d : Deframer) (f : FrameFields) → (feed b d).1 ≡ some f → inspect d.buf ≡ delivers f
unfolding feed conclude
feed-inspect b d f h = ground arith

pub feed-IsDelivered :
    (b : ℕ) (d : Deframer) (f : FrameFields) → IsValid d → (feed b d).1 ≡ some f → IsDelivered f
feed-IsDelivered b d f v h = inspect-IsDelivered d.buf f v.bytes v.bounded (feed-inspect b d f h)

cons_some-IsDelivered :
    (o : Option FrameFields) (fs : List FrameFields)
    → ((f : FrameFields) → o ≡ some f → IsDelivered f)
    → All IsDelivered fs
    → All IsDelivered (cons_some o fs)
cons_some-IsDelivered none fs h hs = hs
cons_some-IsDelivered (some f) fs h hs = (h f refl, hs)

-- Every frame that a valid deframer delivers, whatever bytes arrive, has a payload of its stated
-- length, at most 64 bytes, a four-bit sequence number and no reserved destination.
pub feed_all-IsDelivered :
    (bs : Bytes) (d : Deframer) → IsBytes bs → IsValid d → All IsDelivered (feed_all bs d).1
unfolding feed_all
feed_all-IsDelivered [] d h v = tt
feed_all-IsDelivered (b ∷ bs) d h v =
    cons_some-IsDelivered (feed b d).1 _ (λ f e. feed-IsDelivered b d f v e)
      (feed_all-IsDelivered bs (feed b d).0 h.1 (feed-IsValid b d h.0 v))

encode_frame-IsDelivered : (f : FrameFields) → IsDelivered f → (encode_frame f max_wire).0 ≡ ok
encode_frame-IsDelivered f v = ground (arith, encode_frame_cases f max_wire)

on_wire-IsDelivered : (f : FrameFields) → IsDelivered f → on_wire f ≡ f
on_wire-IsDelivered f v = ground arith

pub encode_frame-feed_all :
    (f : FrameFields)
    → IsDelivered f
    → ((encode_frame f max_wire).0 ≡ ok)
      × ((feed_all (encode_frame f max_wire).1 new_deframer).1 ≡ f ∷ [])
encode_frame-feed_all f q =
    let sent = encode_frame-IsDelivered f q in
    (
      sent,
      ap (λ r. r.1) (feed_all-encode_frame f max_wire new_deframer q.fields sent)
          ∙ rw (feed-flag_byte_idle new_deframer refl (inl refl))
              (ap (λ g. g ∷ []) (on_wire-IsDelivered f q)),
    )

-- Encoding undoes decoding: a delivered frame can be sent on as it is, and arrives the same.
pub feed_all-encode_delivered :
    (b : ℕ) (d : Deframer) (f : FrameFields)
    → IsValid d
    → (feed b d).1 ≡ some f
    → ((encode_frame f max_wire).0 ≡ ok)
      × ((feed_all (encode_frame f max_wire).1 new_deframer).1 ≡ f ∷ [])
feed_all-encode_delivered b d f v h = encode_frame-feed_all f (feed-IsDelivered b d f v h)

-- The counters.
feed-delivered :
    (b : ℕ) (d : Deframer) (fs : List FrameFields)
    → u32 ((feed b d).0.stats.delivered + length fs)
      ≡ u32 (d.stats.delivered + length (cons_some (feed b d).1 fs))
unfolding feed conclude inspect count_discard on_escaped_byte append
feed-delivered b d fs = ground arith

-- The counter of deliveries counts them, modulo 2^32.
pub feed_all-delivered :
    (bs : Bytes) (d : Deframer)
    → u32 (feed_all bs d).0.stats.delivered ≡ u32 (d.stats.delivered + length (feed_all bs d).1)
unfolding feed_all
feed_all-delivered [] d = omega arith
feed_all-delivered (b ∷ bs) d =
    feed_all-delivered bs (feed b d).0 ∙ feed-delivered b d (feed_all bs (feed b d).0).1
