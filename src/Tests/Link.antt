-- ===== src/Tests/Link.antt =====
-- link/crc16.hpp and link/frame.cpp at concrete frames.
use omgp.Base.{◌≡◌, ◌≢◌, refl, inl, inr, [], ◌∷◌, ◌++◌, true, false, some, none, arith, Bytes}
use omgp.Protocol.{flag_byte}
use omgp.Link.Crc.{crc16_ccitt_false, crc_byte, crc_bits, crc_bit, crc_init}
use omgp.Link.Crc.Detects.{Corrupted, here, there, crc_detects}
use omgp.Link.Frame.{ctrl_byte, encode_frame, unstuffed}
use omgp.Link.Frame.Fields.{IsFields, on_wire}
use omgp.Link.Types.{
  ok, payload_too_long, reserved_address, buffer_too_small, FrameFields, max_wire,
}
use omgp.Link.Deframer.{Deframer, in_frame, feed, feed_all, new_deframer, no_stats, cons_some}
use omgp.Link.Deframer.Corruption.{feed-Corrupted}
use omgp.Link.Deframer.Invariant.{IsValid, feed_all-IsValid, feed_all-encode_delivered}
use omgp.Link.Deframer.Stream.{
  after_delivery, feed_all-encode_frame, feed_all_resynchronises, wire_frames, feed_all-stream,
}

-- A retried request from the host to node 3, whose payload holds both bytes that are escaped.
abbrev ping : FrameFields
ping = record {
  dst = 3;
  src = 0;
  response = false;
  retry = true;
  seq = 5;
  len = 3;
  payload = 0x7e ∷ 0x01 ∷ 0x7d ∷ [];
}

-- Its answer, with an empty payload.
abbrev pong : FrameFields
pong = record { dst = 0; src = 3; response = true; retry = true; seq = 5; len = 0; payload = [] }

ping-IsFields : IsFields ping
ping-IsFields = omega arith

pong-IsFields : IsFields pong
pong-IsFields = omega arith

ping_ok : (encode_frame ping max_wire).0 ≡ ok
unfolding encode_frame
ping_ok = refl

pong_ok : (encode_frame pong max_wire).0 ≡ ok
unfolding encode_frame
pong_ok = refl

abbrev ping_bytes : Bytes
ping_bytes = 3 ∷ 0 ∷ 0x52 ∷ 3 ∷ 0x7e ∷ 0x01 ∷ 0x7d ∷ 0x23 ∷ 0xbc ∷ []

unstuffed-ping : unstuffed ping ≡ ping_bytes
unfolding unstuffed ctrl_byte crc16_ccitt_false crc_byte crc_bits crc_bit
unstuffed-ping = refl

ping_wire :
    encode_frame ping max_wire
    ≡ (ok, 0x7e ∷ 3 ∷ 0 ∷ 0x52 ∷ 3 ∷ 0x7d ∷ 0x5e ∷ 0x01 ∷ 0x7d ∷ 0x5d ∷ 0x23 ∷ 0xbc ∷ 0x7e ∷ [])
unfolding encode_frame ctrl_byte crc16_ccitt_false crc_byte crc_bits crc_bit
ping_wire = refl

refusals :
    (encode_frame (record ping { len = 65 }) 500 ≡ (payload_too_long, []))
    × (encode_frame (record ping { dst = 0xff }) 500 ≡ (reserved_address, []))
    × (encode_frame ping 19 ≡ (buffer_too_small, []))
unfolding encode_frame
refusals = (refl, refl, refl)

crc_detects_example :
    crc16_ccitt_false (1 ∷ 2 ∷ []) crc_init ≢ crc16_ccitt_false (1 ∷ 3 ∷ []) crc_init
crc_detects_example =
    crc_detects crc_init (there (here (omega arith))) (omega arith) (omega arith) (omega arith)

abbrev noise : Bytes
noise = 0x7e ∷ 5 ∷ 0x7d ∷ []

feed_all-encode_frame_example : feed_all (encode_frame ping max_wire).1 new_deframer ≡ (
  after_delivery (feed flag_byte new_deframer).0,
  cons_some (feed flag_byte new_deframer).1 (on_wire ping ∷ []),
)
feed_all-encode_frame_example =
    feed_all-encode_frame ping max_wire new_deframer ping-IsFields ping_ok

feed_all_resynchronises_example :
    (feed_all (noise ++ (encode_frame ping max_wire).1) new_deframer).1
    ≡ (feed_all (noise ++ flag_byte ∷ []) new_deframer).1 ++ on_wire ping ∷ []
feed_all_resynchronises_example =
    feed_all_resynchronises noise ping max_wire new_deframer ping-IsFields ping_ok

feed_all-stream_example :
    (feed_all (wire_frames (ping ∷ pong ∷ [])) new_deframer).1 ≡ ping ∷ pong ∷ []
feed_all-stream_example =
    feed_all-stream (ping ∷ pong ∷ []) ((ping-IsFields, ping_ok), ((pong-IsFields, pong_ok), tt))

abbrev received : Bytes → Deframer
received bs = record { state = in_frame; buf = bs; stats = no_stats }

-- The first payload byte has lost a bit.
abbrev damaged : Bytes
damaged = 3 ∷ 0 ∷ 0x52 ∷ 3 ∷ 0x7c ∷ 0x01 ∷ 0x7d ∷ 0x23 ∷ 0xbc ∷ []

damaged-Corrupted : Corrupted (unstuffed ping) damaged
damaged-Corrupted = rw unstuffed-ping (there (there (there (there (here (omega arith))))))

feed-Corrupted_example : (feed flag_byte (received damaged)).1 ≡ none
feed-Corrupted_example =
    feed-Corrupted ping max_wire (received damaged) ping-IsFields ping_ok refl (omega arith)
      damaged-Corrupted

new-IsValid : IsValid new_deframer
new-IsValid = record { bounded = omega arith; bytes = tt; idle = inr refl }

received-IsValid : IsValid (received ping_bytes)
received-IsValid = record { bounded = omega arith; bytes = omega arith; idle = inl (λ e. cc) }

feed_all-IsValid_example : IsValid (feed_all noise new_deframer).0
feed_all-IsValid_example = feed_all-IsValid noise new_deframer (omega arith) new-IsValid

feed-received : (feed flag_byte (received ping_bytes)).1 ≡ some ping
unfolding feed crc16_ccitt_false crc_byte crc_bits crc_bit
feed-received = refl

feed_all-encode_delivered_example :
    ((encode_frame ping max_wire).0 ≡ ok)
    × ((feed_all (encode_frame ping max_wire).1 new_deframer).1 ≡ ping ∷ [])
feed_all-encode_delivered_example =
    feed_all-encode_delivered flag_byte (received ping_bytes) ping received-IsValid feed-received
