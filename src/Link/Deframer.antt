-- ===== src/Link/Deframer.antt =====
-- link/frame.hpp and link/frame.cpp, class Deframer: the byte-at-a-time parser of trunk frames.
pub mod RoundTrip
pub mod Invariant
pub mod Corruption
pub mod Stream
use omgp.Base.{
  ℕ, ◌+◌, ◌-◌, ◌*◌, ◌/◌, ◌^◌, not, List, [], ◌∷◌, ◌++◌, Option, none, some, ltb, leb, ◌==◌,
  if◌then◌else◌, bit_and, bit_or, bit_xor, Bytes, length, get_or, take, drop,
}
use omgp.Base.Words.{u8, u16, inc32}
use omgp.Protocol.{flag_byte, escape_byte, escape_xor}
use omgp.Link.Crc.{crc16_ccitt_false, crc_init}
use omgp.Link.Types.{
  header_len, crc_len, max_unstuffed, FrameFields, Discard, bad_crc, bad_length, bad_escape,
  too_long, reserved_dst, DeframerStats,
}

pub data DeframerState : Type 0 where
  hunting in_frame escaped : DeframerState

-- `buf` holds the first `len_` bytes of the accumulator; what lies above them is never read.
pub record Deframer : Type 0 where
  pub state : DeframerState
  pub buf : Bytes
  pub stats : DeframerStats

abbrev pub no_stats : DeframerStats
no_stats = record {
  delivered = 0;
  bad_crcs = 0;
  bad_lengths = 0;
  bad_escapes = 0;
  too_longs = 0;
  reserved_dsts = 0;
}

abbrev pub new_deframer : Deframer
new_deframer = record { state = hunting; buf = []; stats = no_stats }

pub reset : Deframer → Deframer
reset d = record d { state = hunting; buf = [] }

-- stats_.discarded[reason]++
unfoldable pub count_discard : Discard → DeframerStats → DeframerStats
count_discard bad_crc s = record s { bad_crcs = inc32 s.bad_crcs }
count_discard bad_length s = record s { bad_lengths = inc32 s.bad_lengths }
count_discard bad_escape s = record s { bad_escapes = inc32 s.bad_escapes }
count_discard too_long s = record s { too_longs = inc32 s.too_longs }
count_discard reserved_dst s = record s { reserved_dsts = inc32 s.reserved_dsts }

abbrev discard : Discard → Deframer → Deframer
discard why d = record d { stats = count_discard why d.stats }

append : ℕ → Deframer → Deframer
append byte d =
    if leb max_unstuffed (length d.buf)
    then record d { stats = count_discard too_long d.stats; state = hunting; buf = [] }
    else record d { buf = d.buf ++ byte ∷ [] }

-- An abort by `append` wins over the way back into the frame.
resume : DeframerState → Deframer → Deframer
resume hunting d = d
resume _ d = record d { state = in_frame }

on_escaped_byte : ℕ → Deframer → Deframer
unfolding append resume
on_escaped_byte byte d =
    if byte == u8 (bit_xor flag_byte escape_xor)
    then (let d' = append flag_byte d in resume d'.state d')
    else if byte == u8 (bit_xor escape_byte escape_xor)
    then (let d' = append escape_byte d in resume d'.state d')
    else record d { stats = count_discard bad_escape d.stats; state = hunting; buf = [] }

-- What the bytes of one closed accumulation amount to.
pub data Verdict : Type 0 where
  empty : Verdict
  discards : Discard → Verdict
  delivers : FrameFields → Verdict

pub expected_crc : Bytes → ℕ
expected_crc buf =
    let n = length buf in
    u16 (bit_or (get_or buf (n - crc_len) 0) (get_or buf (n - crc_len + 1) 0 * 2 ^ 8))

pub actual_crc : Bytes → ℕ
actual_crc buf = crc16_ccitt_false (take (length buf - crc_len) buf) crc_init

pub decoded_fields : Bytes → FrameFields
decoded_fields buf =
    let ctrl = get_or buf 2 0 in
    record {
      dst = get_or buf 0 0;
      src = get_or buf 1 0;
      response = not (bit_and ctrl 0x01 == 0);
      retry = not (bit_and ctrl 0x02 == 0);
      seq = u8 (bit_and (ctrl / 2 ^ 4) 0x0f);
      len = get_or buf 3 0;
      payload = take (get_or buf 3 0) (drop header_len buf);
    }

-- The checks of on_flag() on the closed accumulation, in their order.
unfoldable pub inspect : Bytes → Verdict
unfolding expected_crc actual_crc decoded_fields
inspect buf =
    let n = length buf in
    if n == 0
    then empty
    else if ltb n (header_len + crc_len)
    then discards bad_length
    else if not (get_or buf 3 0 == n - (header_len + crc_len))
    then discards bad_length
    else if not (actual_crc buf == expected_crc buf)
    then discards bad_crc
    else if get_or buf 0 0 == 0xff
    then discards reserved_dst
    else delivers (decoded_fields buf)

conclude : Verdict → Deframer → Deframer × Option FrameFields
conclude empty d = (d, none)
conclude (discards why) d = (discard why d, none)
conclude (delivers f) d =
    (record d { stats = record (d.stats) { delivered = inc32 d.stats.delivered } }, some f)

on_flag : DeframerState → Deframer → Deframer × Option FrameFields
unfolding conclude
on_flag escaped d =
    (record d { stats = count_discard bad_escape d.stats; state = in_frame; buf = [] }, none)
on_flag _ d = conclude (inspect d.buf) (record d { buf = []; state = in_frame })

feed_in : DeframerState → ℕ → Deframer → Deframer
unfolding on_escaped_byte append
feed_in hunting byte d = d
feed_in escaped byte d = on_escaped_byte byte d
feed_in in_frame byte d =
    if byte == escape_byte then record d { state = escaped } else append byte d

-- The frame is there exactly when the source returns true.
unfoldable pub feed : ℕ → Deframer → Deframer × Option FrameFields
unfolding on_flag feed_in inspect
feed byte d = if byte == flag_byte then on_flag d.state d else (feed_in d.state byte d, none)

abbrev pub cons_some : Option FrameFields → List FrameFields → List FrameFields
cons_some none fs = fs
cons_some (some f) fs = f ∷ fs

-- A stretch of the byte stream, with the frames that it delivers in order.
unfoldable pub feed_all : Bytes → Deframer → Deframer × List FrameFields
feed_all [] d = (d, [])
feed_all (b ∷ bs) d =
    let (d', out) = feed b d in let (d'', fs) = feed_all bs d' in (d'', cons_some out fs)
