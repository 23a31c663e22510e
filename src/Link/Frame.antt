-- ===== src/Link/Frame.antt =====
-- link/frame.cpp, encode_frame: fields into a FLAG-delimited, byte-stuffed wire frame.
pub mod Fields
pub mod Bounds
use omgp.Base.{
  ℕ, ◌+◌, ◌*◌, ◌/◌, ◌^◌, [], ◌∷◌, ◌++◌, ltb, ◌==◌, if◌then◌else◌, bit_and, bit_or, bit_xor, Bytes,
  take,
}
use omgp.Base.Words.{u8}
use omgp.Protocol.{max_l3_message, flag_byte, escape_byte, escape_xor}
use omgp.Link.Crc.{crc16_ccitt_false, crc_init}
use omgp.Link.Types.{
  LinkStatus, ok, payload_too_long, reserved_address, buffer_too_small, header_len, crc_len,
  FrameFields,
}

-- The third byte: response and retry bits below the sequence number.
unfoldable pub ctrl_byte : FrameFields → ℕ
ctrl_byte f = u8 (
    bit_or (bit_or (if f.response then 0x01 else 0x00) (if f.retry then 0x02 else 0x00))
      (u8 (bit_and f.seq 0x0f * 2 ^ 4)))

-- dst src ctrl len payload[len].
unfoldable pub header_and_payload : FrameFields → Bytes
header_and_payload f = f.dst ∷ f.src ∷ ctrl_byte f ∷ f.len ∷ take f.len f.payload

pub crc_bytes : ℕ → Bytes
crc_bytes c = u8 (bit_and c 0xff) ∷ u8 (bit_and (c / 2 ^ 8) 0xff) ∷ []

-- The array `unstuffed`.
unfoldable pub unstuffed : FrameFields → Bytes
unfolding header_and_payload crc_bytes
unstuffed f =
    let covered = header_and_payload f in covered ++ crc_bytes (crc16_ccitt_false covered crc_init)

unfoldable pub stuff_byte : ℕ → Bytes
stuff_byte b =
    if b == flag_byte
    then escape_byte ∷ u8 (bit_xor flag_byte escape_xor) ∷ []
    else if b == escape_byte
    then escape_byte ∷ u8 (bit_xor escape_byte escape_xor) ∷ []
    else b ∷ []

unfoldable pub stuff : Bytes → Bytes
unfolding stuff_byte
stuff [] = []
stuff (b ∷ bs) = stuff_byte b ++ stuff bs

unfoldable pub wire_frame : FrameFields → Bytes
unfolding unstuffed stuff
wire_frame f = flag_byte ∷ (stuff (unstuffed f) ++ flag_byte ∷ [])

-- The room that the encoder asks for, whatever the bytes are.
abbrev pub needed : ℕ → ℕ
needed len = 2 + 2 * (header_len + len + crc_len)

-- The status, and the `written` first bytes of `out`.
unfoldable pub encode_frame : FrameFields → ℕ → LinkStatus × Bytes
unfolding wire_frame
encode_frame f cap =
    if ltb max_l3_message f.len
    then (payload_too_long, [])
    else if f.dst == 0xff
    then (reserved_address, [])
    else if ltb cap (needed f.len)
    then (buffer_too_small, [])
    else (ok, wire_frame f)
