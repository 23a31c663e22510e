-- ===== src/Link/Frame/Bounds.antt =====
-- The size and the shape of what encode_frame() of link/frame.cpp writes.
use omgp.Base.{
  ℕ, ◌+◌, ◌*◌, ◌≤◌, ◌<◌, ◌≡◌, ◌≢◌, ◌⊎◌, [], ◌∷◌, ◌++◌, arith, Bytes, length, length-append,
  length-take, All, All-append, IsBytes, All-take,
}
use omgp.Protocol.{flag_byte, max_l3_message}
use omgp.Link.Crc.{crc16_ccitt_false, crc_init}
use omgp.Link.Frame.{
  header_and_payload, crc_bytes, unstuffed, stuff_byte, stuff, wire_frame, encode_frame, needed,
}
use omgp.Link.Frame.Fields.{IsFields, crc_bytes-IsBytes, ctrl_byte_lt}
use omgp.Link.Types.{
  FrameFields, ok, payload_too_long, reserved_address, buffer_too_small, max_wire,
}

pub length-header_and_payload :
    (f : FrameFields) → IsFields f → length (header_and_payload f) ≡ 4 + f.len
unfolding header_and_payload
length-header_and_payload f v = omega (arith, length-take f.len f.payload, v.payload_len)

pub length-unstuffed : (f : FrameFields) → IsFields f → length (unstuffed f) ≡ 6 + f.len
unfolding unstuffed
length-unstuffed f v = omega (
  arith,
  length-append (header_and_payload f)
      (crc_bytes (crc16_ccitt_false (header_and_payload f) crc_init)),
  length-header_and_payload f v,
)

length-stuff_byte : (b : ℕ) → length (stuff_byte b) ≤ 2
unfolding stuff_byte
length-stuff_byte b = ground arith

pub length-stuff-le : (bs : Bytes) → length (stuff bs) ≤ 2 * length bs
unfolding stuff
length-stuff-le [] = omega arith
length-stuff-le (b ∷ bs) =
    omega (arith, length-append (stuff_byte b) (stuff bs), length-stuff_byte b, length-stuff-le bs)

pub unstuffed-IsBytes : (f : FrameFields) → IsFields f → IsBytes (unstuffed f)
unfolding unstuffed header_and_payload
unstuffed-IsBytes f v =
    let c = crc16_ccitt_false (header_and_payload f) crc_init in
    All-append (λ b. b < 256) (header_and_payload f) (crc_bytes c)
      (
        v.dst_lt,
        (
          v.src_lt,
          (ctrl_byte_lt f, (v.len_lt, All-take (λ b. b < 256) f.len f.payload v.payload_bytes)),
        ),
      )
      (crc_bytes-IsBytes c)

length-wire_frame-le : (f : FrameFields) → IsFields f → length (wire_frame f) ≤ needed f.len
unfolding wire_frame
length-wire_frame-le f v = omega (
  arith,
  length-append (stuff (unstuffed f)) (flag_byte ∷ []),
  length-stuff-le (unstuffed f),
  length-unstuffed f v,
)

-- Whatever the fields are, no more is written than the caller's room, and than the longest frame.
pub encode_frame_fits :
    (f : FrameFields) (cap : ℕ)
    → IsFields f
    → (length (encode_frame f cap).1 ≤ cap) × (length (encode_frame f cap).1 ≤ max_wire)
unfolding encode_frame
encode_frame_fits f cap v = ground (arith, length-wire_frame-le f v)

-- Each outcome of the encoder with the condition that leads to it.
pub encode_frame_cases :
    (f : FrameFields) (cap : ℕ)
    → ((encode_frame f cap ≡ (ok, wire_frame f))
        × (f.len ≤ max_l3_message)
        × (f.dst ≢ 0xff)
        × (needed f.len ≤ cap))
      ⊎ ((encode_frame f cap ≡ (payload_too_long, [])) × (max_l3_message < f.len))
      ⊎ ((encode_frame f cap ≡ (reserved_address, [])) × (f.dst ≡ 0xff))
      ⊎ ((encode_frame f cap ≡ (buffer_too_small, [])) × (cap < needed f.len))
unfolding encode_frame
encode_frame_cases f cap = ground arith

abbrev pub NotFlag : ℕ → Type 0
NotFlag b = b ≢ flag_byte

stuff_byte-NotFlag : (b : ℕ) → All NotFlag (stuff_byte b)
unfolding stuff_byte
stuff_byte-NotFlag b = ground arith

stuff-NotFlag : (bs : Bytes) → All NotFlag (stuff bs)
unfolding stuff
stuff-NotFlag [] = tt
stuff-NotFlag (b ∷ bs) =
    All-append NotFlag (stuff_byte b) (stuff bs) (stuff_byte-NotFlag b) (stuff-NotFlag bs)

-- What the encoder writes is delimited by two FLAG bytes, and holds no other.
pub encode_frame_delimited :
    (f : FrameFields) (cap : ℕ)
    → (encode_frame f cap).0 ≡ ok
    → (body : Bytes) × ((encode_frame f cap).1 ≡ flag_byte ∷ (body ++ flag_byte ∷ []))
      × All NotFlag body
unfolding encode_frame
encode_frame_delimited f cap h = (stuff (unstuffed f), ground arith, stuff-NotFlag (unstuffed f))

pub encode_frame_ok :
    (f : FrameFields) (cap : ℕ)
    → (encode_frame f cap).0 ≡ ok
    → ((encode_frame f cap).1 ≡ wire_frame f) × (f.len ≤ max_l3_message) × (f.dst ≢ 0xff)
encode_frame_ok f cap h = ground (arith, encode_frame_cases f cap)
