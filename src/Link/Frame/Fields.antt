-- ===== src/Link/Frame/Fields.antt =====
-- The bytes of link/frame.cpp that pack several values, read back as on_flag() reads them.
use omgp.Base.{
  ℕ, ◌*◌, ◌/◌, ◌%◌, ◌^◌, ◌<◌, ◌≡◌, refl, sym, Bool, true, false, not, ◌&&◌, ◌==◌, ==_iff,
  if◌then◌else◌, bit_and, bit_or, [], ◌∷◌, arith, length, IsBytes,
}
use omgp.Base.Bits.{each_below, each_below→true}
use omgp.Base.Words.{u8, u16}
use omgp.Link.Frame.{ctrl_byte, crc_bytes}
use omgp.Link.Types.{FrameFields}

-- The values that the source's types allow, with a payload of the stated length.
pub record IsFields (f : FrameFields) : Type 0 where
  pub dst_lt : f.dst < 256
  pub src_lt : f.src < 256
  pub seq_lt : f.seq < 256
  pub len_lt : f.len < 256
  pub payload_bytes : IsBytes f.payload
  pub payload_len : length f.payload ≡ f.len

-- The frame that arrives: the wire carries four bits of the sequence number.
abbrev pub on_wire : FrameFields → FrameFields
on_wire f = record f { seq = f.seq % 16 }

abbrev ctrl_of : Bool → Bool → ℕ → ℕ
ctrl_of response retry seq = u8 (
    bit_or (bit_or (if response then 0x01 else 0x00) (if retry then 0x02 else 0x00))
      (u8 (bit_and seq 0x0f * 2 ^ 4)))

bool_eq : Bool → Bool → Bool
bool_eq true b = b
bool_eq false b = not b

bool_eq→eq : (a b : Bool) → bool_eq a b ≡ true → a ≡ b
unfolding bool_eq
bool_eq→eq true true h = refl
bool_eq→eq true false h = sym h
bool_eq→eq false true h = h
bool_eq→eq false false h = refl

ctrl_reads_back : Bool → Bool → ℕ → Bool
unfolding bool_eq
ctrl_reads_back response retry seq =
    let ctrl = ctrl_of response retry seq in
    bool_eq (not (bit_and ctrl 0x01 == 0)) response
    && (bool_eq (not (bit_and ctrl 0x02 == 0)) retry
        && (u8 (bit_and (ctrl / 2 ^ 4) 0x0f) == seq % 16))

ctrl_table : (response retry : Bool) → each_below (ctrl_reads_back response retry) 256 ≡ true
unfolding each_below ctrl_reads_back
ctrl_table true true = refl
ctrl_table true false = refl
ctrl_table false true = refl
ctrl_table false false = refl

&&-left : (a b : Bool) → (a && b) ≡ true → a ≡ true
&&-left true b h = refl
&&-left false b h = h

&&-right : (a b : Bool) → (a && b) ≡ true → b ≡ true
&&-right true b h = h
&&-right false b h = ground arith

module _ (f : FrameFields) (h : f.seq < 256) where
  reads_back : ctrl_reads_back f.response f.retry f.seq ≡ true
  reads_back = each_below→true _ (ctrl_table f.response f.retry) h

  pub ctrl_byte-response : not (bit_and (ctrl_byte f) 0x01 == 0) ≡ f.response
  unfolding ctrl_byte ctrl_reads_back
  ctrl_byte-response = bool_eq→eq _ _ (&&-left _ _ reads_back)

  pub ctrl_byte-retry : not (bit_and (ctrl_byte f) 0x02 == 0) ≡ f.retry
  unfolding ctrl_byte ctrl_reads_back
  ctrl_byte-retry = bool_eq→eq _ _ (&&-left _ _ (&&-right _ _ reads_back))

  pub ctrl_byte-seq : u8 (bit_and (ctrl_byte f / 2 ^ 4) 0x0f) ≡ f.seq % 16
  unfolding ctrl_byte ctrl_reads_back
  ctrl_byte-seq = (==_iff _ _).0 (&&-right _ _ (&&-right _ _ reads_back))

pub ctrl_byte_lt : (f : FrameFields) → ctrl_byte f < 256
unfolding ctrl_byte
ctrl_byte_lt f = omega arith

pub crc_lo : ℕ → ℕ
crc_lo c = u8 (bit_and c 0xff)

pub crc_hi : ℕ → ℕ
crc_hi c = u8 (bit_and (c / 2 ^ 8) 0xff)

pub length-crc_bytes : (c : ℕ) → length (crc_bytes c) ≡ 2
unfolding crc_bytes
length-crc_bytes c = refl

pub crc_bytes_lem : (c : ℕ) → crc_bytes c ≡ crc_lo c ∷ crc_hi c ∷ []
unfolding crc_bytes crc_lo crc_hi
crc_bytes_lem c = refl

pub crc_bytes-IsBytes : (c : ℕ) → IsBytes (crc_bytes c)
unfolding crc_bytes
crc_bytes-IsBytes c = omega arith

crc_table : each_below (λ c. u16 (bit_or (crc_lo c) (crc_hi c * 2 ^ 8)) == c) 0x10000 ≡ true
unfolding each_below crc_lo crc_hi
crc_table = refl

-- The two bytes put together are the checksum.
pub crc_joined : (c : ℕ) → c < 2 ^ 16 → u16 (bit_or (crc_lo c) (crc_hi c * 2 ^ 8)) ≡ c
crc_joined c h = (==_iff _ c).0 (each_below→true _ crc_table h)
