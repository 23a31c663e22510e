-- ===== src/Link/Crc/Detects.antt =====
-- What the checksum of link/crc16.hpp catches: its loop never sends two states to one.
use omgp.Base.{
  ℕ, zero, suc, ◌+◌, ◌*◌, ◌/◌, ◌%◌, ◌^◌, ◌<◌, ◌≡◌, ◌≢◌, refl, sym, ap, ◌∙◌, true, [], ◌∷◌, arith,
  ◌==◌, ==_iff, if◌then◌else◌, bit_xor, Bytes, IsBytes, length, take, drop, ◌⊎◌, inl, inr,
}
use omgp.Base.Words.{u16}
use omgp.Base.Bits.{
  each_below, each_below→true, bit_xor_lt, bit_xor-injective_left, bit_xor-injective_right,
}
use omgp.Link.Crc.{crc_bit, crc_bits, crc_byte, crc16_ccitt_false}

-- The state before a round of the inner loop: the lowest bit tells whether the polynomial, which
-- is odd, was put in.
uncrc_bit : ℕ → ℕ
uncrc_bit x = if x % 2 == 0 then x / 2 else bit_xor x 0x1021 / 2 + 0x8000

uncrc_table : each_below (λ x. uncrc_bit (crc_bit x) == x) 0x10000 ≡ true
unfolding each_below uncrc_bit crc_bit
uncrc_table = refl

uncrc_bit-crc_bit : (x : ℕ) → x < 2 ^ 16 → uncrc_bit (crc_bit x) ≡ x
uncrc_bit-crc_bit x h = (==_iff _ x).0 (each_below→true _ uncrc_table h)

crc_bit_lt : (x : ℕ) → crc_bit x < 2 ^ 16
unfolding crc_bit
crc_bit_lt x = ground arith

crc_bits_lt : (n x : ℕ) → x < 2 ^ 16 → crc_bits n x < 2 ^ 16
unfolding crc_bits
crc_bits_lt zero x h = h
crc_bits_lt (suc n) x h = crc_bits_lt n (crc_bit x) (crc_bit_lt x)

crc_bit-injective : (x y : ℕ) → x < 2 ^ 16 → y < 2 ^ 16 → crc_bit x ≡ crc_bit y → x ≡ y
crc_bit-injective x y h k e = sym (uncrc_bit-crc_bit x h) ∙ ap uncrc_bit e ∙ uncrc_bit-crc_bit y k

crc_bits-injective : (n x y : ℕ) → x < 2 ^ 16 → y < 2 ^ 16 → crc_bits n x ≡ crc_bits n y → x ≡ y
unfolding crc_bits
crc_bits-injective zero x y h k e = e
crc_bits-injective (suc n) x y h k e =
    crc_bit-injective x y h k
      (crc_bits-injective n (crc_bit x) (crc_bit y) (crc_bit_lt x) (crc_bit_lt y) e)

fed : ℕ → ℕ → ℕ
fed crc d = u16 (bit_xor crc (d * 2 ^ 8))

fed_eq : (crc d : ℕ) → crc < 2 ^ 16 → d < 256 → fed crc d ≡ bit_xor crc (d * 2 ^ 8)
unfolding fed
fed_eq crc d h k = omega (arith, bit_xor_lt 16 crc (d * 2 ^ 8) h (omega arith))

pub crc_byte_lt : (crc d : ℕ) → crc_byte crc d < 2 ^ 16
unfolding crc_byte
crc_byte_lt crc d = crc_bits_lt 8 _ (omega arith)

-- A byte changes the state in 256 ways.
crc_byte-injective_byte :
    (crc d e : ℕ) → crc < 2 ^ 16 → d < 256 → e < 256 → crc_byte crc d ≡ crc_byte crc e → d ≡ e
unfolding crc_byte fed
crc_byte-injective_byte crc d e h hd he p =
    let same : fed crc d ≡ fed crc e =
      crc_bits-injective 8 (fed crc d) (fed crc e) (omega arith) (omega arith) p in
    let high : d * 2 ^ 8 ≡ e * 2 ^ 8 =
      bit_xor-injective_right crc (d * 2 ^ 8) (e * 2 ^ 8)
        (sym (fed_eq crc d h hd) ∙ same ∙ fed_eq crc e h he) in
    omega arith

-- A byte keeps two states apart.
crc_byte-injective_crc :
    (x y d : ℕ) → x < 2 ^ 16 → y < 2 ^ 16 → d < 256 → crc_byte x d ≡ crc_byte y d → x ≡ y
unfolding crc_byte fed
crc_byte-injective_crc x y d hx hy hd p =
    let same : fed x d ≡ fed y d =
      crc_bits-injective 8 (fed x d) (fed y d) (omega arith) (omega arith) p in
    bit_xor-injective_left x y (d * 2 ^ 8) (sym (fed_eq x d hx hd) ∙ same ∙ fed_eq y d hy hd)

pub crc_lt : (ds : Bytes) (crc : ℕ) → crc < 2 ^ 16 → crc16_ccitt_false ds crc < 2 ^ 16
unfolding crc16_ccitt_false
crc_lt [] crc h = h
crc_lt (d ∷ ds) crc h = crc_lt ds (crc_byte crc d) (crc_byte_lt crc d)

crc-injective_crc :
    (ds : Bytes) (x y : ℕ)
    → x < 2 ^ 16
    → y < 2 ^ 16
    → IsBytes ds
    → crc16_ccitt_false ds x ≡ crc16_ccitt_false ds y
    → x ≡ y
unfolding crc16_ccitt_false
crc-injective_crc [] x y hx hy b e = e
crc-injective_crc (d ∷ ds) x y hx hy b e =
    crc_byte-injective_crc x y d hx hy b.0
      (crc-injective_crc ds (crc_byte x d) (crc_byte y d) (crc_byte_lt x d) (crc_byte_lt y d) b.1 e)

-- Two byte sequences of one length that differ in exactly one byte.
pub data Corrupted : Bytes → Bytes → Type 0 where
  here : {x y : ℕ} {bs : Bytes} → x ≢ y → Corrupted (x ∷ bs) (y ∷ bs)
  there : {b : ℕ} {bs cs : Bytes} → Corrupted bs cs → Corrupted (b ∷ bs) (b ∷ cs)

-- Two byte sequences that differ in exactly one byte have different checksums, wherever that byte
-- stands and whatever the start value.
pub crc_detects :
    {bs cs : Bytes} (crc : ℕ)
    → Corrupted bs cs
    → IsBytes bs
    → IsBytes cs
    → crc < 2 ^ 16
    → crc16_ccitt_false bs crc ≢ crc16_ccitt_false cs crc
unfolding crc16_ccitt_false
crc_detects crc (here {x} {y} {bs} ne) hb hc h e = ne (
    crc_byte-injective_byte crc x y h hb.0 hc.0 (
      crc-injective_crc bs (crc_byte crc x) (crc_byte crc y) (crc_byte_lt crc x) (crc_byte_lt crc y)
        hb.1 e))
crc_detects crc (there {b} c) hb hc h e =
    crc_detects (crc_byte crc b) c hb.1 hc.1 (crc_byte_lt crc b) e

-- The byte that differs stands before a place or behind it.
pub Corrupted-split :
    {bs cs : Bytes} (n : ℕ)
    → Corrupted bs cs
    → (Corrupted (take n bs) (take n cs) × (drop n bs ≡ drop n cs))
      ⊎ ((take n bs ≡ take n cs) × Corrupted (drop n bs) (drop n cs))
Corrupted-split zero c = inr (refl, c)
Corrupted-split (suc n) (here ne) = inl (here ne, refl)
Corrupted-split (suc n) (there {b} c) = elim (Corrupted-split n c) [
  | inl (t, d) ↦ inl (there t, d)
  | inr (t, d) ↦ inr (ap (◌∷◌ b) t, d)
]

pub length-Corrupted : {bs cs : Bytes} → Corrupted bs cs → length bs ≡ length cs
length-Corrupted (here ne) = refl
length-Corrupted (there c) = ap suc (length-Corrupted c)

pub pos-length-Corrupted : {bs cs : Bytes} → Corrupted bs cs → 0 < length bs
pos-length-Corrupted (here ne) = omega arith
pos-length-Corrupted (there c) = omega arith
