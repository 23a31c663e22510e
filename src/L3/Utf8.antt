-- ===== src/L3/Utf8.antt =====
-- l3/l3_utf8.hpp: the check that a string is well-formed UTF-8.
pub mod WellFormed
use omgp.Base.{
  ℕ, zero, suc, ◌-◌, Bool, true, false, ◌&&◌, ◌||◌, List, [], ◌∷◌, Option, none, some, ltb, leb,
  ◌==◌, if◌then◌else◌, Bytes, length, get_or, drop,
}

abbrev pub cont_lo : ℕ
cont_lo = 0x80

abbrev pub cont_hi : ℕ
cont_hi = 0xbf

-- The length of a sequence and the range of its second byte, by its first byte; `none` is the end
-- with false.
pub record Lead : Type 0 where
  pub len : ℕ
  pub lo : ℕ
  pub hi : ℕ

unfoldable pub lead : ℕ → Option Lead
lead c =
    if leb 0xc2 c && leb c 0xdf
    then some (record { len = 2; lo = cont_lo; hi = cont_hi })
    else if c == 0xe0
    then some (record { len = 3; lo = 0xa0; hi = cont_hi })
    else if ltb 0xe0 c && leb c 0xec
    then some (record { len = 3; lo = cont_lo; hi = cont_hi })
    else if c == 0xed
    then some (record { len = 3; lo = cont_lo; hi = 0x9f })
    else if ltb 0xed c && leb c 0xef
    then some (record { len = 3; lo = cont_lo; hi = cont_hi })
    else if c == 0xf0
    then some (record { len = 4; lo = 0x90; hi = cont_hi })
    else if ltb 0xf0 c && leb c 0xf3
    then some (record { len = 4; lo = cont_lo; hi = cont_hi })
    else if c == 0xf4
    then some (record { len = 4; lo = cont_lo; hi = 0x8f })
    else none

-- The first `k` bytes are continuation bytes.
unfoldable pub continues : ℕ → Bytes → Bool
continues zero s = true
continues (suc k) s =
    let rest = continues k (drop 1 s) in
    if ltb (get_or s 0 0) cont_lo || ltb cont_hi (get_or s 0 0) then false else rest

-- One sequence at the front of a string that is not empty: by how much the loop goes on.
unfoldable pub sequence : Bytes → Option ℕ
sequence s = if ltb (get_or s 0 0) 0x80 then some 1 else elim (lead (get_or s 0 0)) [
  | none ↦ none
  | some l ↦
      if ltb (length s) l.len
      then none
      else if ltb (get_or s 1 0) l.lo || ltb l.hi (get_or s 1 0)
      then none
      else if continues (l.len - 2) (drop 2 s)
      then some l.len
      else none
]

-- The loop on a number of rounds, of which each goes on by a byte at least.
unfoldable pub valid_from : ℕ → Bytes → Bool
valid_from n [] = true
valid_from zero (c ∷ s) = false
valid_from (suc n) (c ∷ s) = elim (sequence (c ∷ s)) [
  | none ↦ false
  | some len ↦ valid_from n (drop len (c ∷ s))
]

unfoldable pub utf8_valid : Bytes → Bool
utf8_valid s = valid_from (length s) s
