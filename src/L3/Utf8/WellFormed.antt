-- ===== src/L3/Utf8/WellFormed.antt =====
-- l3/l3_utf8.hpp against the definition of UTF-8: a string is valid exactly when it is the encoding
-- of some Unicode scalar values.
use omgp.Base.{
  ℕ, zero, suc, ◌+◌, ◌-◌, ◌*◌, ◌/◌, ◌%◌, ◌≤◌, ◌<◌, ◌≡◌, ◌≢◌, ◌⊎◌, inl, inr, refl, true, List, [],
  ◌∷◌, ◌++◌, some, arith, ltb, if◌then◌else◌, Bytes, length, length-append, ◌↔◌, All, drop, get_or,
  Option-cases, ◌∙◌, ap, sym,
}
use omgp.L3.Utf8.{lead, continues, sequence, valid_from, utf8_valid}

-- A code point that is no surrogate.
pub record IsScalar (c : ℕ) : Type 0 where
  pub below : c < 0x110000
  pub no_surrogate : (c < 0xd800) ⊎ (0xdfff < c)

abbrev pub encode_scalar : ℕ → Bytes
encode_scalar c =
    if ltb c 0x80
    then c ∷ []
    else if ltb c 0x800
    then (0xc0 + c / 64) ∷ (0x80 + c % 64) ∷ []
    else if ltb c 0x10000
    then (0xe0 + c / 4096) ∷ (0x80 + c / 64 % 64) ∷ (0x80 + c % 64) ∷ []
    else (0xf0 + c / 262144) ∷ (0x80 + c / 4096 % 64) ∷ (0x80 + c / 64 % 64) ∷ (0x80 + c % 64) ∷ []

pub encode_utf8 : List ℕ → Bytes
encode_utf8 [] = []
encode_utf8 (c ∷ cs) = encode_scalar c ++ encode_utf8 cs

-- The check takes an encoded scalar value as one sequence.
sequence-encode_scalar :
    (c : ℕ) (rest : Bytes)
    → IsScalar c
    → (sequence (encode_scalar c ++ rest) ≡ some (length (encode_scalar c)))
      × (drop (length (encode_scalar c)) (encode_scalar c ++ rest) ≡ rest)
unfolding sequence lead continues
sequence-encode_scalar c rest v = ground arith

-- A code point that is encoded as the given bytes.
abbrev Encodes : Bytes → Type 0
Encodes s = (c : ℕ) × IsScalar c × (encode_scalar c ≡ s)

one_byte : (a : ℕ) → a < 0x80 → Encodes (a ∷ [])
one_byte a h = (a, ground arith, ground arith)

two_bytes : (a b : ℕ) → 0xc2 ≤ a → a ≤ 0xdf → 0x80 ≤ b → b ≤ 0xbf → Encodes (a ∷ b ∷ [])
two_bytes a b h1 h2 h3 h4 = ((a - 0xc0) * 64 + (b - 0x80), ground arith, ground arith)

three_bytes :
    (a b c : ℕ)
    → 0xe0 ≤ a
    → a ≤ 0xef
    → 0x80 ≤ b
    → b ≤ 0xbf
    → 0x80 ≤ c
    → c ≤ 0xbf
    → (0xe0 < a) ⊎ (0xa0 ≤ b)
    → (a ≢ 0xed) ⊎ (b ≤ 0x9f)
    → Encodes (a ∷ b ∷ c ∷ [])
three_bytes a b c h1 h2 h3 h4 h5 h6 h7 h8 =
    ((a - 0xe0) * 4096 + (b - 0x80) * 64 + (c - 0x80), ground arith, ground arith)

four_bytes :
    (a b c d : ℕ)
    → 0xf0 ≤ a
    → a ≤ 0xf4
    → 0x80 ≤ b
    → b ≤ 0xbf
    → 0x80 ≤ c
    → c ≤ 0xbf
    → 0x80 ≤ d
    → d ≤ 0xbf
    → (0xf0 < a) ⊎ (0x90 ≤ b)
    → (a < 0xf4) ⊎ (b ≤ 0x8f)
    → Encodes (a ∷ b ∷ c ∷ d ∷ [])
four_bytes a b c d h1 h2 h3 h4 h5 h6 h7 h8 h9 h10 = (
  (a - 0xf0) * 262144 + (b - 0x80) * 4096 + (c - 0x80) * 64 + (d - 0x80),
  ground arith,
  ground arith,
)

-- A continuation byte.
abbrev IsCont : ℕ → Type 0
IsCont b = (0x80 ≤ b) × (b ≤ 0xbf)

-- What the check has found where it takes one sequence.
abbrev Found : ℕ → Bytes → Type 0
Found n s =
    let a = get_or s 0 0 in
    let b = get_or s 1 0 in
    ((n ≡ 1) × (a < 0x80))
    ⊎ ((n ≡ 2) × (2 ≤ length s) × (0xc2 ≤ a) × (a ≤ 0xdf) × IsCont b)
    ⊎ ((n ≡ 3)
        × (3 ≤ length s)
        × (0xe0 ≤ a)
        × (a ≤ 0xef)
        × IsCont b
        × IsCont (get_or s 2 0)
        × ((0xe0 < a) ⊎ (0xa0 ≤ b))
        × ((a ≢ 0xed) ⊎ (b ≤ 0x9f)))
    ⊎ ((n ≡ 4)
        × (4 ≤ length s)
        × (0xf0 ≤ a)
        × (a ≤ 0xf4)
        × IsCont b
        × IsCont (get_or s 2 0)
        × IsCont (get_or s 3 0)
        × ((0xf0 < a) ⊎ (0x90 ≤ b))
        × ((a < 0xf4) ⊎ (b ≤ 0x8f)))

get_or-drop_two : (i : ℕ) (s : Bytes) → get_or (drop 2 s) i 0 ≡ get_or s (suc (suc i)) 0
get_or-drop_two i [] = refl
get_or-drop_two i (a ∷ []) = refl
get_or-drop_two i (a ∷ b ∷ s) = refl

get_or-drop_three :
    (i : ℕ) (s : Bytes) → get_or (drop 1 (drop 2 s)) i 0 ≡ get_or s (suc (suc (suc i))) 0
get_or-drop_three i [] = refl
get_or-drop_three i (a ∷ []) = refl
get_or-drop_three i (a ∷ b ∷ []) = refl
get_or-drop_three i (a ∷ b ∷ c ∷ s) = refl

sequence-Found : (s : Bytes) (n : ℕ) → sequence s ≡ some n → Found n s
unfolding sequence lead continues
sequence-Found s n h = ground (arith, get_or-drop_two 0 s, get_or-drop_three 0 s)

-- The first `n` bytes encode a scalar value.
abbrev Splits : ℕ → Bytes → Type 0
Splits n s = (c : ℕ) × IsScalar c × (encode_scalar c ++ drop n s ≡ s)

Found-Splits : (n a : ℕ) (s : Bytes) → Found n (a ∷ s) → Splits n (a ∷ s)
Found-Splits n a s (inl (e, h)) = let (c, v, same) = one_byte a h in rw e (c, v, rw same refl)
Found-Splits n a [] (inr (inl (e, k, h1, h2, h3))) = absurd (omega arith)
Found-Splits n a (b ∷ s) (inr (inl (e, k, h1, h2, h3))) =
    let (c, v, same) = two_bytes a b h1 h2 h3.0 h3.1 in rw e (c, v, rw same refl)
Found-Splits n a [] (inr (inr (inl (e, k, h1, h2, h3, h4, h5, h6)))) = absurd (omega arith)
Found-Splits n a (b ∷ []) (inr (inr (inl (e, k, h1, h2, h3, h4, h5, h6)))) = absurd (omega arith)
Found-Splits n a (b ∷ d ∷ s) (inr (inr (inl (e, k, h1, h2, h3, h4, h5, h6)))) =
    let (c, v, same) = three_bytes a b d h1 h2 h3.0 h3.1 h4.0 h4.1 h5 h6 in
    rw e (c, v, rw same refl)
Found-Splits n a [] (inr (inr (inr (e, k, h1, h2, h3, h4, h5, h6, h7)))) = absurd (omega arith)
Found-Splits n a (b ∷ []) (inr (inr (inr (e, k, h1, h2, h3, h4, h5, h6, h7)))) =
    absurd (omega arith)
Found-Splits n a (b ∷ d ∷ []) (inr (inr (inr (e, k, h1, h2, h3, h4, h5, h6, h7)))) =
    absurd (omega arith)
Found-Splits n a (b ∷ d ∷ f ∷ s) (inr (inr (inr (e, k, h1, h2, h3, h4, h5, h6, h7)))) =
    let (c, v, same) = four_bytes a b d f h1 h2 h3.0 h3.1 h4.0 h4.1 h5.0 h5.1 h6 h7 in
    rw e (c, v, rw same refl)

-- A string of scalar values.
abbrev pub IsWellFormed : Bytes → Type 0
IsWellFormed s = (cs : List ℕ) × All IsScalar cs × (s ≡ encode_utf8 cs)

valid_from_sound : (n : ℕ) (s : Bytes) → valid_from n s ≡ true → IsWellFormed s
unfolding valid_from encode_utf8
valid_from_sound n [] h = ([], tt, refl)
valid_from_sound zero (a ∷ s) h = ground arith
valid_from_sound (suc n) (a ∷ s) h = elim (Option-cases (sequence (a ∷ s))) [
  | inl e ↦ ground arith
  | inr (len, e) ↦
      let (c, v, split) = Found-Splits len a s (sequence-Found (a ∷ s) len e) in
      let (cs, vs, same) = valid_from_sound n (drop len (a ∷ s)) (ground arith) in
      (c ∷ cs, (v, vs), sym split ∙ ap (λ r. encode_scalar c ++ r) same)
]

length-encode_scalar : (c : ℕ) → 1 ≤ length (encode_scalar c)
length-encode_scalar c = ground arith

valid_from_step :
    (n len : ℕ) (s : Bytes)
    → 1 ≤ length s
    → sequence s ≡ some len
    → valid_from (suc n) s ≡ valid_from n (drop len s)
unfolding valid_from
valid_from_step n len [] k e = absurd (omega arith)
valid_from_step n len (a ∷ s) k e = rw (valid_from, e) refl

valid_from_complete :
    (cs : List ℕ) (n : ℕ)
    → All IsScalar cs
    → length (encode_utf8 cs) ≤ n
    → valid_from n (encode_utf8 cs) ≡ true
unfolding encode_utf8 valid_from
valid_from_complete [] n vs k = refl
valid_from_complete (c ∷ cs) zero vs k =
    absurd (omega (arith, length-append (encode_scalar c) (encode_utf8 cs), length-encode_scalar c))
valid_from_complete (c ∷ cs) (suc n) vs k =
    let (found, gone) = sequence-encode_scalar c (encode_utf8 cs) vs.0 in
    let size = length-append (encode_scalar c) (encode_utf8 cs) in
    let some_bytes = length-encode_scalar c in
    valid_from_step n _ _ (omega arith) found
    ∙ ap (valid_from n) gone
    ∙ valid_from_complete cs n vs.1 (omega arith)

-- The check accepts a string exactly when it is the UTF-8 encoding of some Unicode scalar values: no
-- surrogates, nothing above U+10FFFF, no overlong forms, nothing cut off.
pub utf8_valid_iff : (s : Bytes) → (utf8_valid s ≡ true) ↔ IsWellFormed s
unfolding utf8_valid
utf8_valid_iff s = (
  valid_from_sound (length s) s,
  λ (cs, vs, same). rw same (valid_from_complete cs (length (encode_utf8 cs)) vs (omega arith)),
)
