-- ===== src/L3/Payload/Checks.antt =====
-- l3/l3_payload.cpp: what the codecs share.
use omgp.Base.{
  ℕ, ◌-◌, Bool, ◌&&◌, ◌||◌, List, [], ◌∷◌, ltb, leb, if◌then◌else◌, Bytes, length, take, drop,
}
use omgp.Base.Words.{u8}
use omgp.L3.Types.{L3Status, ok, truncated, length_mismatch}
use omgp.L3.Descriptor.{in_codes}
use omgp.L3.Descriptor.Records.{lo, hi}

abbrev pub put16 : ℕ → Bytes
put16 v = lo v ∷ hi v ∷ []

-- `len` bytes for a layout of `n`.
abbrev pub fixed_len : ℕ → ℕ → L3Status
fixed_len len n = if ltb len n then truncated else if ltb n len then length_mismatch else ok

abbrev pub node_state_codes : List ℕ
node_state_codes = 0 ∷ 1 ∷ 2 ∷ 3 ∷ 4 ∷ []

abbrev pub event_codes : List ℕ
event_codes = 0x00 ∷ 0x01 ∷ 0x02 ∷ 0x03 ∷ 0x04 ∷ 0xf0 ∷ 0xff ∷ []

abbrev pub error_codes : List ℕ
error_codes = 0x01 ∷ 0x02 ∷ 0x03 ∷ 0x04 ∷ 0x05 ∷ 0x06 ∷ []

abbrev pub evt_user_defined_min : ℕ
evt_user_defined_min = 0xf0

abbrev pub evt_user_defined_max : ℕ
evt_user_defined_max = 0xff

unfoldable pub valid_event : ℕ → Bool
valid_event t = in_codes event_codes t || (leb evt_user_defined_min t && leb t evt_user_defined_max)

-- A view of all bytes from `head` on, its length in a uint8_t.
abbrev pub view_from : ℕ → Bytes → Bytes
view_from head input = take (u8 (length input - head)) (drop head input)
