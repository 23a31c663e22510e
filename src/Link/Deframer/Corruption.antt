-- ===== src/Link/Deframer/Corruption.antt =====
-- Link errors: what the checks of on_flag() in link/frame.cpp keep out.
use omgp.Base.{
  ℕ, zero, suc, ◌+◌, ◌-◌, ◌*◌, ◌/◌, ◌%◌, ◌^◌, ◌≤◌, ◌<◌, ◌≡◌, ◌≢◌, refl, sym, ap, ◌∙◌, inl, inr, [],
  ◌∷◌, true, none, arith, ◌==◌, ==_iff, bit_or, Bytes, IsBytes, length, length-drop, take, drop,
  get_or, All-take, All-drop,
}
use omgp.Base.Bits.{each_below, each_below→true}
use omgp.Base.Words.{u16}
use omgp.Protocol.{flag_byte}
use omgp.Link.Crc.{crc16_ccitt_false, crc_init}
use omgp.Link.Crc.Detects.{
  Corrupted, here, there, crc_detects, Corrupted-split, length-Corrupted, pos-length-Corrupted,
}
use omgp.Link.Frame.{unstuffed, encode_frame}
use omgp.Link.Frame.Fields.{IsFields, on_wire}
use omgp.Link.Frame.Bounds.{unstuffed-IsBytes, encode_frame_ok}
use omgp.Link.Types.{FrameFields, ok}
use omgp.Link.Deframer.RoundTrip.{inspect-unstuffed}
use omgp.Link.Deframer.{
  Deframer, in_frame, feed, inspect, Verdict, empty, discards, delivers, actual_crc, expected_crc,
  conclude,
}

abbrev join : ℕ → ℕ → ℕ
join lo hi = u16 (bit_or lo (hi * 2 ^ 8))

join_table : each_below (λ c. join (c % 256) (c / 256) == c) 0x10000 ≡ true
unfolding each_below
join_table = refl

join_eq : (lo hi : ℕ) → lo < 256 → hi < 256 → join lo hi ≡ lo + hi * 256
join_eq lo hi h k =
    let c = lo + hi * 256 in
    let at : join (c % 256) (c / 256) ≡ c =
      (==_iff _ c).0 (each_below→true _ join_table (omega arith)) in
    let l : c % 256 ≡ lo = omega arith in
    let u : c / 256 ≡ hi = omega arith in sym (ap (λ x. join x (c / 256)) l ∙ ap (join lo) u) ∙ at

get_or-drop : (n i : ℕ) (bs : Bytes) → get_or bs (n + i) 0 ≡ get_or (drop n bs) i 0
get_or-drop zero i bs = ap (λ k. get_or bs k 0) (omega arith)
get_or-drop (suc n) i [] = refl
get_or-drop (suc n) i (b ∷ bs) =
    let e : suc n + i ≡ suc (n + i) = omega arith in
    ap (λ k. get_or (b ∷ bs) k 0) e ∙ get_or-drop n i bs

-- The checksum that a frame states, by its last two bytes.
stated : Bytes → ℕ
stated (lo ∷ hi ∷ _) = join lo hi
stated _ = 0

expected_crc-stated :
    (bs : Bytes) → 2 ≤ length bs → expected_crc bs ≡ stated (drop (length bs - 2) bs)
unfolding expected_crc
expected_crc-stated bs h =
    let n = length bs - 2 in
    let size : length (drop n bs) ≡ 2 = omega (arith, length-drop n bs) in
    let lo = get_or-drop n 0 bs in
    let hi = get_or-drop n 1 bs in
    let lo' : get_or bs n 0 ≡ get_or (drop n bs) 0 0 = ap (λ k. get_or bs k 0) (omega arith) ∙ lo in
    ap (λ x. join x (get_or bs (n + 1) 0)) lo'
    ∙ ap (join (get_or (drop n bs) 0 0)) hi
    ∙ of_two (drop n bs) size
  where
    of_two : (ls : Bytes) → length ls ≡ 2 → join (get_or ls 0 0) (get_or ls 1 0) ≡ stated ls
    of_two [] e = absurd (omega arith)
    of_two (x ∷ []) e = absurd (omega arith)
    of_two (x ∷ y ∷ []) e = unfold stated in refl
    of_two (x ∷ y ∷ z ∷ ls) e = absurd (omega arith)

stated-Corrupted :
    {bs cs : Bytes}
    → Corrupted bs cs
    → length bs ≡ 2
    → IsBytes bs
    → IsBytes cs
    → stated bs ≢ stated cs
unfolding stated
stated-Corrupted (here {x} {y} {bs = []} ne) h b c e = omega arith
stated-Corrupted (here {x} {y} {bs = hi ∷ []} ne) h b c e =
    ne (omega (arith, e, join_eq x hi b.0 b.1.0, join_eq y hi c.0 c.1.0))
stated-Corrupted (here {x} {y} {bs = hi ∷ z ∷ bs} ne) h b c e = omega arith
stated-Corrupted (there {b = lo} (here {x} {y} {bs = []} ne)) h b c e =
    ne (omega (arith, e, join_eq lo x b.0 b.1.0, join_eq lo y c.0 c.1.0))
stated-Corrupted (there (here {x} {y} {bs = z ∷ bs} ne)) h b c e = omega arith
stated-Corrupted (there (there d)) h b c e = absurd (omega (arith, pos-length-Corrupted d))

-- The checks that a delivered accumulation has passed.
pub inspect-delivers :
    (bs : Bytes) (f : FrameFields)
    → inspect bs ≡ delivers f
    → (6 ≤ length bs) × (actual_crc bs ≡ expected_crc bs)
unfolding inspect
inspect-delivers bs f h = ground arith

crc_mismatch :
    {bs cs : Bytes}
    → Corrupted bs cs
    → IsBytes bs
    → IsBytes cs
    → 2 ≤ length bs
    → actual_crc bs ≡ expected_crc bs
    → actual_crc cs ≢ expected_crc cs
unfolding actual_crc
crc_mismatch {bs} {cs} k hb hc h e e' = elim (Corrupted-split n k) [
  | inl (t, d) ↦
      crc_detects crc_init t (All-take (λ b. b < 256) n bs hb) (All-take (λ b. b < 256) n cs hc)
        (omega arith) (sum ∙ ap stated d ∙ sym sum')
  | inr (t, d) ↦
      stated-Corrupted d (omega (arith, length-drop n bs)) (All-drop (λ b. b < 256) n bs hb)
        (All-drop (λ b. b < 256) n cs hc)
        (sym sum ∙ ap (λ x. crc16_ccitt_false x crc_init) t ∙ sum')
]
  where
    n : ℕ
    n = length bs - 2

    same : length cs - 2 ≡ n
    same = omega (arith, length-Corrupted k)

    sum : crc16_ccitt_false (take n bs) crc_init ≡ stated (drop n bs)
    sum = e ∙ expected_crc-stated bs h

    sum' : crc16_ccitt_false (take n cs) crc_init ≡ stated (drop n cs)
    sum' =
        ap (λ k. crc16_ccitt_false (take k cs) crc_init) (sym same)
        ∙ e'
        ∙ expected_crc-stated cs (omega (arith, length-Corrupted k))
        ∙ ap (λ k. stated (drop k cs)) same

inspect-Corrupted :
    {bs cs : Bytes} (f g : FrameFields)
    → Corrupted bs cs
    → IsBytes bs
    → IsBytes cs
    → inspect bs ≡ delivers f
    → inspect cs ≢ delivers g
inspect-Corrupted {bs} {cs} f g k hb hc h h' =
    let (long, sum) = inspect-delivers bs f h in
    let (_, sum') = inspect-delivers cs g h' in crc_mismatch k hb hc (omega arith) sum sum'

conclude-ne-delivers :
    (r : Verdict) (d : Deframer) → ((g : FrameFields) → r ≢ delivers g) → (conclude r d).1 ≡ none
unfolding conclude
conclude-ne-delivers empty d h = refl
conclude-ne-delivers (discards why) d h = refl
conclude-ne-delivers (delivers g) d h = absurd (h g refl)

-- A single byte error is caught. Where the accumulation holds the bytes of a sent frame with exactly
-- one byte changed, in header, payload or checksum, the closing FLAG delivers nothing.
pub feed-Corrupted :
    (f : FrameFields) (cap : ℕ) (d : Deframer)
    → IsFields f
    → (encode_frame f cap).0 ≡ ok
    → d.state ≡ in_frame
    → IsBytes d.buf
    → Corrupted (unstuffed f) d.buf
    → (feed flag_byte d).1 ≡ none
unfolding feed
feed-Corrupted f cap d v h e hc k =
    let (_, _, ne) = encode_frame_ok f cap h in
    rw e (
      conclude-ne-delivers (inspect d.buf) (record d { buf = []; state = in_frame })
        (λ g.
          inspect-Corrupted (on_wire f) g k (unstuffed-IsBytes f v) hc (inspect-unstuffed f v ne)))
